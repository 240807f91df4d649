-- ===== src/Cstr/Shared/Appended.antt =====
-- What `cstr_append` of c_utils/cstr.c does to the strings of a store.
use tiny_utils.Base.{
  ℕ, ◌+◌, ◌-◌, ◌≤◌, ◌<◌, ◌≡◌, ◌≢◌, ◌⊎◌, inl, inr, refl, sym, ap, ◌∙◌, false, Option, none, some,
  List, ◌++◌, take, Outcome, ok, fault, Fault, ltb, ◌==◌, ◌||◌, Bool-cases, ==_iff, lt→ltb,
  ℕ_discrete, arith,
}
use mathlib.Core.List.{append-nil}
use tiny_utils.Cstr.Capacity.{u32, min_size, max_size, overhead, cal_fit_cap}
use tiny_utils.Cstr.Capacity.Laws.{cal_fit_cap_bounds}
use tiny_utils.Cstr.Memory.{Cstr, IsValid, text, total_size, total_used}
use tiny_utils.Cstr.Block.{Allocator}
use tiny_utils.Cstr.Stored.{Stores, HasMemory}
use tiny_utils.Cstr.Stored.Appended.{copied_lem}
use tiny_utils.Cstr.Shared.{Store, put, moved, copied, copy_at, grow_at, append_at}

-- The destination has its text and that of the source behind it, at `dst` or `new`; if it has moved, `dst` is
-- free; all other strings are as before.
abbrev pub Appended : Store → ℕ → ℕ → List ℕ → Outcome (Option ℕ × Store) → Type 0
Appended m dst new s r =
    (p : ℕ) × (c : Cstr) × (m' : Store) × (r ≡ ok (some p, m'))
    × (m' p ≡ some c)
    × IsValid c
    × (text c ≡ s)
    × ((p ≡ dst) ⊎ ((p ≡ new) × (m' dst ≡ none)))
    × ((x : ℕ) → x ≢ dst → x ≢ p → m' x ≡ m x)

-- The capacity that is chosen for the text of two strings.
abbrev pub chosen : Cstr → Cstr → ℕ
chosen d s = cal_fit_cap (u32 (total_size d)) (u32 (total_used d + s.used))

copy_at_lem :
    (p str new_cap : ℕ) (m : Store) (d s : Cstr) (t : List ℕ)
    → m p ≡ some d
    → m str ≡ some s
    → Stores t (copied d s new_cap)
    → (c : Cstr) × (copy_at p str new_cap m ≡ ok (some p, put m p c)) × IsValid c × (text c ≡ t)
unfolding copy_at
copy_at_lem p str new_cap m d s t at at' (c, e, v, same) = (c, rw (at, at', e) refl, v, same)

put_here : (m : Store) (p : ℕ) (c : Cstr) → put m p c p ≡ some c
put_here m p c = ground arith

put_other : (m : Store) (p x : ℕ) (c : Cstr) → x ≢ p → put m p c x ≡ m x
put_other m p x c ne = ground arith

moved_here : (m : Store) (p new : ℕ) (c : Cstr) → moved m p new c new ≡ some c
moved_here m p new c = ground arith

moved_other : (m : Store) (p new x : ℕ) (c : Cstr) → x ≢ new → x ≢ p → moved m p new c x ≡ m x
moved_other m p new x c ne ne' = ground arith

moved_away : (m : Store) (p new : ℕ) (c : Cstr) → p ≢ new → moved m p new c p ≡ none
moved_away m p new c ne = ground arith

-- The capacity is within its bounds.
record Bounds (d s : Cstr) : Type 0 where
  total : u32 (total_used d + s.used) ≡ d.used + s.used + 9
  least : min_size ≤ chosen d s
  enough : d.used + s.used + 9 ≤ chosen d s
  most : chosen d s ≤ max_size

bounds_lem : (d s : Cstr) → IsValid d → d.cap + overhead + s.used ≤ max_size → Bounds d s
bounds_lem d s v h =
    let exact : u32 (total_used d + s.used) ≡ d.used + s.used + 9 = omega (arith, v.fits) in
    let b =
      cal_fit_cap_bounds (u32 (total_size d)) (u32 (total_used d + s.used)) (omega (arith, v.small))
        (omega (arith, v.fits, exact)) in
    record {
      total = exact;
      least = omega (arith, b);
      enough = omega (arith, b, exact);
      most = omega (arith, b);
    }

grow_step :
    (a : Allocator) (dst str new : ℕ) (d : Cstr) (new_cap : ℕ) (m : Store) (b : List ℕ)
    → a.realloc d.bytes new_cap ≡ some b
    → grow_at a dst str new d new_cap m
      ≡ copy_at new str new_cap (moved m dst new (record d { bytes = b }))
unfolding grow_at
grow_step a dst str new d new_cap m b e = rw (grow_at, e) refl

module _ (a : Allocator) (mem : HasMemory a) (dst str new : ℕ) (m : Store) (d s : Cstr) where
  -- The block is large enough.
  kept_lem :
      m dst ≡ some d
      → m str ≡ some s
      → IsValid d
      → IsValid s
      → Bounds d s
      → chosen d s - overhead ≤ d.cap
      → Appended m dst new (text d ++ text s) (copy_at dst str (chosen d s) m)
  unfolding copied
  kept_lem at at' v w b small =
      let (c, e, v', same) = copy_at_lem dst str (chosen d s) m d s (text d ++ text s) at at' (
        copied_lem a mem d d.bytes s.bytes s.used (chosen d s - overhead)
          (omega (arith, small, v.backed)) (omega (arith, b.enough))
          (omega (arith, b.most, b.least)) (omega (arith, w.fits, w.backed)) refl) in
      (
        dst,
        c,
        put m dst c,
        e,
        put_here m dst c,
        v',
        same,
        inl refl,
        λ x ne ne'. put_other m dst x c ne',
      )

  -- The block is enlarged, and may move.
  grown_lem :
      m str ≡ some s
      → IsValid d
      → IsValid s
      → Bounds d s
      → dst ≢ str
      → new ≢ str
      → Appended m dst new (text d ++ text s) (grow_at a dst str new d (chosen d s) m)
  unfolding copied
  grown_lem at' v w b apart fresh =
      let (bytes, e) = mem.1 d.bytes (chosen d s) b.most in
      let size = a.realloc_size d.bytes bytes (chosen d s) e in
      let d₁ = record d { bytes = bytes } in
      let m₁ = moved m dst new d₁ in
      let (c, e', v', same) =
        copy_at_lem new str (chosen d s) m₁ d₁ s (text d ++ text s) (moved_here m dst new d₁)
          (moved_other m dst new str d₁ (λ q. fresh (sym q)) (λ q. apart (sym q)) ∙ at')
          (copied_lem a mem d bytes s.bytes s.used (chosen d s - overhead)
            (omega (arith, size, b.enough)) (omega (arith, b.enough))
            (omega (arith, b.most, b.least)) (omega (arith, w.fits, w.backed))
            (a.realloc_keeps d.bytes bytes (chosen d s) d.used e (omega (arith, v.fits, v.backed))
              (omega (arith, b.enough)))) in
      (
        new,
        c,
        put m₁ new c,
        grow_step a dst str new d (chosen d s) m bytes e ∙ e',
        put_here m₁ new c,
        v',
        same,
        elim (ℕ_discrete dst new) [
          | yes stays ↦ inl (sym stays)
          | no away ↦ inr (refl, put_other m₁ new dst c away ∙ moved_away m dst new d₁ away)
        ],
        λ x ne ne'. put_other m₁ new x c ne' ∙ moved_other m dst new x d₁ ne' ne,
      )

  -- With memory, two different valid strings whose sizes are together within the maximal size are appended: the
  -- text of the source stands behind that of the destination, which may have moved to `new`, and no other string
  -- changes. `new` is not where the source stands.
  pub append_at-Appended :
      m dst ≡ some d
      → m str ≡ some s
      → IsValid d
      → IsValid s
      → d.cap + overhead + s.used ≤ max_size
      → dst ≢ str
      → new ≢ str
      → Appended m dst new (text d ++ text s) (append_at a dst str new m)
  unfolding append_at
  append_at-Appended at at' v w h apart fresh = elim (Bool-cases (s.used == 0)) [
    | inl empty ↦
        rw (at, at', empty)
          (
            dst,
            d,
            m,
            refl,
            at,
            v,
            sym (
                ap (λ (k : ℕ). text d ++ take k s.bytes) ((==_iff s.used 0).0 empty)
                ∙ append-nil (text d)),
            inl refl,
            λ x ne ne'. refl,
          )
    | inr more ↦ elim (Bool-cases (ltb d.cap (chosen d s - overhead))) [
      | inl grows ↦
          rw (at, at', more, passes, grows) (grown_lem at' v w (bounds_lem d s v h) apart fresh)
      | inr keeps ↦
          rw (at, at', more, passes, keeps)
            (kept_lem at at' v w (bounds_lem d s v h) (ground arith))
    ]
  ]
    where
      passes : (ltb max_size (u32 (total_size d + s.used)) || ltb (chosen d s) min_size) ≡ false
      passes = let b = (bounds_lem d s v h).least in ground (arith, v.small)

-- With memory, a valid string that is not empty is appended to itself. Its block and its text together are
-- within the maximal size, the block has to grow, and `realloc` moves it. Then the call faults: `memcpy` reads
-- the block that was freed.
pub append_at-fault :
    (a : Allocator) (mem : HasMemory a) (dst new : ℕ) (m : Store) (d : Cstr)
    → m dst ≡ some d
    → IsValid d
    → d.cap + overhead + d.used ≤ max_size
    → 0 < d.used
    → d.cap < chosen d d - overhead
    → dst ≢ new
    → append_at a dst dst new m ≡ fault Fault.out_of_bounds
unfolding append_at copy_at
append_at-fault a mem dst new m d at v h more grows away =
    let (bytes, e) = mem.1 d.bytes (chosen d d) (bounds_lem d d v h).most in
    rw (at, not_empty, passes, lt→ltb d.cap (chosen d d - overhead) grows)
      (grow_step a dst dst new d (chosen d d) m bytes e ∙ reads_freed bytes)
  where
    not_empty : (d.used == 0) ≡ false
    not_empty = ground arith

    passes : (ltb max_size (u32 (total_size d + d.used)) || ltb (chosen d d) min_size) ≡ false
    passes = let b = (bounds_lem d d v h).least in ground (arith, v.small)

    reads_freed :
        (bytes : List ℕ)
        → copy_at new dst (chosen d d) (moved m dst new (record d { bytes = bytes }))
          ≡ fault Fault.out_of_bounds
    reads_freed bytes =
        rw
          (
            moved_here m dst new (record d { bytes = bytes }),
            moved_away m dst new (record d { bytes = bytes }) away,
          )
          refl
