-- ===== src/Cstr/Stored.antt =====
-- What the constructors and the assignments of c_utils/cstr.c leave in the string, when the allocator
-- has memory.
pub mod Appended
pub mod Copied
pub mod RoundTrip
pub mod Created
pub mod Heap
mod Tests
use tiny_utils.Base.{
  ℕ, zero, suc, ◌+◌, ◌-◌, ◌*◌, ◌%◌, ◌^◌, ◌≤◌, ◌<◌, ◌≡◌, ◌≢◌, ◌↔◌, ◌⊎◌, inl, inr, min, refl, sym, ap,
  ◌∙◌, subst, Bool, true, false, not, Option, none, some, List, [], ◌∷◌, ◌++◌, map, length, take,
  drop, set, replicate, get_or, get_elem?, Outcome, ok, fault, Fault, ◌>>=◌, from_option, load,
  store, ltb, leb, ◌==◌, ◌||◌, ◌&&◌, if◌then◌else◌, arith, length-append, length-take, length-drop,
  length-set, length-replicate, take-append-drop, take-append, drop-append, take-append_le,
  take-append_ge, take-take, take-set_le, take_whole, take-drop_of_take, load_lem, store_lem,
  Bool-cases, Option-cases, ltb→lt, lt→ltb, leb→le, ==_iff,
}
use tiny_utils.Cstr.Capacity.{u32, min_size, max_size, overhead, cal_fit_cap, round_up_power_2}
use tiny_utils.Cstr.Capacity.Laws.{cal_fit_cap_bounds, round_up_power_2-IsLeastPower}
use tiny_utils.Cstr.Memory.{Cstr, set_end, IsValid, text, total_size, total_used, assert_valid}
use tiny_utils.Cstr.Block.{
  read_block, write_block, write_zeros, overwrite, Allocator, read_block_lem, write_block_lem,
  length-overwrite, take-overwrite_before, take-overwrite_end,
}
use tiny_utils.Cstr.Create.{unless_null, new_size, cstr_new_size, cstr_new_str, cstr_new}
use tiny_utils.Cstr.Assign.{
  refit, fill_with, cstr_assign, cstr_assign_str, take_part, cstr_sub_cstr, cstr_sub_str,
  append_bytes, cstr_append, cstr_append_str,
}

-- A call that returns a valid string with the text `s`.
abbrev pub Stores : List ℕ → Outcome (Option Cstr) → Type 0
Stores s r = (c : Cstr) × (r ≡ ok (some c)) × IsValid c × (text c ≡ s)

-- No request up to the maximal size fails.
abbrev pub HasMemory : Allocator → Type 0
HasMemory a =
    ((n : ℕ) → n ≤ max_size → (b : List ℕ) × (a.malloc n ≡ some b))
    × ((b : List ℕ) (n : ℕ) → n ≤ max_size → (b' : List ℕ) × (a.realloc b n ≡ some b'))

-- The block behind a string, after `refit`.
pub record Fitted (total : ℕ) (c : Cstr) : Type 0 where
  pub backed : c.cap + 1 ≤ length c.bytes
  pub holds : total ≤ c.cap + overhead
  pub limited : c.cap + overhead ≤ max_size

pub text-set_end :
    (c : Cstr) (bytes s : List ℕ) (used : ℕ)
    → used ≤ c.cap
    → c.cap + 1 ≤ length bytes
    → c.cap + overhead ≤ max_size
    → take used bytes ≡ s
    → Stores s (set_end (record { cap = c.cap; used = used; bytes = bytes }) >>= λ c'. ok (some c'))
text-set_end c bytes s used h e small t = rw (store_lem bytes used 0 (omega arith)) (
  record { cap = c.cap; used = used; bytes = set bytes used 0 },
  refl,
  record { fits = h; backed = omega (arith, length-set bytes used 0); small = small },
  take-set_le used used bytes 0 (omega arith) ∙ t,
)

module _ (a : Allocator) (m : HasMemory a) where
  refit-Fitted :
      (dst : Cstr) (total : ℕ)
      → IsValid dst
      → total ≤ max_size
      → (c : Cstr) × (refit a dst total ≡ some c) × Fitted total c × (c.used ≡ dst.used)
  unfolding refit
  refit-Fitted dst total v h =
      let new_cap = cal_fit_cap (u32 (total_size dst)) total in
      let b = cal_fit_cap_bounds (u32 (total_size dst)) total (omega (arith, v.small)) h in
      let low : (ltb new_cap min_size || ltb max_size new_cap) ≡ false = ground (arith, b) in
      elim (Bool-cases (new_cap == total_size dst)) [
        | inl same ↦
            let same' = (==_iff new_cap (total_size dst)).0 same in
            rw (low, same)
              (
                record { cap = new_cap - overhead; used = dst.used; bytes = dst.bytes },
                refl,
                record {
                  backed = omega (arith, v.backed, same');
                  holds = omega (arith, b);
                  limited = omega (arith, b);
                },
                refl,
              )
        | inr other ↦
            let (bytes, e) = m.1 dst.bytes new_cap (omega (arith, b)) in
            rw (low, other, e)
              (
                record { cap = new_cap - overhead; used = dst.used; bytes = bytes },
                refl,
                record {
                  backed = omega (arith, b, a.realloc_size dst.bytes bytes new_cap e);
                  holds = omega (arith, b);
                  limited = omega (arith, b);
                },
                refl,
              )
      ]

fill_with-Stores :
    (a : Allocator) (c : Cstr) (src : List ℕ) (used total : ℕ)
    → Fitted total c
    → used + overhead ≤ total
    → used ≤ length src
    → Stores (take used src) (fill_with a c src used)
unfolding fill_with
fill_with-Stores a c src used total f h k =
    let part = take used src in
    let sized : length part ≡ used = omega (arith, length-take used src) in
    let b₁ = overwrite c.bytes 0 part in
    let len₁ : length b₁ ≡ length c.bytes =
      length-overwrite c.bytes part 0 (omega (arith, sized, f.backed, f.holds)) in
    let zeros = replicate (c.cap - used) 0 in
    let filled : used + length zeros ≡ c.cap =
      omega (arith, length-replicate {A = ℕ} (c.cap - used) 0, f.holds) in
    let b₂ = overwrite b₁ used zeros in
    let len₂ : length b₂ ≡ length b₁ =
      length-overwrite b₁ zeros used (omega (arith, filled, len₁, f.backed)) in
    rw
      (
        read_block_lem src 0 used (omega arith),
        write_block_lem c.bytes part 0 (omega (arith, sized, f.backed, f.holds)),
        write_block_lem b₁ zeros used (omega (arith, filled, len₁, f.backed)),
      )
      (text-set_end c b₂ part used (omega (arith, f.holds)) (omega (arith, len₁, len₂, f.backed))
        f.limited
        (take-overwrite_before b₁ zeros used used (omega arith)
            (omega (arith, len₁, f.backed, f.holds))
          ∙ take-overwrite_end c.bytes part 0 used (omega (arith, sized))
              (omega (arith, sized, f.backed, f.holds))))

module _ (a : Allocator) (m : HasMemory a) where
  -- With memory, for valid strings, `cstr_assign` makes the destination a valid string with the text
  -- of the source.
  cstr_assign-Stores :
      (dst src : Cstr)
      → IsValid dst
      → IsValid src
      → Stores (text src) (cstr_assign a (some dst) (some src))
  unfolding cstr_assign
  cstr_assign-Stores dst src v w =
      let (c, e, f, same) =
        refit-Fitted a m dst (u32 (total_used src)) v (omega (arith, w.fits, w.small)) in
      rw e (
        fill_with-Stores a c src.bytes src.used (u32 (total_used src)) f
          (omega (arith, w.fits, w.small)) (omega (arith, w.fits, w.backed)))

  -- With memory, for a valid destination and a text that fits the maximal size, `cstr_assign_str`
  -- makes the destination a valid string with that text.
  pub cstr_assign_str-Stores :
      (dst : Cstr) (src : List ℕ)
      → IsValid dst
      → length src + overhead ≤ max_size
      → Stores src (cstr_assign_str a (some dst) (some src))
  unfolding cstr_assign_str
  cstr_assign_str-Stores dst src v h =
      let wide : u32 (length src) ≡ length src = omega arith in
      let (c, e, f, same) =
        refit-Fitted a m dst (u32 (u32 (length src) + overhead)) v (omega arith) in
      subst (λ s. Stores s (cstr_assign_str a (some dst) (some src)))
        (ap (λ (k : ℕ). take k src) wide ∙ take_whole src)
        (rw e (
          fill_with-Stores a c src (u32 (length src)) (u32 (u32 (length src) + overhead)) f
            (omega arith) (omega arith)))

  take_part-Stores :
      (dst : Cstr) (src : List ℕ) (begin len : ℕ)
      → IsValid dst
      → len + overhead ≤ max_size
      → begin + len ≤ length src
      → Stores (take len (drop begin src)) (take_part a dst src begin len)
  unfolding take_part
  take_part-Stores dst src begin len v h k =
      let (c, e, f, same) = refit-Fitted a m dst (u32 (len + overhead)) v (omega arith) in
      let part = take len (drop begin src) in
      let sized : length part ≡ len =
        omega (arith, length-take len (drop begin src), length-drop begin src) in
      let fits : 0 + length part ≤ length c.bytes = omega (arith, sized, f.backed, f.holds) in
      rw (e, read_block_lem src begin len k, write_block_lem c.bytes part 0 fits)
        (text-set_end c (overwrite c.bytes 0 part) part len (omega (arith, f.holds))
          (omega (arith, length-overwrite c.bytes part 0 fits, f.backed)) f.limited
          (take-overwrite_end c.bytes part 0 len (omega (arith, sized)) fits))

  -- With memory, for valid strings, a position inside the source and a length from 1 to that of the
  -- source, `cstr_sub_cstr` gives a valid string: the text from that position on, cut at that length
  -- or at the end.
  pub cstr_sub_cstr-Stores :
      (substr cstr : Cstr) (begin len : ℕ)
      → IsValid substr
      → IsValid cstr
      → begin < cstr.used
      → 0 < len
      → len ≤ cstr.used
      → Stores
          (take len (drop begin (text cstr)))
          (cstr_sub_cstr a (some substr) (some cstr) begin len)
  unfolding cstr_sub_cstr
  cstr_sub_cstr-Stores substr cstr begin len v w inside pos le =
      let len' =
        if ltb cstr.used (u32 (len + begin)) then u32 (cstr.used + 2 ^ 32 - begin) else len in
      let cut : len' ≡ min len (cstr.used - begin) = ground (arith, w.fits, w.small) in
      let in_range : (ltb (u32 (cstr.used + 2 ^ 32 - 1)) begin || len == 0 || ltb cstr.used len)
          ≡ false =
        ground (arith, w.fits, w.small) in
      subst (λ s. Stores s (cstr_sub_cstr a (some substr) (some cstr) begin len))
        (ap (λ (k : ℕ). take k (drop begin cstr.bytes)) cut
          ∙ take-drop_of_take len begin cstr.used cstr.bytes)
        (rw in_range (
          take_part-Stores substr cstr.bytes begin len' v (omega (arith, cut, w.fits, w.small))
            (omega (arith, cut, w.fits, w.backed))))
