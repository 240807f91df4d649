-- ===== src/Cstr/Trim/Trimmed.antt =====
-- The text that is left by the trimming functions of c_utils/cstr.c.
use tiny_utils.Base.{
  ℕ, ◌+◌, ◌-◌, ◌≤◌, ◌≡◌, inl, inr, min, refl, sym, ap, ◌∙◌, subst, some, List, [], length, take,
  drop, replicate, get_or, Outcome, ok, ◌==◌, if◌then◌else◌, arith, length-take, length-drop,
  length-replicate, take-take, take-drop_of_take, Bool-cases, ==_iff,
}
use tiny_utils.Cstr.Memory.{Cstr, IsValid, text}
use tiny_utils.Cstr.Block.{
  overwrite, read_block_lem, write_block_lem, length-overwrite, take-overwrite_before,
  take-overwrite_end,
}
use tiny_utils.Cstr.Trim.{
  skip_blanks, skip_back, empty_out, cut_end, move_front, cstr_trim, cstr_trim_hdr, cstr_trim_tail,
}
use tiny_utils.Cstr.Trim.Blanks.{IsStart, IsEnd, skip_back-IsEnd, skip_blanks-IsStart}

-- A call that leaves a valid string with the text `s`.
abbrev pub Leaves : List ℕ → Outcome Cstr → Type 0
Leaves s r = (c : Cstr) × (r ≡ ok c) × IsValid c × (text c ≡ s)

empty_out-Leaves : (c : Cstr) → IsValid c → Leaves [] (empty_out c)
unfolding empty_out
empty_out-Leaves c v = rw (write_block_lem c.bytes [] 0 (omega arith)) (
  record { cap = c.cap; used = 0; bytes = overwrite c.bytes 0 [] },
  refl,
  record {
    fits = omega arith;
    backed = omega (arith, length-overwrite c.bytes [] 0 (omega arith), v.backed);
    small = v.small;
  },
  refl,
)

cut_end-Leaves :
    (c : Cstr) (end : ℕ) → IsValid c → end ≤ c.used → Leaves (take end (text c)) (cut_end c end)
unfolding cut_end
cut_end-Leaves c end v h =
    let zeros = replicate {A = ℕ} (c.used - end) 0 in
    let room : end + length zeros ≤ length c.bytes =
      omega (arith, length-replicate {A = ℕ} (c.used - end) 0, v.fits, v.backed) in
    rw (write_block_lem c.bytes zeros end room) (
      record { cap = c.cap; used = end; bytes = overwrite c.bytes end zeros },
      refl,
      record {
        fits = omega (arith, v.fits);
        backed = omega (arith, length-overwrite c.bytes zeros end room, v.backed);
        small = v.small;
      },
      take-overwrite_before c.bytes zeros end end (omega arith) (omega (arith, v.fits, v.backed))
          ∙ sym (take-take end c.used c.bytes h),
    )

move_front-Leaves :
    (c : Cstr) (beg end : ℕ)
    → IsValid c
    → beg ≤ end
    → end ≤ c.used
    → Leaves (take (end - beg) (drop beg (text c))) (move_front c beg end)
unfolding move_front
move_front-Leaves c beg end v h k =
    let n = end - beg in
    let part = take n (drop beg c.bytes) in
    let sized : length part ≡ n =
      omega (arith, length-take n (drop beg c.bytes), length-drop beg c.bytes, v.fits, v.backed) in
    let room : 0 + length part ≤ length c.bytes = omega (arith, sized, v.fits, v.backed) in
    let b₁ = overwrite c.bytes 0 part in
    let len₁ : length b₁ ≡ length c.bytes = length-overwrite c.bytes part 0 room in
    let zeros = replicate {A = ℕ} (c.used - n) 0 in
    let room₁ : n + length zeros ≤ length b₁ =
      omega (arith, length-replicate {A = ℕ} (c.used - n) 0, len₁, v.fits, v.backed) in
    let least : min n (c.used - beg) ≡ n = omega arith in
    rw
      (
        read_block_lem c.bytes beg n (omega (arith, v.fits, v.backed)),
        write_block_lem c.bytes part 0 room,
        write_block_lem b₁ zeros n room₁,
      )
      (
        record { cap = c.cap; used = n; bytes = overwrite b₁ n zeros },
        refl,
        record {
          fits = omega (arith, v.fits);
          backed = omega (arith, length-overwrite b₁ zeros n room₁, len₁, v.backed);
          small = v.small;
        },
        take-overwrite_before b₁ zeros n n (omega arith) (omega (arith, len₁, v.fits, v.backed))
            ∙ take-overwrite_end c.bytes part 0 n (omega (arith, sized)) room
            ∙ sym (ap (λ (j : ℕ). take j (drop beg c.bytes)) least)
            ∙ take-drop_of_take n beg c.used c.bytes,
      )

start_lem :
    (c : Cstr)
    → IsValid c
    → (beg : ℕ) × (skip_blanks c.bytes 0 c.used ≡ ok beg) × IsStart c.bytes 0 c.used beg
start_lem c v =
    skip_blanks-IsStart c.bytes c.bytes 0 c.used same (omega arith)
      (omega (arith, v.fits, v.backed))
  where
    same : (i : ℕ) → get_or c.bytes (0 + i) 0 ≡ get_or c.bytes i 0
    same i = let e : 0 + i ≡ i = omega arith in ap (λ (j : ℕ). get_or c.bytes j 0) e

end_lem :
    (c : Cstr) (beg : ℕ)
    → IsValid c
    → beg ≤ c.used
    → (end : ℕ) × (skip_back c.bytes beg c.used ≡ ok end) × IsEnd c.bytes beg c.used end
end_lem c beg v h = skip_back-IsEnd c.bytes beg c.used h (omega (arith, v.fits, v.backed))

none_taken : (n : ℕ) (xs : List ℕ) → n ≡ 0 → take n xs ≡ []
none_taken n xs e = ap (λ (j : ℕ). take j xs) e

-- A string that is empty already stays as it is.
already_empty :
    (c : Cstr) (n : ℕ) (xs : List ℕ) → IsValid c → c.used ≡ 0 → n ≡ 0 → Leaves (take n xs) (ok c)
already_empty c n xs v e z = (c, refl, v, none_taken c.used c.bytes e ∙ sym (none_taken n xs z))

all_cut : (c : Cstr) (n : ℕ) (xs : List ℕ) → IsValid c → n ≡ 0 → Leaves (take n xs) (empty_out c)
all_cut c n xs v z =
    subst (λ s. Leaves s (empty_out c)) (sym (none_taken n xs z)) (empty_out-Leaves c v)

-- On a valid string, `cstr_trim_hdr` cuts off the longest prefix of blanks.
cstr_trim_hdr-Leaves :
    (c : Cstr)
    → IsValid c
    → (beg : ℕ) × IsStart c.bytes 0 c.used beg
      × Leaves (take (c.used - beg) (drop beg (text c))) (cstr_trim_hdr (some c))
unfolding cstr_trim_hdr
cstr_trim_hdr-Leaves c v =
    let (beg, e, s) = start_lem c v in
    (
      beg,
      s,
      elim (Bool-cases (c.used == 0)) [
        | inl empty ↦
            let zero_used = (==_iff c.used 0).0 empty in
            rw empty (already_empty c (c.used - beg) _ v zero_used (omega arith))
        | inr more ↦ elim (Bool-cases (beg == c.used)) [
          | inl blank ↦ rw (more, e, blank) (all_cut c (c.used - beg) _ v (ground arith))
          | inr left ↦ rw (more, e, left) (move_front-Leaves c beg c.used v s.1 (omega arith))
        ]
      ],
    )

-- On a valid string, `cstr_trim_tail` cuts off the longest suffix of blanks, and, where a single byte
-- is left in front of it, that byte too.
cstr_trim_tail-Leaves :
    (c : Cstr)
    → IsValid c
    → (end : ℕ) × IsEnd c.bytes 0 c.used end
      × Leaves (take (if end == 1 then 0 else end) (text c)) (cstr_trim_tail (some c))
unfolding cstr_trim_tail
cstr_trim_tail-Leaves c v =
    let (end, e, s) = end_lem c 0 v (omega arith) in
    (
      end,
      s,
      elim (Bool-cases (c.used == 0)) [
        | inl empty ↦
            let zero_used = (==_iff c.used 0).0 empty in
            rw empty
              (already_empty c (if end == 1 then 0 else end) _ v zero_used (ground (arith, s.1)))
        | inr more ↦ elim (Bool-cases (end == 1)) [
          | inl one ↦ rw (more, e, one) (empty_out-Leaves c v)
          | inr left ↦ rw (more, e, left) (cut_end-Leaves c end v s.1)
        ]
      ],
    )

-- On a valid string, `cstr_trim` cuts off the longest prefix of blanks and the longest suffix of
-- blanks behind it.
pub cstr_trim-Leaves :
    (c : Cstr)
    → IsValid c
    → (beg end : ℕ) × IsStart c.bytes 0 c.used beg
      × IsEnd c.bytes beg c.used end
      × Leaves (take (end - beg) (drop beg (text c))) (cstr_trim (some c))
unfolding cstr_trim
cstr_trim-Leaves c v =
    let (beg, e, s) = start_lem c v in
    let (end, f, t) = end_lem c beg v s.1 in
    (
      beg,
      end,
      s,
      t,
      elim (Bool-cases (c.used == 0)) [
        | inl empty ↦
            let zero_used = (==_iff c.used 0).0 empty in
            rw empty (already_empty c (end - beg) _ v zero_used (omega (arith, t.1)))
        | inr more ↦ elim (Bool-cases (beg == c.used)) [
          | inl blank ↦ rw (more, e, blank) (all_cut c (end - beg) _ v (ground (arith, t.1)))
          | inr left ↦ elim (Bool-cases (beg == 0)) [
            | inr prefix ↦ rw (more, e, left, f, prefix) (move_front-Leaves c beg end v t.0 t.1)
            | inl no_prefix ↦
                let front : take end (text c) ≡ take (end - beg) (drop beg (text c)) =
                  cut_at_front (text c) beg end (ground arith) in
                elim (Bool-cases (end == c.used)) [
                  | inl no_suffix ↦
                      rw (more, e, left, f, no_prefix, no_suffix)
                        (subst (λ s. Leaves s (ok c)) front
                          (
                            c,
                            refl,
                            v,
                            ap (λ (j : ℕ). take j c.bytes) (sym ((==_iff end c.used).0 no_suffix))
                                ∙ sym (take-take end c.used c.bytes t.1),
                          ))
                  | inr suffix ↦
                      rw (more, e, left, f, no_prefix, suffix)
                        (subst (λ s. Leaves s (cut_end c end)) front (cut_end-Leaves c end v t.1))
                ]
          ]
        ]
      ],
    )
  where
    cut_at_front :
        (xs : List ℕ) (beg end : ℕ) → beg ≡ 0 → take end xs ≡ take (end - beg) (drop beg xs)
    cut_at_front xs beg end z =
        let all : end ≡ end - beg = omega arith in
        ap (λ (j : ℕ). take j xs) all ∙ ap (λ (j : ℕ). take (end - beg) (drop j xs)) (sym z)
