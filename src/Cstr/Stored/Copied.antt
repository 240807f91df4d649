-- ===== src/Cstr/Stored/Copied.antt =====
-- `cstr_copy` of c_utils/cstr.c.
use tiny_utils.Base.{
  ℕ, ◌+◌, ◌-◌, ◌≤◌, ◌<◌, ◌≡◌, ◌⊎◌, inl, inr, min, refl, ap, ◌∙◌, subst, false, some, List, ◌++◌,
  length, take, drop, ok, fault, Fault, ◌>>=◌, ltb, ◌==◌, ◌||◌, if◌then◌else◌, arith, length-take,
  length-drop, Bool-cases, ==_iff, dec_lt, take-drop_of_take, drop-take,
}
use tiny_utils.Cstr.Capacity.{u32, min_size, max_size, overhead, cal_fit_cap}
use tiny_utils.Cstr.Capacity.Laws.{cal_fit_cap_bounds}
use tiny_utils.Cstr.Memory.{Cstr, set_end, IsValid, text, total_size}
use tiny_utils.Cstr.Block.{
  overwrite, Allocator, read_block_lem, write_block_lem, length-overwrite, take-overwrite_after,
}
use tiny_utils.Cstr.Assign.{refit, copy_len, copy_bytes, cstr_copy}
use tiny_utils.Cstr.Stored.{Stores, HasMemory, text-set_end}

-- What `refit` leaves: the new capacity, the old text as far as it fits, and a block that is as large as the
-- capacity where it is a new one.
record Refitted (dst : Cstr) (new_cap : ℕ) (c : Cstr) : Type 0 where
  sized : c.cap ≡ new_cap - overhead
  same_used : c.used ≡ dst.used
  backed : c.cap + 1 ≤ length c.bytes
  exact : (new_cap ≡ total_size dst) ⊎ (length c.bytes ≡ c.cap + 1)
  keeps : (k : ℕ) → k ≤ dst.cap + 1 → k ≤ c.cap + 1 → take k c.bytes ≡ take k dst.bytes

-- The capacity that `cstr_copy` gives the destination.
abbrev pub copied_cap : Cstr → ℕ → ℕ
copied_cap dst n = cal_fit_cap (u32 (total_size dst)) (n + overhead) - overhead

module _ (a : Allocator) (m : HasMemory a) where
  refit-Refitted :
      (dst : Cstr) (total : ℕ)
      → IsValid dst
      → total ≤ max_size
      → (c : Cstr) × (refit a dst total ≡ some c)
        × Refitted dst (cal_fit_cap (u32 (total_size dst)) total) c
  unfolding refit
  refit-Refitted dst total v h =
      let new_cap = cal_fit_cap (u32 (total_size dst)) total in
      let b = cal_fit_cap_bounds (u32 (total_size dst)) total (omega (arith, v.small)) h in
      let low : (ltb new_cap min_size || ltb max_size new_cap) ≡ false = ground (arith, b) in
      elim (Bool-cases (new_cap == total_size dst)) [
        | inl same ↦
            let same' = (==_iff new_cap (total_size dst)).0 same in
            rw (low, same)
              (
                record { cap = new_cap - overhead; used = dst.used; bytes = dst.bytes },
                refl,
                record {
                  sized = refl;
                  same_used = refl;
                  backed = omega (arith, v.backed, same');
                  exact = inl same';
                  keeps = λ k h h'. refl;
                },
              )
        | inr other ↦
            let (bytes, e) = m.1 dst.bytes new_cap (omega (arith, b)) in
            let size = a.realloc_size dst.bytes bytes new_cap e in
            rw (low, other, e)
              (
                record { cap = new_cap - overhead; used = dst.used; bytes = bytes },
                refl,
                record {
                  sized = refl;
                  same_used = refl;
                  backed = omega (arith, b, size);
                  exact = inr (omega (arith, b, size));
                  keeps = λ k h h'.
                      a.realloc_keeps dst.bytes bytes new_cap k e (omega (arith, v.backed))
                        (omega (arith, b));
                },
              )
      ]

  copied_lem :
      (dst c : Cstr) (src : List ℕ) (begin n : ℕ)
      → IsValid dst
      → Refitted dst (cal_fit_cap (u32 (total_size dst)) (n + overhead)) c
      → n ≤ c.cap
      → c.cap + overhead ≤ max_size
      → begin + n ≤ length src
      → dst.used ≤ c.cap
      → Stores (take n (drop begin src) ++ drop n (text dst)) (
          set_end (record c {
            used = if ltb c.used n then n else c.used;
            bytes = overwrite c.bytes 0 (take n (drop begin src));
          })
          >>= λ c'. ok (some c'))
  copied_lem dst c src begin n v r fits small inside keeps =
      let part = take n (drop begin src) in
      let sized : length part ≡ n =
        omega (arith, length-take n (drop begin src), length-drop begin src) in
      let used = if ltb c.used n then n else c.used in
      let exact : used ≡ 0 + (length part + (dst.used - n)) = ground (arith, sized, r.same_used) in
      let rest : take (dst.used - n) (drop (0 + length part) c.bytes) ≡ drop n (text dst) =
        ap (λ (k : ℕ). take (dst.used - n) (drop k c.bytes)) (omega (arith, sized))
        ∙ drop-take n dst.used c.bytes
        ∙ ap (drop n) (r.keeps dst.used (omega (arith, v.fits)) (omega arith)) in
      text-set_end c (overwrite c.bytes 0 part) (part ++ drop n (text dst)) used
        (ground (arith, r.same_used))
        (omega (arith, length-overwrite c.bytes part 0 (omega (arith, sized, r.backed)), r.backed))
        small
        (take-overwrite_after c.bytes part 0 (dst.used - n) used exact (omega arith)
          ∙ ap (λ (t : List ℕ). part ++ t) rest)

  -- With memory, for valid strings and a part that lies within the source, `cstr_copy` gives a valid string that
  -- begins with the part and goes on with what was behind it in the destination, where the old text fits in
  -- the new capacity; where it does not, it writes its final byte out of bounds.
  pub cstr_copy_lem :
      (dst src : Cstr) (begin len : ℕ)
      → IsValid dst
      → IsValid src
      → begin + copy_len src.used len ≤ src.used
      → let n = copy_len src.used len in
        ((dst.used ≤ copied_cap dst n)
          × Stores
              (take n (drop begin (text src)) ++ drop n (text dst))
              (cstr_copy a (some dst) (some src) begin len))
        ⊎ ((copied_cap dst n < dst.used)
            × (cstr_copy a (some dst) (some src) begin len ≡ fault Fault.out_of_bounds))
  unfolding cstr_copy copy_bytes
  cstr_copy_lem dst src begin len v w inside =
      let n = copy_len src.used len in
      let total : u32 (n + overhead) ≡ n + overhead = omega (arith, w.fits, w.small) in
      let (c, e, r) = refit-Refitted dst (n + overhead) v (omega (arith, w.fits, w.small)) in
      let b =
        cal_fit_cap_bounds (u32 (total_size dst)) (n + overhead) (omega (arith, v.small))
          (omega (arith, w.fits, w.small)) in
      let part = take n (drop begin src.bytes) in
      let sized : length part ≡ n = omega (
        arith,
        length-take n (drop begin src.bytes),
        length-drop begin src.bytes,
        w.fits,
        w.backed,
      ) in
      let read = read_block_lem src.bytes begin n (omega (arith, w.fits, w.backed)) in
      let written = write_block_lem c.bytes part 0 (omega (arith, sized, r.backed, r.sized, b)) in
      let same : take n (drop begin src.bytes) ≡ take n (drop begin (text src)) =
        let short : n ≡ min n (src.used - begin) = omega arith in
        ap (λ (k : ℕ). take k (drop begin src.bytes)) short
        ∙ take-drop_of_take n begin src.used src.bytes in
      elim (dec_lt (copied_cap dst n) dst.used) [
        | no fits ↦ inl (
          omega arith,
          subst
              (λ (t : List ℕ).
                Stores (t ++ drop n (text dst)) (cstr_copy a (some dst) (some src) begin len))
              same
              (rw (total, e, read, written)
                (copied_lem dst c src.bytes begin n v r (omega (arith, r.sized, b))
                  (omega (arith, r.sized, b)) (omega (arith, w.fits, w.backed))
                  (omega (arith, r.sized)))),
        )
        | yes beyond ↦ inr (
          beyond,
          rw (total, e, read, written)
              (elim r.exact [
                | inl kept ↦ absurd (omega (arith, v.fits))
                | inr new ↦
                    let over : ltb (if ltb c.used n then n else c.used)
                          (length (overwrite c.bytes 0 part))
                        ≡ false =
                      ground (
                        arith,
                        r.same_used,
                        new,
                        r.sized,
                        length-overwrite c.bytes part 0
                            (omega (arith, sized, r.backed, r.sized, b)),
                      ) in
                    rw over refl
              ]),
        )
      ]
