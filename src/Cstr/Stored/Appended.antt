-- ===== src/Cstr/Stored/Appended.antt =====
-- `cstr_append` and `cstr_append_str` of c_utils/cstr.c.
use tiny_utils.Base.{
  ℕ, ◌+◌, ◌-◌, ◌^◌, ◌≤◌, ◌≡◌, inl, inr, refl, sym, ap, ◌∙◌, subst, false, some, List, ◌++◌, length,
  take, replicate, ok, ◌>>=◌, ltb, ◌==◌, ◌||◌, arith, length-take, length-replicate, take_whole,
  Bool-cases, ==_iff,
}
use mathlib.Core.List.{append-nil}
use tiny_utils.Cstr.Capacity.{u32, min_size, max_size, overhead, cal_fit_cap}
use tiny_utils.Cstr.Capacity.Laws.{cal_fit_cap_bounds}
use tiny_utils.Cstr.Memory.{Cstr, IsValid, text, total_size, total_used}
use tiny_utils.Cstr.Block.{
  read_block, write_block, write_zeros, overwrite, Allocator, read_block_lem, write_block_lem,
  length-overwrite, take-overwrite_before, take-overwrite_end,
}
use tiny_utils.Cstr.Assign.{append_bytes, cstr_append, cstr_append_str}
use tiny_utils.Cstr.Stored.{Stores, HasMemory}

module _ (a : Allocator) (m : HasMemory a) where
  -- From the block on that has the new capacity.
  pub copied_lem :
      (dst : Cstr) (b src : List ℕ) (n cap : ℕ)
      → cap + 1 ≤ length b
      → dst.used + n ≤ cap
      → cap + overhead ≤ max_size
      → n ≤ length src
      → take dst.used b ≡ text dst
      → Stores (text dst ++ take n src) (
          read_block src 0 n >>= λ part. write_block b dst.used part >>= λ b₁.
          write_zeros b₁ (u32 (dst.used + n)) (u32 (cap + 2 ^ 32 - u32 (dst.used + n))) >>= λ b₂.
          ok (some (record { cap = cap; used = u32 (dst.used + n); bytes = b₂ })))
  copied_lem dst b src n cap backed fits small long same =
      let part = take n src in
      let used = u32 (dst.used + n) in
      let sized : length part ≡ n = omega (arith, length-take n src) in
      let exact : used ≡ dst.used + length part = omega (arith, sized) in
      let room : dst.used + length part ≤ length b = omega (arith, sized) in
      let b₁ = overwrite b dst.used part in
      let len₁ : length b₁ ≡ length b = length-overwrite b part dst.used room in
      let zeros = replicate {A = ℕ} (u32 (cap + 2 ^ 32 - used)) 0 in
      let filled : used + length zeros ≡ cap =
        omega (arith, length-replicate {A = ℕ} (u32 (cap + 2 ^ 32 - used)) 0) in
      let room₁ : used + length zeros ≤ length b₁ = omega (arith, filled, len₁) in
      rw
        (
          read_block_lem src 0 n (omega arith),
          write_block_lem b part dst.used room,
          write_block_lem b₁ zeros used room₁,
        )
        (
          record { cap = cap; used = used; bytes = overwrite b₁ used zeros },
          refl,
          record {
            fits = omega arith;
            backed = omega (arith, len₁, length-overwrite b₁ zeros used room₁);
            small = small;
          },
          take-overwrite_before b₁ zeros used used (omega arith) (omega (arith, len₁))
              ∙ take-overwrite_end b part dst.used used exact room
              ∙ ap (λ t. t ++ part) same,
        )

  append_bytes-Stores :
      (dst : Cstr) (src : List ℕ) (n : ℕ)
      → IsValid dst
      → dst.cap + overhead + n ≤ max_size
      → n ≤ length src
      → Stores (text dst ++ take n src) (append_bytes a dst src n)
  unfolding append_bytes
  append_bytes-Stores dst src n v h long =
      let total = u32 (total_used dst + n) in
      let exact : total ≡ dst.used + n + 9 = omega (arith, v.fits) in
      let new_cap = cal_fit_cap (u32 (total_size dst)) total in
      let b =
        cal_fit_cap_bounds (u32 (total_size dst)) total (omega (arith, v.small))
          (omega (arith, v.fits, exact)) in
      let passes : (ltb max_size (u32 (total_size dst + n)) || ltb new_cap min_size) ≡ false =
        ground (arith, b) in
      elim (Bool-cases (ltb dst.cap (new_cap - overhead))) [
        | inl grows ↦
            let (bytes, e) = m.1 dst.bytes new_cap (omega (arith, b)) in
            let size = a.realloc_size dst.bytes bytes new_cap e in
            rw (passes, grows, e)
              (copied_lem dst bytes src n (new_cap - overhead) (omega (arith, b, size))
                (omega (arith, b, exact)) (omega (arith, b)) long
                (a.realloc_keeps dst.bytes bytes new_cap dst.used e
                  (omega (arith, v.fits, v.backed)) (omega (arith, b, exact))))
        | inr keeps ↦
            let not_more : new_cap - overhead ≤ dst.cap = ground arith in
            rw (passes, keeps)
              (copied_lem dst dst.bytes src n (new_cap - overhead)
                (omega (arith, not_more, v.backed)) (omega (arith, b, exact)) (omega (arith, b))
                long refl)
      ]

  -- With memory, for valid strings where the whole size of the destination and the length of the
  -- source together are within the maximal size, `cstr_append` gives a valid string with the text of
  -- the destination and then that of the source.
  pub cstr_append-Stores :
      (dst str : Cstr)
      → IsValid dst
      → IsValid str
      → dst.cap + overhead + str.used ≤ max_size
      → Stores (text dst ++ text str) (cstr_append a (some dst) (some str))
  unfolding cstr_append
  cstr_append-Stores dst str v w h = elim (Bool-cases (str.used == 0)) [
    | inl empty ↦ rw empty (
      dst,
      refl,
      v,
      sym (
          ap (λ (k : ℕ). text dst ++ take k str.bytes) ((==_iff str.used 0).0 empty)
          ∙ append-nil (text dst)),
    )
    | inr more ↦
        rw more (append_bytes-Stores dst str.bytes str.used v h (omega (arith, w.fits, w.backed)))
  ]

  -- With memory, for a valid string and a text whose sizes together are within the maximal size,
  -- `cstr_append_str` gives a valid string with the text of the destination and then the other text.
  pub cstr_append_str-Stores :
      (dst : Cstr) (str : List ℕ)
      → IsValid dst
      → dst.cap + overhead + length str ≤ max_size
      → Stores (text dst ++ str) (cstr_append_str a (some dst) (some str))
  unfolding cstr_append_str
  cstr_append_str-Stores dst str v h =
      let wide : u32 (length str) ≡ length str = omega arith in
      let whole : text dst ++ take (u32 (length str)) str ≡ text dst ++ str =
        ap (λ t. text dst ++ t) (ap (λ (k : ℕ). take k str) wide ∙ take_whole str) in
      subst (λ s. Stores s (cstr_append_str a (some dst) (some str))) whole
        (elim (Bool-cases (u32 (length str) == 0)) [
          | inl empty ↦ rw empty (
            dst,
            refl,
            v,
            sym (
                ap (λ (k : ℕ). text dst ++ take k str) ((==_iff (u32 (length str)) 0).0 empty)
                ∙ append-nil (text dst)),
          )
          | inr more ↦
              rw more (append_bytes-Stores dst str (u32 (length str)) v (omega arith) (omega arith))
        ])
