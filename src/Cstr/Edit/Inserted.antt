-- ===== src/Cstr/Edit/Inserted.antt =====
-- What `cstr_insert` and `cstr_insert_str` of c_utils/cstr.c leave, when the allocator has memory.
use tiny_utils.Base.{
  ℕ, ◌+◌, ◌-◌, ◌^◌, ◌≤◌, ◌<◌, ◌≡◌, inl, inr, min, refl, sym, ap, ◌∙◌, subst, false, some, List,
  ◌++◌, length, take, drop, ok, ltb, ◌==◌, if◌then◌else◌, arith, length-take, length-drop,
  take-append, take-drop_of_take, drop-take, take-take, Bool-cases,
}
use mathlib.Core.Path.{ap₂}
use tiny_utils.Cstr.Capacity.{u32, min_size, max_size, overhead, cal_fit_cap}
use tiny_utils.Cstr.Capacity.Laws.{cal_fit_cap_bounds}
use tiny_utils.Cstr.Memory.{Cstr, IsValid, text, total_size}
use tiny_utils.Cstr.Block.{
  Allocator, overwrite, read_block_lem, write_block_lem, length-overwrite, take-overwrite_before,
  take-overwrite_after, drop-overwrite,
}
use tiny_utils.Cstr.Edit.{reserve, insert_bytes, insert_len, cstr_insert}
use tiny_utils.Cstr.Stored.{Stores, HasMemory, text-set_end}

-- `xs` with `part` put in at `pos`.
abbrev pub inserted : List ℕ → ℕ → List ℕ → List ℕ
inserted xs pos part = take pos xs ++ (part ++ drop pos xs)

-- A string with the same text, and room for `n` bytes.
record Reserved (dst : Cstr) (n : ℕ) (c : Cstr) : Type 0 where
  backed : c.cap + 1 ≤ length c.bytes
  holds : n ≤ c.cap
  limited : c.cap + overhead ≤ max_size
  kept : take dst.used c.bytes ≡ text dst

-- The two writes of an insertion.
moved_text :
    (bytes part : List ℕ) (used pos len n total : ℕ)
    → used + len ≤ length bytes
    → pos ≤ used
    → n ≡ used - pos
    → length part ≡ len
    → total ≡ used + len
    → take total (overwrite (overwrite bytes (pos + len) (take n (drop pos bytes))) pos part)
      ≡ inserted (take used bytes) pos part
moved_text bytes part used pos len n total room inside behind sized exact =
    let tail = take n (drop pos bytes) in
    let tail_size : length tail ≡ n =
      omega (arith, length-take n (drop pos bytes), length-drop pos bytes) in
    let room₁ : pos + len + length tail ≤ length bytes = omega (arith, tail_size) in
    let b₁ = overwrite bytes (pos + len) tail in
    let len₁ : length b₁ ≡ length bytes = length-overwrite bytes tail (pos + len) room₁ in
    let after : pos + length part ≡ pos + len = omega (arith, sized) in
    let front : take pos b₁ ≡ take pos (take used bytes) =
      take-overwrite_before bytes tail (pos + len) pos (omega arith) (omega (arith, room₁))
      ∙ sym (take-take pos used bytes inside) in
    let rest : take n (drop (pos + length part) b₁) ≡ drop pos (take used bytes) =
      ap (λ (j : ℕ). take n (drop j b₁)) after
      ∙ ap (λ (t : List ℕ). take n t) (drop-overwrite bytes tail (pos + len) (omega (arith, room₁)))
      ∙ ap (λ (j : ℕ). take j (tail ++ drop (pos + len + length tail) bytes)) (sym tail_size)
      ∙ take-append tail (drop (pos + len + length tail) bytes)
      ∙ ap (λ (j : ℕ). take j (drop pos bytes)) behind
      ∙ drop-take pos used bytes in
    take-overwrite_after b₁ part pos n total (omega (arith, sized, behind)) (omega (arith, len₁))
    ∙ ap₂ (λ s t. s ++ (part ++ t)) front rest

module _ (a : Allocator) (m : HasMemory a) where
  reserve-Reserved :
      (dst : Cstr) (n : ℕ)
      → IsValid dst
      → dst.used ≤ n
      → n + overhead ≤ max_size
      → (c : Cstr) × (reserve a dst n ≡ ok (some c)) × Reserved dst n c
  unfolding reserve
  reserve-Reserved dst n v low h = elim (Bool-cases (ltb dst.cap n)) [
    | inr fits ↦ rw fits (
      dst,
      refl,
      record { backed = v.backed; holds = ground arith; limited = v.small; kept = refl },
    )
    | inl grows ↦
        let new_cap = cal_fit_cap (u32 (total_size dst)) (u32 (n + overhead)) in
        let b =
          cal_fit_cap_bounds (u32 (total_size dst)) (u32 (n + overhead)) (omega (arith, v.small))
            (omega arith) in
        let high : (ltb new_cap min_size) ≡ false = ground (arith, b) in
        let moved : (new_cap == dst.cap) ≡ false = ground (arith, b) in
        let (bytes, e) = m.1 dst.bytes new_cap (omega (arith, b)) in
        let size = a.realloc_size dst.bytes bytes new_cap e in
        rw (grows, high, moved, e)
          (
            record { cap = new_cap - overhead; used = dst.used; bytes = bytes },
            refl,
            record {
              backed = omega (arith, b, size);
              holds = omega (arith, b);
              limited = omega (arith, b);
              kept =
                  a.realloc_keeps dst.bytes bytes new_cap dst.used e
                    (omega (arith, v.fits, v.backed)) (omega (arith, b));
            },
          )
  ]

  insert_bytes-Stores :
      (dst : Cstr) (pos : ℕ) (src : List ℕ) (begin len : ℕ)
      → IsValid dst
      → pos ≤ dst.used
      → begin + len ≤ length src
      → dst.used + len + overhead ≤ max_size
      → Stores
          (inserted (text dst) pos (take len (drop begin src)))
          (insert_bytes a dst pos src begin len)
  unfolding insert_bytes
  insert_bytes-Stores dst pos src begin len v inside long h =
      let total = u32 (dst.used + len) in
      let exact : total ≡ dst.used + len = omega arith in
      let (c, e, r) = reserve-Reserved dst total v (omega arith) (omega arith) in
      let n = u32 (dst.used + 2 ^ 32 - pos) in
      let behind : n ≡ dst.used - pos = omega (arith, v.fits, v.small) in
      let tail = take n (drop pos c.bytes) in
      let tail_size : length tail ≡ n =
        omega
          (arith, length-take n (drop pos c.bytes), length-drop pos c.bytes, r.backed, r.holds) in
      let room₁ : pos + len + length tail ≤ length c.bytes =
        omega (arith, tail_size, r.backed, r.holds) in
      let b₁ = overwrite c.bytes (pos + len) tail in
      let len₁ : length b₁ ≡ length c.bytes = length-overwrite c.bytes tail (pos + len) room₁ in
      let part = take len (drop begin src) in
      let part_size : length part ≡ len =
        omega (arith, length-take len (drop begin src), length-drop begin src) in
      let room₂ : pos + length part ≤ length b₁ = omega (arith, part_size, len₁, room₁) in
      rw
        (
          e,
          read_block_lem c.bytes pos n (omega (arith, r.backed, r.holds)),
          write_block_lem c.bytes tail (pos + len) room₁,
          read_block_lem src begin len long,
          write_block_lem b₁ part pos room₂,
        )
        (text-set_end c (overwrite b₁ pos part) (inserted (text dst) pos part) total r.holds
          (omega (arith, length-overwrite b₁ part pos room₂, len₁, r.backed)) r.limited
          (moved_text c.bytes part dst.used pos len n total (omega (arith, r.backed, r.holds))
              inside behind part_size exact
            ∙ ap (λ t. inserted t pos part) r.kept))

  -- With memory, for valid strings whose lengths together fit the maximal size, a position in the
  -- destination, a beginning inside the source and a length below 2^31, `cstr_insert` gives a valid
  -- string with a part of the source put in at that position: `len` bytes, all of them if `len` is 0,
  -- and not more than the source has from the beginning on.
  pub cstr_insert-Stores :
      (dst istr : Cstr) (pos begin len : ℕ)
      → IsValid dst
      → IsValid istr
      → pos ≤ dst.used
      → begin < istr.used
      → len < 2 ^ 31
      → dst.used + istr.used + overhead ≤ max_size
      → let n = (if len == 0 then istr.used else len) in
        Stores
          (inserted (text dst) pos (take n (drop begin (text istr))))
          (cstr_insert a (some dst) pos (some istr) begin len)
  unfolding cstr_insert insert_len
  cstr_insert-Stores dst istr pos begin len v w inside from small h =
      let n = if len == 0 then istr.used else len in
      let n' = insert_len a istr.used begin len in
      let cut : n' ≡ min n (istr.used - begin) = ground (arith, w.fits, w.small) in
      let in_range : ltb (u32 (istr.used + 2 ^ 32 - 1)) begin ≡ false =
        ground (arith, w.fits, w.small) in
      subst
        (λ t.
          Stores (inserted (text dst) pos t) (cstr_insert a (some dst) pos (some istr) begin len))
        (ap (λ (k : ℕ). take k (drop begin istr.bytes)) cut
          ∙ take-drop_of_take n begin istr.used istr.bytes)
        (rw in_range (
          insert_bytes-Stores dst pos istr.bytes begin n' v inside
            (omega (arith, cut, w.fits, w.backed)) (omega (arith, cut))))
