-- ===== src/Cstr/Stored/RoundTrip.antt =====
-- `cstr_append` and then `cstr_sub_cstr` of c_utils/cstr.c.
use tiny_utils.Base.{
  ℕ, ◌+◌, ◌≤◌, ◌<◌, ◌≡◌, ◌⊎◌, inl, inr, sym, ap, ◌∙◌, subst, some, List, ◌++◌, length, take, drop,
  ok, arith, length-append, length-take, take-append, drop-append, ℕ_discrete, take_whole,
}
use tiny_utils.Cstr.Capacity.{max_size, overhead}
use tiny_utils.Cstr.Memory.{Cstr, IsValid, text}
use tiny_utils.Cstr.Block.{Allocator}
use tiny_utils.Cstr.Assign.{cstr_append, cstr_sub_cstr}
use tiny_utils.Cstr.Stored.{Stores, HasMemory, cstr_sub_cstr-Stores}
use tiny_utils.Cstr.Stored.Appended.{cstr_append-Stores}

-- The part of the joined text that starts where the second one does.
part_behind :
    (n m : ℕ) (xs ys : List ℕ) → length xs ≡ n → length ys ≡ m → take m (drop n (xs ++ ys)) ≡ ys
part_behind n m xs ys e f =
    ap (λ (k : ℕ). take m (drop k (xs ++ ys))) (sym e)
    ∙ ap (take m) (drop-append xs ys)
    ∙ ap (λ (k : ℕ). take k ys) (sym f)
    ∙ take_whole ys

module _ (a : Allocator) (m : HasMemory a) where
  -- With memory, for valid strings where the whole size of the destination and the length of the source
  -- together are within the maximal size, and a source that is not empty: `cstr_append` gives a string `c`, and
  -- `cstr_sub_cstr` gives back the appended text as the part of `c` behind the old text, and the old text, if
  -- not empty, as the part before it.
  pub cstr_append-cstr_sub_cstr :
      (dst str substr : Cstr)
      → IsValid dst
      → IsValid str
      → IsValid substr
      → dst.cap + overhead + str.used ≤ max_size
      → 0 < str.used
      → (c : Cstr) × (cstr_append a (some dst) (some str) ≡ ok (some c))
        × Stores (text str) (cstr_sub_cstr a (some substr) (some c) dst.used str.used)
        × ((dst.used ≡ 0) ⊎ Stores (text dst) (cstr_sub_cstr a (some substr) (some c) 0 dst.used))
  cstr_append-cstr_sub_cstr dst str substr v w s small more =
      let (c, e, valid, joined) = cstr_append-Stores a m dst str v w small in
      let first : length (text dst) ≡ dst.used =
        omega (arith, length-take dst.used dst.bytes, v.fits, v.backed) in
      let second : length (text str) ≡ str.used =
        omega (arith, length-take str.used str.bytes, w.fits, w.backed) in
      let whole : c.used ≡ dst.used + str.used = omega (
        arith,
        ap (length {A = ℕ}) joined,
        length-append (text dst) (text str),
        first,
        second,
        length-take c.used c.bytes,
        valid.fits,
        valid.backed,
      ) in
      (
        c,
        e,
        subst (λ (t : List ℕ). Stores t (cstr_sub_cstr a (some substr) (some c) dst.used str.used))
            (ap (λ (t : List ℕ). take str.used (drop dst.used t)) joined
              ∙ part_behind dst.used str.used (text dst) (text str) first second)
            (cstr_sub_cstr-Stores a m substr c dst.used str.used s valid (omega arith) more
              (omega arith)),
        elim (ℕ_discrete dst.used 0) [
          | yes empty ↦ inl empty
          | no some_left ↦ inr (
              subst (λ (t : List ℕ). Stores t (cstr_sub_cstr a (some substr) (some c) 0 dst.used))
                (ap (λ (t : List ℕ). take dst.used t) joined
                  ∙ ap (λ (k : ℕ). take k (text dst ++ text str)) (sym first)
                  ∙ take-append (text dst) (text str))
                (cstr_sub_cstr-Stores a m substr c 0 dst.used s valid (omega arith) (omega arith)
                  (omega arith)))
        ],
      )
