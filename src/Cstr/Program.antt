-- ===== src/Cstr/Program.antt =====
-- Programs of edits on one string of c_utils/cstr.c, against the same edits on its text.
use tiny_utils.Base.{
  ℕ, ◌+◌, ◌≤◌, ◌<◌, ◌≡◌, ◌⊎◌, inl, inr, refl, subst, true, false, Option, none, some, List, [], ◌∷◌,
  ◌++◌, map, length, replicate, Outcome, ok, ◌>>=◌, ltb, ◌==◌, arith, length-replicate, dec_lt,
}
use mathlib.Core.List.{reverse}
use tiny_utils.Cstr.Capacity.{u32, max_size, overhead}
use tiny_utils.Cstr.Memory.{Cstr, IsValid, text, total_size}
use tiny_utils.Cstr.Block.{Allocator, overwrite, write_block_lem, length-overwrite}
use tiny_utils.Cstr.Assign.{cstr_assign_str, cstr_append_str, append_bytes}
use tiny_utils.Cstr.Edit.{to_lower, to_upper, cstr_tolower, cstr_toupper, cstr_reverse, cstr_clear}
use tiny_utils.Cstr.Stored.{Stores, HasMemory, cstr_assign_str-Stores}
use tiny_utils.Cstr.Stored.Appended.{cstr_append_str-Stores}
use tiny_utils.Cstr.Trim.Trimmed.{Leaves}
use tiny_utils.Cstr.Edit.Cased.{change_case_lem}
use tiny_utils.Cstr.Edit.Reversed.{cstr_reverse-Leaves}

pub data Edit : Type 0 where
  assign append : List ℕ → Edit
  lower upper turn empty : Edit

-- The edit on a text.
abbrev pub on_text : Edit → List ℕ → List ℕ
on_text (assign s) t = s
on_text (append s) t = t ++ s
on_text lower t = map to_lower t
on_text upper t = map to_upper t
on_text turn t = reverse t
on_text empty t = []

abbrev pub run_on_text : List Edit → List ℕ → List ℕ
run_on_text [] t = t
run_on_text (e ∷ es) t = run_on_text es (on_text e t)

abbrev pub in_place : Outcome Cstr → Outcome (Option Cstr)
in_place r = r >>= λ c. ok (some c)

cstr_clear-Leaves : (c : Cstr) → IsValid c → Leaves [] (cstr_clear (some c))
unfolding cstr_clear
cstr_clear-Leaves c v =
    let zeros = replicate {A = ℕ} c.cap 0 in
    let room : 0 + length zeros ≤ length c.bytes =
      omega (arith, length-replicate {A = ℕ} c.cap 0, v.backed) in
    rw (write_block_lem c.bytes zeros 0 room) (
      record { cap = c.cap; used = 0; bytes = overwrite c.bytes 0 zeros },
      refl,
      record {
        fits = omega arith;
        backed = omega (arith, length-overwrite c.bytes zeros 0 room, v.backed);
        small = v.small;
      },
      refl,
    )

in_place-Stores : (s : List ℕ) (r : Outcome Cstr) → Leaves s r → Stores s (in_place r)
in_place-Stores s r (c, e, v, t) = (c, rw e refl, v, t)

module _ (a : Allocator) where
  -- The edit on a string.
  unfoldable pub apply : Edit → Cstr → Outcome (Option Cstr)
  apply (assign s) c = cstr_assign_str a (some c) (some s)
  apply (append s) c = cstr_append_str a (some c) (some s)
  apply lower c = in_place (cstr_tolower (some c))
  apply upper c = in_place (cstr_toupper (some c))
  apply turn c = in_place (cstr_reverse (some c))
  apply empty c = in_place (cstr_clear (some c))

  -- The edits one after the other, up to one that returns a null pointer.
  unfoldable pub run : List Edit → Cstr → Outcome (Option Cstr)
  run [] c = ok (some c)
  run (e ∷ es) c = do p ← apply e c; elim p [ none ↦ ok none | some d ↦ run es d ]

-- A text that is assigned or appended fits in a string of the maximal size.
abbrev pub Fits : Edit → Type 0
Fits (assign s) = length s + overhead ≤ max_size
Fits (append s) = length s + overhead ≤ max_size
Fits e = Unit

abbrev pub AllFit : List Edit → Type 0
AllFit [] = Unit
AllFit (e ∷ es) = Fits e × AllFit es

-- The edit appends more than the maximal size allows, whatever part of the capacity is used.
abbrev pub TooLarge : Edit → Cstr → Type 0
TooLarge (append s) c = max_size < c.cap + overhead + length s
TooLarge e c = ⊥

-- One of the edits is too large for the string that the edits before it have left.
pub data Refused (a : Allocator) : List Edit → Cstr → Type 0 where
  at_once : {e : Edit} {es : List Edit} {c : Cstr} → TooLarge e c → Refused a (e ∷ es) c
  after_one :
      {e : Edit} {es : List Edit} {c : Cstr} (d : Cstr)
      → apply a e c ≡ ok (some d)
      → Refused a es d
      → Refused a (e ∷ es) c

module _ (a : Allocator) (m : HasMemory a) where
  append_refused :
      (c : Cstr) (s : List ℕ)
      → IsValid c
      → length s + overhead ≤ max_size
      → max_size < c.cap + overhead + length s
      → cstr_append_str a (some c) (some s) ≡ ok none
  unfolding cstr_append_str append_bytes
  append_refused c s v fits large =
      let some_bytes : (u32 (length s) == 0) ≡ false = ground (arith, v.small) in
      let over : ltb max_size (u32 (total_size c + u32 (length s))) ≡ true =
        ground (arith, v.small) in
      rw (some_bytes, over) refl

  apply_lem :
      (e : Edit) (c : Cstr)
      → IsValid c
      → Fits e
      → Stores (on_text e (text c)) (apply a e c) ⊎ ((apply a e c ≡ ok none) × TooLarge e c)
  unfolding apply
  apply_lem (assign s) c v f = inl (cstr_assign_str-Stores a m c s v f)
  apply_lem (append s) c v f = elim (dec_lt max_size (c.cap + overhead + length s)) [
    | yes large ↦ inr (append_refused c s v f large, large)
    | no room ↦ inl (cstr_append_str-Stores a m c s v (omega arith))
  ]
  apply_lem lower c v f = inl (in_place-Stores _ _ (change_case_lem c v).0)
  apply_lem upper c v f = inl (in_place-Stores _ _ (change_case_lem c v).1)
  apply_lem turn c v f = inl (in_place-Stores _ _ (cstr_reverse-Leaves c v))
  apply_lem empty c v f = inl (in_place-Stores _ _ (cstr_clear-Leaves c v))

  -- With memory, for a valid string and texts that each fit the maximal size, a program of edits ends
  -- without a fault. Either it leaves a valid string with the text that the same edits make of the text, or
  -- it returns a null pointer, and then an append went beyond the maximal size.
  pub run_refines :
      (es : List Edit) (c : Cstr)
      → IsValid c
      → AllFit es
      → Stores (run_on_text es (text c)) (run a es c) ⊎ ((run a es c ≡ ok none) × Refused a es c)
  unfolding run
  run_refines [] c v f = inl (c, refl, v, refl)
  run_refines (e ∷ es) c v f = elim (apply_lem e c v f.0) [
    | inr (null, large) ↦ inr (rw null refl, at_once large)
    | inl (d, done, w, t) ↦ elim (run_refines es d w f.1) [
      | inl stored ↦
          inl (rw done (subst (λ (s : List ℕ). Stores (run_on_text es s) (run a es d)) t stored))
      | inr (null, refused) ↦ inr (rw done null, after_one d done refused)
    ]
  ]
