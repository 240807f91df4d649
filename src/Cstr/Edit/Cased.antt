-- ===== src/Cstr/Edit/Cased.antt =====
-- What `cstr_tolower` and `cstr_toupper` of c_utils/cstr.c leave.
use tiny_utils.Base.{
  ℕ, ◌+◌, ◌<◌, ◌≡◌, refl, sym, ap, ◌∙◌, some, List, [], ◌∷◌, ◌++◌, map, length, take, drop, set, ok,
  Fault, ◌>>=◌, from_option, load, arith, length-append, length-take, length-drop, take-append-drop,
  take-append, get_elem?-append, length-map, store_lem,
}
use mathlib.Core.List.{append_assoc}
use mathlib.Core.Path.{ap₂}
use tiny_utils.Cstr.Memory.{Cstr, IsValid, text}
use tiny_utils.Cstr.Edit.{to_lower, to_upper, case_loop, cstr_tolower, cstr_toupper}
use tiny_utils.Cstr.Trim.Trimmed.{Leaves}

set-append : (xs ys : List ℕ) (y v : ℕ) → set (xs ++ (y ∷ ys)) (length xs) v ≡ xs ++ (v ∷ ys)
set-append [] ys y v = refl
set-append (x ∷ xs) ys y v = ap (λ t. x ∷ t) (set-append xs ys y v)

case_loop-map :
    (f : ℕ → ℕ) (pre mid post : List ℕ)
    → case_loop f (length mid) (pre ++ (mid ++ post)) (length pre) ≡ ok (pre ++ (map f mid ++ post))
unfolding case_loop
case_loop-map f pre [] post = refl
case_loop-map f pre (b ∷ mid) post =
    let here : load (pre ++ (b ∷ (mid ++ post))) (length pre) ≡ ok b =
      ap (λ o. from_option o Fault.out_of_bounds) (get_elem?-append pre (mid ++ post) b) in
    let inside : length pre < length (pre ++ (b ∷ (mid ++ post))) =
      omega (arith, length-append pre (b ∷ (mid ++ post))) in
    let grown : length (pre ++ (f b ∷ [])) ≡ length pre + 1 =
      omega (arith, length-append pre (f b ∷ [])) in
    rw
      (
        here,
        store_lem (pre ++ (b ∷ (mid ++ post))) (length pre) (f b) inside,
        set-append pre (mid ++ post) b (f b),
        sym (append_assoc pre (f b ∷ []) (mid ++ post)),
        sym grown,
        case_loop-map f (pre ++ (f b ∷ [])) mid post,
      )
      (ap ok (append_assoc pre (f b ∷ []) (map f mid ++ post)))

changed_lem :
    (f : ℕ → ℕ) (c : Cstr)
    → IsValid c
    → Leaves (map f (text c)) (case_loop f c.used c.bytes 0 >>= λ b. ok (record c { bytes = b }))
changed_lem f c v =
    let size : length (text c) ≡ c.used =
      omega (arith, length-take c.used c.bytes, v.fits, v.backed) in
    let done : case_loop f c.used c.bytes 0 ≡ ok (map f (text c) ++ drop c.used c.bytes) =
      ap₂ (λ (k : ℕ) (bs : List ℕ). case_loop f k bs 0) (sym size)
        (sym (take-append-drop c.used c.bytes))
      ∙ case_loop-map f [] (text c) (drop c.used c.bytes) in
    let size' : length (map f (text c)) ≡ c.used = length-map (text c) f ∙ size in
    rw done (
      record c { bytes = map f (text c) ++ drop c.used c.bytes },
      refl,
      record {
        fits = v.fits;
        backed = omega (
          arith,
          length-append (map f (text c)) (drop c.used c.bytes),
          size',
          length-drop c.used c.bytes,
          v.fits,
          v.backed,
        );
        small = v.small;
      },
      ap (λ (k : ℕ). take k (map f (text c) ++ drop c.used c.bytes)) (sym size')
          ∙ take-append (map f (text c)) (drop c.used c.bytes),
    )

-- On a valid string, `cstr_tolower` leaves a valid string whose text has small letters in the place of
-- capital ones, and `cstr_toupper` one whose text has capital letters in the place of small ones.
pub change_case_lem :
    (c : Cstr)
    → IsValid c
    → Leaves (map to_lower (text c)) (cstr_tolower (some c))
      × Leaves (map to_upper (text c)) (cstr_toupper (some c))
unfolding cstr_tolower cstr_toupper
change_case_lem c v = (changed_lem to_lower c v, changed_lem to_upper c v)
