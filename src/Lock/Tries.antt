-- ===== src/Lock/Tries.antt =====
-- When `try_lock` gets the lock.
use tiny_utils.Base.{
  ℕ, zero, suc, ◌≡◌, ◌≤◌, ◌<◌, ◌⊎◌, inl, inr, refl, sym, ap, ◌∙◌, Bool, true, false, arith,
  Bool-cases, if◌then◌else◌, ◌==◌, ℕ_discrete, ==_iff,
}
use tiny_utils.Lock.{try_loop, try_lock}

-- What the try with `left` tries left reads, of `times`: after the first one the flag was set.
abbrev pub seen : (ℕ → Bool → Bool) → ℕ → Bool → ℕ → Bool
seen others times flag left = others left (if left == times then flag else true)

-- The loop took the flag at the first try that read it clear, or no try did.
abbrev pub Tried : (ℕ → Bool → Bool) → ℕ → Bool → Bool × Bool → Type 0
Tried others times flag r =
    ((r ≡ (true, true))
      × ((left : ℕ) × (1 ≤ left)
          × (left ≤ times)
          × (seen others times flag left ≡ false)
          × ((k : ℕ) → left < k → k ≤ times → seen others times flag k ≡ true)))
    ⊎ ((r.1 ≡ false) × ((k : ℕ) → 1 ≤ k → k ≤ times → seen others times flag k ≡ true))

later_seen :
    (others : ℕ → Bool → Bool) (times : ℕ) (flag : Bool) (k : ℕ)
    → k ≤ times
    → seen others times true k ≡ seen others (suc times) flag k
later_seen others times flag k h = elim (Bool-cases (k == times)) [
  | inl last ↦ rw (last, other) refl
  | inr before ↦ rw (before, other) refl
]
  where
    other : (k == suc times) ≡ false
    other = ground arith

at_first :
    (others : ℕ → Bool → Bool) (times : ℕ) (flag : Bool)
    → seen others (suc times) flag (suc times) ≡ others (suc times) flag
at_first others times flag = rw ((==_iff (suc times) (suc times)).1 refl) refl

try_loop_lem :
    (others : ℕ → Bool → Bool) (times : ℕ) (flag : Bool)
    → Tried others times flag (try_loop times others flag)
unfolding try_loop
try_loop_lem others zero flag = inr (refl, λ k low high. absurd (omega arith))
try_loop_lem others (suc times) flag = elim (Bool-cases (others (suc times) flag)) [
  | inr clear ↦ rw clear (
      inl (
        refl,
        (
          suc times,
          omega arith,
          omega arith,
          at_first others times flag ∙ clear,
          λ k low high. absurd (omega arith),
        ),
      ))
  | inl held ↦
      let all_later : (k : ℕ)
          → (k ≤ times → seen others times true k ≡ true)
          → k ≤ suc times
          → seen others (suc times) flag k ≡ true =
        λ k later high. elim (ℕ_discrete k (suc times)) [
          | yes now ↦ ap (seen others (suc times) flag) now ∙ at_first others times flag ∙ held
          | no before ↦ sym (later_seen others times flag k (omega arith)) ∙ later (omega arith)
        ] in
      elim (try_loop_lem others times true) [
        | inl (e, (left, low, high, clear, first)) ↦ rw held (
            inl (
              e,
              (
                left,
                low,
                omega arith,
                sym (later_seen others times flag left high) ∙ clear,
                λ k after inside. all_later k (first k after) inside,
              ),
            ))
        | inr (e, all) ↦ rw held (inr (e, λ k low inside. all_later k (all k low) inside))
      ]
]

-- `try_lock` returns true and has set the flag exactly when one of its 100 tries reads the flag clear,
-- whatever the other threads do to it between the tries, and takes it at the first such try; else it returns
-- false after 100 tries that read it set.
try_lock_lem :
    (others : ℕ → Bool → Bool) (flag : Bool) → Tried others 100 flag (try_lock others flag)
unfolding try_lock
try_lock_lem others flag = try_loop_lem others 100 flag
