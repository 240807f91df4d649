-- ===== src/Lock/Counter/Invariant.antt =====
-- What holds in every state that the threads of cpp_utils/lock.cpp reach.
use tiny_utils.Base.{
  total-moved_at, other_thread, total, total-const, ℕ, suc, ◌+◌, ◌-◌, ◌*◌, ◌≤◌, ◌≡◌, inl, inr, refl,
  sym, ap, ◌∙◌, subst, arith, ◌==◌, Bool-cases, ==_iff,
}
use tiny_utils.Lock.Api.{ZLock, IsLock}
use tiny_utils.Lock.Counter.{testing, System, Step, act, begun, Reach, start, later}
use tiny_utils.Lock.Counter.Fits.{
  written, todo, Fits, Owned, Act-Fits, Act-Fits_other, Act-owner, Act-written, Act-todo,
}

pub record Inv {z : ZLock} (l : IsLock z) (n rounds j : ℕ) (s : System z) : Type 0 where
  pub fits : (i : ℕ) → Fits rounds (l.owner s.shared) s.count i (s.threads i)
  pub owned : (i : ℕ) → Owned (l.owner s.shared) i (s.threads i)
  pub counted : s.count ≡ total (λ i. written rounds (s.threads i)) n
  pub outside : (i : ℕ) → n ≤ i → s.threads i ≡ testing 0
  pub left : j + total (λ i. todo rounds (s.threads i)) n ≡ n * (5 * rounds + 1)

begun-Inv : {z : ZLock} (l : IsLock z) (n rounds : ℕ) → Inv l n rounds 0 (begun z)
begun-Inv l n rounds = record {
  fits = λ i. record { owns = λ e. cc; exact = refl; bounded = omega arith };
  owned = λ i e. cc (e, l.begins);
  counted = omega (arith, total-const 0 n);
  left = omega (arith, all_left);
  outside = λ i h. refl;
}
  where
    no_less : rounds - 0 ≡ rounds
    no_less = omega arith

    all_left : total (λ i. 5 * (rounds - 0) + 1) n ≡ n * (5 * rounds + 1)
    all_left = total-const (5 * (rounds - 0) + 1) n ∙ ap (λ (x : ℕ). n * (5 * x + 1)) no_less

Step-Inv :
    {z : ZLock} (l : IsLock z) {n rounds j : ℕ} {s t : System z}
    → Step z n rounds s t
    → Inv l n rounds j s
    → Inv l n rounds (suc j) t
Step-Inv l {n} {rounds} {j} {s} (act i {shared} {count} {p} h a) v = record {
  fits = λ k. elim (Bool-cases (i == k)) [
    | inl same ↦ rw same (
        subst (λ (m : ℕ). Fits rounds (l.owner shared) count m p) ((==_iff i k).0 same)
          (Act-Fits l a (v.owned i) (v.fits i)))
    | inr other ↦ rw other (
        Act-Fits_other l k (s.threads k) (λ e. cc (other, (==_iff i k).1 (sym e))) a (v.owned i)
          (v.fits i) (v.fits k))
  ];
  owned = λ k e. elim (Act-owner l k a (v.owned i) (v.fits i) e) [
    | inl (same, held) ↦ rw ((==_iff i k).1 (sym same)) held
    | inr (had, other) ↦ rw (other_thread i k other) (v.owned k had)
  ];
  counted = omega (
    arith,
    v.counted,
    total-moved_at (written rounds) s.threads i n p h,
    Act-written l a (v.fits i),
  );
  outside = λ k far. rw (other_thread i k (λ e. omega (arith, e))) (v.outside k far);
  left =
      omega
        (arith, v.left, total-moved_at (todo rounds) s.threads i n p h, Act-todo l a (v.fits i));
}

pub Reach-Inv :
    {z : ZLock} (l : IsLock z) {n rounds j : ℕ} {s : System z}
    → Reach z n rounds j s
    → Inv l n rounds j s
Reach-Inv l {n} {rounds} start = begun-Inv l n rounds
Reach-Inv l (later r m) = Step-Inv l m (Reach-Inv l r)
