-- ===== src/Singleton/Once.antt =====
-- cpp_utils/singleton.cpp, the class template Singleton before C++11, on `pthread_once`; and both versions in
-- calls one after the other.
use tiny_utils.Base.{
  ℕ, zero, suc, ◌<◌, ◌≡◌, refl, sym, ap, ◌∙◌, Bool, false, Option, none, some, List, [], ◌∷◌, ◌++◌,
  length, replicate, Outcome, ok, ◌>>=◌, arith,
}
use tiny_utils.Singleton.{Singleton, fresh, test_and_set, make, clear, spin, instance_of}

-- What the code relies on: the first call with a control runs the function, and no later one does.
pub record PthreadOnce (S : Type 0) : Type 1 where
  pub Control : Type 0
  pub once_init : Control
  pub Done : Control → Type 0
  pub call : Control → (S → S) → S → Control × S
  pub first : (f : S → S) (s : S) → (call once_init f s).1 ≡ f s
  pub first-Done : (f : S → S) (s : S) → Done (call once_init f s).0
  pub again : (c : Control) (f : S → S) (s : S) → Done c → (call c f s).1 ≡ s
  pub again-Done : (c : Control) (f : S → S) (s : S) → Done c → Done (call c f s).0

-- `instance_`, and the objects that have been made.
pub record Instances : Type 0 where
  pub instance_ : Option ℕ
  pub objects : List ℕ

abbrev pub no_instance : Instances
no_instance = record { instance_ = none; objects = [] }

-- `InstanceInit`, where the new object is at `p`.
unfoldable pub instance_init : ℕ → Instances → Instances
instance_init p s = record { instance_ = some p; objects = s.objects ++ (p ∷ []) }

module _ (o : PthreadOnce Instances) where
  -- `Instance`: what it leaves, and what it returns.
  unfoldable pub once_instance : ℕ → o.Control → Instances → o.Control × Instances × Option ℕ
  once_instance p c s = let (c', s') = o.call c (instance_init p) s in (c', s', s'.instance_)

  -- One call for each address where an object could be made: what they leave and return.
  unfoldable pub once_calls : List ℕ → o.Control → Instances → Instances × List (Option ℕ)
  once_calls [] c s = (s, [])
  once_calls (p ∷ ps) c s =
      let (c', s', r) = once_instance p c s in let (s'', rs) = once_calls ps c' s' in (s'', r ∷ rs)

  later_calls :
      (ps : List ℕ) (c : o.Control) (s : Instances)
      → o.Done c
      → once_calls ps c s ≡ (s, replicate (length ps) s.instance_)
  unfolding once_calls once_instance
  later_calls [] c s d = refl
  later_calls (p ∷ ps) c s d =
      rw
        (
          o.again c (instance_init p) s d,
          later_calls ps (o.call c (instance_init p) s).0 s (o.again-Done c (instance_init p) s d),
        )
        refl

  all_calls :
      (p : ℕ) (ps : List ℕ)
      → once_calls (p ∷ ps) o.once_init no_instance
        ≡ (record { instance_ = some p; objects = p ∷ [] }, replicate (length (p ∷ ps)) (some p))
  unfolding once_calls once_instance instance_init
  all_calls p ps =
      rw
        (
          o.first (instance_init p) no_instance,
          later_calls ps (o.call o.once_init (instance_init p) no_instance).0
              (instance_init p no_instance) (o.first-Done (instance_init p) no_instance),
        )
        refl

-- The same calls in the version of C++11, with `fuel` for each wait.
unfoldable pub calls : ℕ → List ℕ → Singleton → Outcome (Singleton × List (Option ℕ))
calls fuel [] s = ok (s, [])
calls fuel (p ∷ ps) s = do
  (s', r) ← instance_of fuel (some p) s
  (s'', rs) ← calls fuel ps s'
  ok (s'', r ∷ rs)

made_calls :
    (fuel p : ℕ) (ps : List ℕ) (held : Bool)
    → calls fuel ps (record { lock_ = held; instance_ = some p })
      ≡ ok (record { lock_ = held; instance_ = some p }, replicate (length ps) (some p))
unfolding calls instance_of
made_calls fuel p [] held = refl
made_calls fuel p (q ∷ ps) held = rw (made_calls fuel p ps held) refl

fresh-calls :
    (fuel p : ℕ) (ps : List ℕ)
    → calls (suc fuel) (p ∷ ps) fresh
      ≡ ok (record { lock_ = false; instance_ = some p }, replicate (length (p ∷ ps)) (some p))
unfolding calls instance_of spin test_and_set make clear
fresh-calls fuel p ps = rw (made_calls (suc fuel) p ps false) refl

-- For calls one after the other whose constructors do not throw, the two versions of Singleton return the
-- same and leave the same instance, the version of C++11 with the lock free.
pub versions_agree :
    (o : PthreadOnce Instances) (fuel : ℕ) (ps : List ℕ)
    → 0 < fuel
    → let (s, rs) = once_calls o ps o.once_init no_instance in
      calls fuel ps fresh ≡ ok (record { lock_ = false; instance_ = s.instance_ }, rs)
unfolding once_calls calls
versions_agree o zero ps h = absurd (omega arith)
versions_agree o (suc fuel) [] h = refl
versions_agree o (suc fuel) (p ∷ ps) h =
    fresh-calls fuel p ps
    ∙ sym (
        ap
          (λ (x : Instances × List (Option ℕ)).
            ok (record { lock_ = false; instance_ = x.0.instance_ }, x.1))
          (all_calls o p ps))
