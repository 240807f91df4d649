-- ===== src/Clocker/Exclusion.antt =====
-- Who has the lock of c_utils/clocker.h while threads are in scopes.
use tiny_utils.Base.{
  ℕ, ◌≡◌, ◌≢◌, ◌↔◌, ◌⊎◌, inl, inr, refl, sym, ap, ◌∙◌, Bool, true, false, some, ◌==◌, if◌then◌else◌,
  moved_at, Bool-cases, Option-cases, ℕ_discrete, arith,
}
use tiny_utils.Clocker.{PthreadRwlock, read_lock, write_lock, unlock}
use tiny_utils.Clocker.Scopes.{
  Place, outside, in_read, in_write, Act, enters_read, enters_write, leaves_read, leaves_write,
  System, act, Reach, start, later,
}

abbrev pub is_reading : Place → Bool
is_reading in_read = true
is_reading _ = false

abbrev pub is_writing : Place → Bool
is_writing in_write = true
is_writing _ = false

-- The threads that have the lock are those that are in scopes.
pub record Exact (l : PthreadRwlock) (s : l.Rwlock) (threads : ℕ → Place) : Type 0 where
  pub readers : (i : ℕ) → l.reads s i ≡ is_reading (threads i)
  pub owned : (i : ℕ) → l.writer s ≡ some i → is_writing (threads i) ≡ true
  pub owns : (i : ℕ) → is_writing (threads i) ≡ true → l.writer s ≡ some i
  pub shut_out : (i : ℕ) → is_writing (threads i) ≡ true → (k : ℕ) → l.reads s k ≡ false

read_lock_lem :
    (l : PthreadRwlock) (i : ℕ) (s s' : l.Rwlock)
    → read_lock l i s ≡ some (true, s')
    → l.rdlock i s ≡ some (0, s')
unfolding read_lock
read_lock_lem l i s s' e = elim (Option-cases (l.rdlock i s)) [
  | inl waits ↦ ground arith
  | inr ((code, s''), e') ↦ ground arith
]

write_lock_lem :
    (l : PthreadRwlock) (i : ℕ) (s s' : l.Rwlock)
    → write_lock l i s ≡ some (true, s')
    → l.wrlock i s ≡ some (0, s')
unfolding write_lock
write_lock_lem l i s s' e = elim (Option-cases (l.wrlock i s)) [
  | inl waits ↦ ground arith
  | inr ((code, s''), e') ↦ ground arith
]

both_true : (a b : Bool) → (if a then b else false) ≡ true → (a ≡ true) × (b ≡ true)
both_true true b e = (refl, e)
both_true false b e = cc

module _ {l : PthreadRwlock} where
  enters_read-Exact :
      (i : ℕ) (s s' : l.Rwlock) (threads : ℕ → Place)
      → threads i ≡ outside
      → l.rdlock i s ≡ some (0, s')
      → Exact l s threads
      → Exact l s' (moved_at threads i in_read)
  enters_read-Exact i s s' threads at e x =
      let (free, free', rs) = l.rdlock_gets i s s' e in
      record {
        readers = λ k. elim (Bool-cases (i == k)) [
          | inl same ↦ rw same (rs k ∙ rw same refl)
          | inr other ↦ rw other (rs k ∙ rw other (x.readers k))
        ];
        owned = λ k own. cc (own, free');
        owns = λ k w. elim (Bool-cases (i == k)) [
          | inl same ↦ ground arith
          | inr other ↦ let own = x.owns k in ground arith
        ];
        shut_out = λ k w j. let own = x.owns k in ground arith;
      }

  enters_write-Exact :
      (i : ℕ) (s s' : l.Rwlock) (threads : ℕ → Place)
      → threads i ≡ outside
      → l.wrlock i s ≡ some (0, s')
      → Exact l s threads
      → Exact l s' (moved_at threads i in_write)
  enters_write-Exact i s s' threads at e x =
      let (free, none_reads, mine, rs) = l.wrlock_gets i s s' e in
      record {
        readers = λ k. elim (Bool-cases (i == k)) [
          | inl same ↦ rw same (rs k)
          | inr other ↦ rw other (rs k ∙ sym (none_reads k) ∙ x.readers k)
        ];
        owned = λ k own. ground arith;
        owns = λ k w. elim (Bool-cases (i == k)) [
          | inl same ↦ ground arith
          | inr other ↦ let own = x.owns k in ground arith
        ];
        shut_out = λ k w j. rs j;
      }

  leaves_read-Exact :
      (i : ℕ) (s : l.Rwlock) (threads : ℕ → Place)
      → threads i ≡ in_read
      → Exact l s threads
      → Exact l (unlock l i s).1 (moved_at threads i outside)
  unfolding unlock
  leaves_read-Exact i s threads at x =
      let (same_writer, rs) = l.unlock_read i s (x.readers i ∙ ap is_reading at) in
      record {
        readers = λ k. elim (Bool-cases (i == k)) [
          | inl same ↦ rw same (rs k ∙ rw same refl)
          | inr other ↦ rw other (rs k ∙ rw other (x.readers k))
        ];
        owned = λ k own. let w = x.owned k (sym same_writer ∙ own) in ground arith;
        owns = λ k w. elim (Bool-cases (i == k)) [
          | inl same ↦ ground arith
          | inr other ↦ let own = x.owns k in ground arith
        ];
        shut_out = λ k w j. elim (Bool-cases (i == k)) [
          | inl same ↦ ground arith
          | inr other ↦
              let w' : is_writing (threads k) ≡ true = ground arith in
              absurd (cc (x.shut_out k w' i, x.readers i ∙ ap is_reading at))
        ];
      }

  leaves_write-Exact :
      (i : ℕ) (s : l.Rwlock) (threads : ℕ → Place)
      → threads i ≡ in_write
      → Exact l s threads
      → Exact l (unlock l i s).1 (moved_at threads i outside)
  unfolding unlock
  leaves_write-Exact i s threads at x =
      let own = x.owns i (ap is_writing at) in
      let (free, rs) = l.unlock_write i s own in
      record {
        readers = λ k. elim (Bool-cases (i == k)) [
          | inl same ↦ rw same (rs k ∙ x.shut_out i (ap is_writing at) k)
          | inr other ↦ rw other (rs k ∙ x.readers k)
        ];
        owned = λ k own. cc (own, free);
        owns = λ k w. elim (Bool-cases (i == k)) [
          | inl same ↦ ground arith
          | inr other ↦ let own' = x.owns k in ground arith
        ];
        shut_out = λ k w j. rs j ∙ x.shut_out i (ap is_writing at) j;
      }

  Act-Exact :
      (i : ℕ) (s : l.Rwlock) (threads : ℕ → Place) {p p' : Place} {locked : Bool} {s' : l.Rwlock}
      → Act l i s p locked s' p'
      → threads i ≡ p
      → locked ≡ true
      → Exact l s threads
      → Exact l s' (moved_at threads i p')
  Act-Exact i s threads {s'} (enters_read e) at t x =
      enters_read-Exact i s s' threads at (read_lock_lem l i s s' (e ∙ ap (λ b. some (b, s')) t)) x
  Act-Exact i s threads {s'} (enters_write e) at t x =
      enters_write-Exact i s s' threads at (write_lock_lem l i s s' (e ∙ ap (λ b. some (b, s')) t))
        x
  Act-Exact i s threads leaves_read at t x = leaves_read-Exact i s threads at x
  Act-Exact i s threads leaves_write at t x = leaves_write-Exact i s threads at x

  Reach-Exact : {s : System l} → Reach l s → s.all_locked ≡ true → Exact l s.shared s.threads
  Reach-Exact start h = record {
    readers = l.nobody.1;
    owned = λ i own. cc (own, l.nobody.0);
    owns = λ i w. cc;
    shut_out = λ i w. cc;
  }
  Reach-Exact (later {s} r (act i {locked} a)) h =
      let (was, now) = both_true locked s.all_locked h in
      Act-Exact i s.shared s.threads a refl was (Reach-Exact r now)

  apart :
      {s : l.Rwlock} {threads : ℕ → Place} (i k : ℕ)
      → Exact l s threads
      → i ≢ k
      → is_writing (threads i) ≡ true
      → threads k ≡ outside
  apart {s} {threads} i k x ne w = place_cases (threads k) (x.readers k) (x.owns k)
    where
      place_cases :
          (p : Place)
          → l.reads s k ≡ is_reading p
          → (is_writing p ≡ true → l.writer s ≡ some k)
          → p ≡ outside
      place_cases outside r o = refl
      place_cases in_read r o = cc (r, x.shut_out i w k)
      place_cases in_write r o = absurd (ne (ground (arith, x.owns i w, o refl)))

-- Threads that enter and leave the scopes in any order, while every lock call succeeds: the threads
-- with a read lock are those in a ReadWriteLockerRL, the one with the write lock is the one in a
-- ReadWriteLockerWL, and while a thread is in one no other thread is in a scope.
pub scopes_exclude :
    {l : PthreadRwlock} {s : System l} (i : ℕ)
    → Reach l s
    → s.all_locked ≡ true
    → (l.reads s.shared i ≡ is_reading (s.threads i))
      × ((l.writer s.shared ≡ some i) ↔ (is_writing (s.threads i) ≡ true))
      × ((k : ℕ) → (i ≡ k) ⊎ (is_writing (s.threads i) ≡ false) ⊎ (s.threads k ≡ outside))
scopes_exclude {s} i r h =
    let x = Reach-Exact r h in
    (
      x.readers i,
      (x.owned i, x.owns i),
      λ k. elim (ℕ_discrete i k) [
        | yes same ↦ inl same
        | no other ↦ elim (Bool-cases (is_writing (s.threads i))) [
          | inr not_writing ↦ inr (inl not_writing)
          | inl writing ↦ inr (inr (apart i k x other writing))
        ]
      ],
    )
