-- ===== src/Cstr/Search/Kmp/Table.antt =====
-- The table of `kmp_next_table` of c_utils/cstr.c.
use tiny_utils.Base.{
  ℕ, zero, suc, ◌+◌, ◌-◌, ◌*◌, ◌≤◌, ◌<◌, ◌≡◌, ◌≢◌, inl, inr, refl, ap, ◌∙◌, subst, List, length,
  set, get_or, ok, ltb, ◌==◌, arith, length-set, get_or-set_self, get_or-set_ne, load_lem,
  store_lem, Bool-cases, ltb→lt, ==_iff,
}
use tiny_utils.Cstr.Search.Kmp.{table_loop, kmp_next_table}
use tiny_utils.Cstr.Search.Kmp.Border.{
  Agree, IsTable, Agree-trans, Agree-inner, Agree-suc, Agree-pred,
}

IsTable-set :
    (p : ℕ → ℕ) (t : List ℕ) (i v : ℕ)
    → IsTable p t i
    → i < length t
    → v ≤ i
    → Agree p p (i + 1) v
    → ((k : ℕ) → v < k → k < i + 1 → ¬ Agree p p (i + 1) k)
    → IsTable p (set t i v) (i + 1)
IsTable-set p t i v old room small a longest q pos le = elim (Bool-cases (q == i + 1)) [
  | inl last ↦
      let top : q ≡ i + 1 = (==_iff q (i + 1)).0 last in
      let at_i : q - 1 ≡ i = omega arith in
      let entry : get_or (set t i v) (q - 1) 0 ≡ v =
        ap (λ (j : ℕ). get_or (set t i v) j 0) at_i ∙ get_or-set_self t i v 0 room in
      rw (entry, top) (omega arith, a, longest)
  | inr before ↦
      let lower : q ≤ i = ground arith in
      let apart : i ≢ q - 1 = λ e. absurd (omega arith) in
      rw (get_or-set_ne t v 0 apart) (old q pos lower)
]

module _ (pattern : List ℕ) where
  abbrev byte : ℕ → ℕ
  byte x = get_or pattern x 0

  -- What holds at the head of the loop: `k` is a border of the first `i` bytes, and no longer one can be
  -- extended by the next byte.
  record Ready (i k : ℕ) (t : List ℕ) : Type 0 where
    low : 1 ≤ i
    high : i ≤ length pattern
    proper : k < i
    room : length pattern ≤ length t
    table : IsTable byte t i
    border : Agree byte byte i k
    longest : (k' : ℕ) → k < k' → k' < i → ¬ Agree byte byte (i + 1) (k' + 1)

  -- No border of the next prefix is longer than by one byte.
  none_longer :
      (i k : ℕ) (t : List ℕ)
      → Ready i k t
      → (q : ℕ) → k + 1 < q
      → q < i + 1
      → ¬ Agree byte byte (i + 1) q
  none_longer i k t r q low high a =
      let e : q ≡ q - 1 + 1 = omega arith in
      r.longest (q - 1) (omega arith) (omega arith)
        (subst (λ (n : ℕ). Agree byte byte (i + 1) n) e a)

  longer-Ready :
      (i k : ℕ) (t : List ℕ)
      → Ready i k t
      → i < length pattern
      → byte i ≡ byte k
      → Ready (i + 1) (k + 1) (set t i (k + 1))
  longer-Ready i k t r more e =
      let k≤i : k ≤ i = omega (arith, r.proper) in
      let next = Agree-suc byte byte i k k≤i r.border e in
      record {
        low = omega arith;
        high = omega arith;
        proper = omega (arith, r.proper);
        room = omega (arith, r.room, length-set t i (k + 1));
        table =
            IsTable-set byte t i (k + 1) r.table (omega (arith, r.room)) (omega (arith, r.proper))
              next (none_longer i k t r);
        border = next;
        longest = λ k' low high a.
            none_longer i k t r k' low high (Agree-pred byte byte (i + 1) k' (omega arith) a).0;
      }

  empty-Ready :
      (i : ℕ) (t : List ℕ)
      → Ready i 0 t
      → i < length pattern
      → byte i ≢ byte 0
      → Ready (i + 1) 0 (set t i 0)
  empty-Ready i t r more e =
      let none_at_all : (q : ℕ) → 0 < q → q < i + 1 → ¬ Agree byte byte (i + 1) q = λ q low high a.
        elim (Bool-cases (q == 1)) [
          | inl one ↦
              e
                (Agree-pred byte byte i 0 (omega arith)
                  (subst (λ (n : ℕ). Agree byte byte (i + 1) n) ((==_iff q 1).0 one) a)).1
          | inr more_than_one ↦ none_longer i 0 t r q (ground arith) high a
        ] in
      record {
        low = omega arith;
        high = omega arith;
        proper = omega arith;
        room = omega (arith, r.room, length-set t i 0);
        table =
            IsTable-set byte t i 0 r.table (omega (arith, r.room)) (omega arith)
              (λ x m. absurd (omega arith)) none_at_all;
        border = λ x m. absurd (omega arith);
        longest = λ k' low high a.
            none_at_all k' low high (Agree-pred byte byte (i + 1) k' (omega arith) a).0;
      }

  shorter-Ready :
      (i k : ℕ) (t : List ℕ)
      → Ready i k t
      → 0 < k
      → byte i ≢ byte k
      → Ready i (get_or t (k - 1) 0) t × (get_or t (k - 1) 0 < k)
  shorter-Ready i k t r pos e =
      let (less, inner, maximal) = r.table k pos (omega (arith, r.proper)) in
      let k' = get_or t (k - 1) 0 in
      let k≤i : k ≤ i = omega (arith, r.proper) in
      let none_between : (q : ℕ) → k' < q → q < i → ¬ Agree byte byte (i + 1) (q + 1) =
        λ q low high a.
          let (a', last) = Agree-pred byte byte i q (omega arith) a in
          elim (Bool-cases (ltb q k)) [
            | inl below ↦
                maximal q low (ltb→lt q k below)
                  (Agree-inner byte byte i k q k≤i (omega (arith, ltb→lt q k below)) r.border a')
            | inr above ↦ elim (Bool-cases (q == k)) [
              | inl same ↦ e (last ∙ ap byte ((==_iff q k).0 same))
              | inr over ↦ r.longest q (ground arith) high a
            ]
          ] in
      (
        record {
          low = r.low;
          high = r.high;
          proper = omega (arith, less, r.proper);
          room = r.room;
          table = r.table;
          border = Agree-trans byte byte i k k' k≤i (omega (arith, less)) r.border inner;
          longest = none_between;
        },
        less,
      )

  table_loop_lem :
      (fuel i k : ℕ) (t : List ℕ)
      → Ready i k t
      → 2 * (length pattern - i) + k < fuel
      → (t' : List ℕ) × (table_loop fuel pattern i k t ≡ ok t')
        × IsTable byte t' (length pattern)
        × (length t' ≡ length t)
  unfolding table_loop
  table_loop_lem zero i k t r enough = absurd (omega arith)
  table_loop_lem (suc fuel) i k t r enough = elim (Bool-cases (ltb i (length pattern))) [
    | inr done ↦
        let all : i ≡ length pattern = ground (arith, r.high) in
        rw done (t, refl, subst (IsTable byte t) all r.table, refl)
    | inl more ↦
        let inside : i < length pattern = ltb→lt i (length pattern) more in
        let at_i = load_lem pattern i 0 inside in
        let at_k = load_lem pattern k 0 (omega (arith, r.proper)) in
        let room : i < length t = omega (arith, r.room) in
        elim (Bool-cases (byte i == byte k)) [
          | inl equal ↦
              let (t', e, ok', len) =
                table_loop_lem fuel (i + 1) (k + 1) (set t i (k + 1))
                  (longer-Ready i k t r inside ((==_iff (byte i) (byte k)).0 equal))
                  (omega arith) in
              rw (more, at_i, at_k, equal, store_lem t i (k + 1) room)
                (t', e, ok', len ∙ length-set t i (k + 1))
          | inr different ↦
              let apart : byte i ≢ byte k = λ e. cc ((==_iff (byte i) (byte k)).1 e) in
              elim (Bool-cases (k == 0)) [
                | inl empty ↦
                    let none_left = (==_iff k 0).0 empty in
                    let (t', e, ok', len) =
                      table_loop_lem fuel (i + 1) 0 (set t i 0)
                        (empty-Ready i t (subst (λ (n : ℕ). Ready i n t) none_left r) inside
                          (subst (λ (n : ℕ). byte i ≢ byte n) none_left apart))
                        (omega arith) in
                    rw (more, at_i, at_k, different, empty, store_lem t i 0 room, none_left)
                      (t', e, ok', len ∙ length-set t i 0)
                | inr some_left ↦
                    let (r', less) = shorter-Ready i k t r (ground arith) apart in
                    let (t', e, ok', len) =
                      table_loop_lem fuel i (get_or t (k - 1) 0) t r' (omega (arith, less)) in
                    rw
                      (
                        more,
                        at_i,
                        at_k,
                        different,
                        some_left,
                        load_lem t (k - 1) 0 (omega (arith, r.proper, room)),
                      )
                      (t', e, ok', len)
              ]
        ]
  ]

  pub kmp_next_table-IsTable :
      (t : List ℕ)
      → 0 < length pattern
      → length pattern ≤ length t
      → (t' : List ℕ) × (kmp_next_table pattern t ≡ ok t')
        × IsTable byte t' (length pattern)
        × (length t' ≡ length t)
  unfolding kmp_next_table
  kmp_next_table-IsTable t pos room =
      let first : get_or (set t 0 0) 0 0 ≡ 0 = get_or-set_self t 0 0 0 (omega (arith, room)) in
      let one_entry : IsTable byte (set t 0 0) 1 = λ q low high.
        (let top : q - 1 ≡ 0 = omega arith in
          let entry : get_or (set t 0 0) (q - 1) 0 ≡ 0 =
            ap (λ (j : ℕ). get_or (set t 0 0) j 0) top ∙ first in
          rw entry (low, λ x m. absurd (omega arith), λ k m l a. absurd (omega arith))) in
      let ready : Ready 1 0 (set t 0 0) = record {
        low = omega arith;
        high = omega arith;
        proper = omega arith;
        room = omega (arith, length-set t 0 0);
        table = one_entry;
        border = λ x m. absurd (omega arith);
        longest = λ k' low high a. absurd (omega arith);
      } in
      let (t', e, full, len) =
        table_loop_lem (2 * length pattern) 1 0 (set t 0 0) ready (omega arith) in
      rw (store_lem t 0 0 (omega (arith, room))) (t', e, full, len ∙ length-set t 0 0)
