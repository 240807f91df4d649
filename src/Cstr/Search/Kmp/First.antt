-- ===== src/Cstr/Search/Kmp/First.antt =====
-- The search loop of `kmp_search_first` of c_utils/cstr.c, and the whole function.
use tiny_utils.Base.{
  ℕ, zero, suc, ◌+◌, ◌-◌, ◌*◌, ◌≤◌, ◌<◌, ◌≡◌, ◌≢◌, inl, inr, refl, sym, ap, ◌∙◌, subst, false, some,
  List, ◌++◌, length, drop, replicate, get_or, ok, ltb, leb, ◌==◌, ◌&&◌, arith, length-append,
  length-drop, length-replicate, load_lem, Bool-cases, ltb→lt, ==_iff,
}
use tiny_utils.Base.Int.{pos}
use tiny_utils.Cstr.Capacity.{u32}
use tiny_utils.Cstr.Memory.{Cstr, IsValid}
use tiny_utils.Cstr.Search.Spec.{MatchAt, FindsFirst, MatchAt-get_or, MatchAt-of}
use tiny_utils.Cstr.Search.Sunday.{search_max_len}
use tiny_utils.Cstr.Search.Kmp.{kmp_loop, kmp_search_first}
use tiny_utils.Cstr.Search.Kmp.Border.{Agree, IsTable, Agree-trans, Agree-inner, Agree-suc}
use tiny_utils.Cstr.Search.Kmp.Table.{kmp_next_table-IsTable}

module _ (pattern bytes t : List ℕ) (used begin : ℕ) where
  abbrev byte : ℕ → ℕ
  byte x = get_or pattern x 0

  abbrev text : ℕ → ℕ
  text x = get_or bytes x 0

  -- What holds at the head of the loop: `j` bytes of the pattern stand before place `i`, and no match
  -- begins before them.
  record Ready (i j : ℕ) : Type 0 where
    from : begin + j ≤ i
    high : i ≤ used
    part : j < length pattern
    border : Agree text byte i j
    none_before : (s : ℕ) → begin ≤ s → s + j < i → ¬ MatchAt pattern bytes s

  module _ (table : IsTable byte t (length pattern)) (nonempty : 0 < length pattern)
      (room : used ≤ length bytes) (wide : length pattern ≤ length t) where
    both-Ready :
        (i j : ℕ)
        → Ready i j
        → i < used
        → j + 1 < length pattern
        → text i ≡ byte j
        → Ready (i + 1) (j + 1)
    both-Ready i j r more part e = record {
      from = omega (arith, r.from);
      high = omega arith;
      part = part;
      border = Agree-suc text byte i j (omega (arith, r.from)) r.border e;
      none_before = λ s low before. r.none_before s low (omega arith);
    }

    text-Ready : (i : ℕ) → Ready i 0 → i < used → text i ≢ byte 0 → Ready (i + 1) 0
    text-Ready i r more e = record {
      from = omega (arith, r.from);
      high = omega arith;
      part = nonempty;
      border = λ x m. absurd (omega arith);
      none_before = λ s low before m. elim (Bool-cases (s == i)) [
        | inl here ↦
            let at_i : i ≡ s + 0 = omega (arith, (==_iff s i).0 here) in
            e (ap text at_i ∙ MatchAt-get_or pattern bytes s 0 m nonempty)
        | inr earlier ↦ r.none_before s low (ground arith) m
      ];
    }

    shorter-Ready :
        (i j : ℕ)
        → Ready i j
        → i < used
        → 0 < j
        → text i ≢ byte j
        → Ready i (get_or t (j - 1) 0) × (get_or t (j - 1) 0 < j)
    shorter-Ready i j r more some_left e =
        let (less, inner, maximal) = table j some_left (omega (arith, r.part)) in
        let j' = get_or t (j - 1) 0 in
        let j≤i : j ≤ i = omega (arith, r.from) in
        let none_between : (s : ℕ) → begin ≤ s → s + j' < i → ¬ MatchAt pattern bytes s =
          λ s low before m. elim (Bool-cases (ltb (s + j) i)) [
            | inl earlier ↦ r.none_before s low (ltb→lt (s + j) i earlier) m
            | inr later ↦ elim (Bool-cases (s + j == i)) [
              | inl here ↦
                  let at_i : i ≡ s + j = sym ((==_iff (s + j) i).0 here) in
                  e (ap text at_i ∙ MatchAt-get_or pattern bytes s j m r.part)
              | inr inside ↦
                  let k = i - s in
                  let start : (x : ℕ) → i - k + x ≡ s + x = λ x. omega (arith, before) in
                  maximal k (omega arith) (ground arith) (
                    Agree-inner text byte i j k j≤i (ground arith) r.border (λ x l.
                      ap text (start x)
                      ∙ MatchAt-get_or pattern bytes s x m (ground (arith, r.part))))
            ]
          ] in
        (
          record {
            from = omega (arith, r.from, less);
            high = r.high;
            part = omega (arith, r.part, less);
            border = Agree-trans text byte i j j' j≤i (omega (arith, less)) r.border inner;
            none_before = none_between;
          },
          less,
        )

    -- The last byte of the pattern has just been met.
    whole_match :
        (i j : ℕ)
        → Ready i j
        → i < used
        → j ≡ length pattern - 1
        → text i ≡ byte j
        → FindsFirst pattern used bytes begin (ok (pos (i - (length pattern - 1))))
    whole_match i j r inside last same =
        let start = i - (length pattern - 1) in
        let grown = Agree-suc text byte i j (omega (arith, r.from)) r.border same in
        let place : (x : ℕ) → start + x ≡ i + 1 - (j + 1) + x = λ x. omega (arith, r.from) in
        inl (
          start,
          refl,
          omega (arith, r.from),
          omega (arith, r.from),
          MatchAt-of pattern bytes start (omega (arith, r.from, room))
              (λ x l. ap text (place x) ∙ grown x (omega arith)),
          λ k low before. r.none_before k low (omega (arith, r.from)),
        )

    kmp_loop_lem :
        (fuel i j : ℕ)
        → Ready i j
        → 2 * (used - i) + j < fuel
        → FindsFirst pattern used bytes begin (kmp_loop fuel pattern used bytes t i j)
    unfolding kmp_loop
    kmp_loop_lem zero i j r enough = absurd (omega arith)
    kmp_loop_lem (suc fuel) i j r enough =
        elim (Bool-cases (ltb i used && ltb j (length pattern))) [
          | inr done ↦
              let at_end : i ≡ used = ground (arith, r.high, r.part) in
              rw done (
                inr (
                  refl,
                  λ k low fits m. elim (Bool-cases (ltb (k + j) i)) [
                    | inl earlier ↦ r.none_before k low (ltb→lt (k + j) i earlier) m
                    | inr later ↦ absurd (ground (arith, r.part))
                  ],
                ))
          | inl more ↦
              let inside : i < used = ground arith in
              let at_i = load_lem bytes i 0 (omega (arith, room)) in
              let at_j = load_lem pattern j 0 r.part in
              elim (Bool-cases (text i == byte j)) [
                | inl equal ↦
                    let same : text i ≡ byte j = (==_iff (text i) (byte j)).0 equal in
                    elim (Bool-cases (j == length pattern - 1)) [
                      | inl last ↦
                          rw (more, at_i, at_j, equal, last)
                            (whole_match i j r inside ((==_iff j (length pattern - 1)).0 last) same)
                      | inr inner ↦
                          rw (more, at_i, at_j, equal, inner)
                            (kmp_loop_lem fuel (i + 1) (j + 1)
                              (both-Ready i j r inside (ground (arith, r.part)) same) (omega arith))
                    ]
                | inr different ↦
                    let apart : text i ≢ byte j = λ e. cc ((==_iff (text i) (byte j)).1 e) in
                    elim (Bool-cases (j == 0)) [
                      | inl empty ↦
                          let none_left = (==_iff j 0).0 empty in
                          rw (more, at_i, at_j, different, empty, none_left)
                            (kmp_loop_lem fuel (i + 1) 0
                              (text-Ready i (subst (λ (n : ℕ). Ready i n) none_left r) inside
                                (subst (λ (n : ℕ). text i ≢ byte n) none_left apart))
                              (omega arith))
                      | inr some_left ↦
                          let (r', less) = shorter-Ready i j r inside (ground arith) apart in
                          rw
                            (
                              more,
                              at_i,
                              at_j,
                              different,
                              some_left,
                              load_lem t (j - 1) 0 (omega (arith, r.part, wide)),
                            )
                            (kmp_loop_lem fuel i (get_or t (j - 1) 0) r' (omega (arith, less)))
                    ]
              ]
        ]

-- On a valid string, for a pattern of 1 to 255 bytes, whatever the array holds before, the search
-- returns the first position from `begin` on where the pattern stands within the used bytes, or -1 if
-- there is none.
pub kmp_search_first-FindsFirst :
    (stack : List ℕ) (c : Cstr) (pattern : List ℕ) (begin : ℕ)
    → IsValid c
    → length stack ≡ search_max_len
    → 0 < length pattern
    → length pattern < search_max_len
    → FindsFirst pattern c.used c.bytes begin (kmp_search_first stack (some c) (some pattern) begin)
unfolding kmp_search_first
kmp_search_first-FindsFirst stack c pattern begin v size nonempty short =
    elim (Bool-cases (ltb c.used begin)) [
      | inl far ↦ rw far (inr (refl, λ k low inside. absurd (ground arith)))
      | inr near ↦ elim (Bool-cases (ltb c.used (u32 (begin + u32 (length pattern))))) [
        | inl beyond ↦
            rw (near, beyond) (inr (refl, λ k low inside. absurd (ground (arith, v.fits, v.small))))
        | inr fits ↦
            let table = replicate {A = ℕ} 64 0 ++ drop 64 stack in
            let wide : length table ≡ search_max_len = omega (
              arith,
              length-append (replicate {A = ℕ} 64 0) (drop 64 stack),
              length-replicate {A = ℕ} 64 0,
              length-drop 64 stack,
            ) in
            let (t, e, full, len) =
              kmp_next_table-IsTable pattern table nonempty (omega (arith, wide)) in
            let ready : Ready pattern c.bytes t c.used begin begin 0 = record {
              from = omega arith;
              high = ground arith;
              part = nonempty;
              border = λ x m. absurd (omega arith);
              none_before = λ s low before. absurd (omega arith);
            } in
            rw (near, fits, not_empty, not_long, e)
              (kmp_loop_lem pattern c.bytes t c.used begin full nonempty
                (omega (arith, v.fits, v.backed)) (omega (arith, len, wide)) (2 * c.used + 1) begin
                0 ready (omega arith))
      ]
    ]
  where
    not_empty : (u32 (length pattern) == 0) ≡ false
    not_empty = ground arith

    not_long : leb search_max_len (u32 (length pattern)) ≡ false
    not_long = ground arith
