-- ===== src/Gate/Server/Visits/Stored.antt =====
-- What storing and removing a session make of the map of sessions. (gate/server.go)
use gira.Prelude.{
  ℕ, ◌+◌, ◌^◌, ◌<◌, ◌≤◌, ◌≡◌, inl, inr, sym, ap, subst, ◌∙◌, true, false, none, some, List, [], ◌∷◌,
  ◌++◌, eqb, eqb_iff, if◌then◌else◌, arith, Bool-cases,
}
use gira.Prelude.Keys.{lookup, store, remove, lookup-store, lookup-remove, number_key}
use gira.Gate.Server.Visits.{Server, Place, storing, serving, closing, leaving, id_of}
use gira.Gate.Server.Visits.Invariant.{
  Inv, count, has_number, is_stored, count_at, count_then, is_stored-has_number,
}

id_of-injective :
    (modifer m n : ℕ) → m < 2 ^ 64 → n < 2 ^ 64 → id_of modifer m ≡ id_of modifer n → m ≡ n
id_of-injective modifer m n lm ln e = omega arith

-- A session in the map has a number that has been given out, and so has that of `p`.
stored_bound : (s : Server) (inv : Inv s) (n : ℕ) → count (is_stored n) s.visits ≡ 1 → n ≤ s.sid
stored_bound s inv n h = ground (arith, inv.numbers n, is_stored-has_number n s.visits)

eqb-id_of :
    (s : Server) (m n : ℕ)
    → s.sid < 2 ^ 64
    → m ≤ s.sid
    → n ≤ s.sid
    → eqb (id_of s.session_modifer m) (id_of s.session_modifer n) ≡ eqb m n
eqb-id_of s m n bounded hm hn =
    let injective = id_of-injective s.session_modifer m n (omega arith) (omega arith) in
    elim (Bool-cases (eqb m n)) [
      | inl q ↦
          let same = ap (id_of s.session_modifer) ((eqb_iff m n).0 q) in
          (eqb_iff (id_of s.session_modifer m) (id_of s.session_modifer n)).1 same ∙ sym q
      | inr q ↦ elim (Bool-cases (eqb (id_of s.session_modifer m) (id_of s.session_modifer n))) [
        | inl r ↦
            r
            ∙ sym (
                (eqb_iff m n).1 (
                  injective
                    ((eqb_iff (id_of s.session_modifer m) (id_of s.session_modifer n)).0 r)))
        | inr r ↦ r ∙ sym q
      ]
    ]

module _ (s : Server) (inv : Inv s) (bounded : s.sid < 2 ^ 64) (before : List Place) (m : ℕ)
    (after : List Place) where
  abbrev key : ℕ
  key = id_of s.session_modifer m

  other_number : (n k : ℕ) → k ≡ id_of s.session_modifer n → eqb key k ≡ false → eqb m n ≡ false
  other_number n k at q = elim (Bool-cases (eqb m n)) [
    | inl same ↦
        let hit : eqb key k ≡ true =
          (eqb_iff key k).1 (ap (id_of s.session_modifer) ((eqb_iff m n).0 same) ∙ sym at) in
        cc
    | inr r ↦ r
  ]

  module _ (e : s.visits ≡ before ++ storing m ∷ after) where
    storing_bound : m ≤ s.sid
    storing_bound =
        ground
          (arith, inv.numbers m, count_at (has_number m) before after (storing m) e, eqb_iff m m)

    storing_alone : count (is_stored m) before + count (is_stored m) after ≡ 0
    storing_alone = ground (
      arith,
      inv.unique m,
      count_at (has_number m) before after (storing m) e,
      eqb_iff m m,
      is_stored-has_number m before,
      is_stored-has_number m after,
    )

    storing_alone_as : (n : ℕ) → m ≡ n → count (is_stored n) before + count (is_stored n) after ≡ 0
    storing_alone_as n same =
        subst (λ x. count (is_stored x) before + count (is_stored x) after ≡ 0) same storing_alone

    pub stored-found :
        (n : ℕ)
        → count (is_stored n) (before ++ (serving m ∷ after)) ≡ 1
        → lookup (id_of s.session_modifer n) (store key m s.sessions) ≡ some n
    stored-found n h =
        let seen = lookup-store key (id_of s.session_modifer n) m s.sessions in
        let here = count_at (is_stored n) before after (storing m) e in
        let then' = count_then (is_stored n) before after (serving m ∷ []) in
        elim (Bool-cases (eqb m n)) [
          | inl q ↦
              let same : m ≡ n = (eqb_iff m n).0 q in
              let hit : eqb key (id_of s.session_modifer n) ≡ true =
                (eqb_iff key (id_of s.session_modifer n)).1 (ap (id_of s.session_modifer) same) in
              seen
              ∙ ap (λ b. if b then some m else lookup (id_of s.session_modifer n) s.sessions) hit
              ∙ ap some same
          | inr q ↦
              let old : count (is_stored n) s.visits ≡ 1 = ground (arith, here, then', q, h) in
              let miss : eqb key (id_of s.session_modifer n) ≡ false =
                eqb-id_of s m n bounded storing_bound (stored_bound s inv n old) ∙ q in
              seen
              ∙ ap (λ b. if b then some m else lookup (id_of s.session_modifer n) s.sessions) miss
              ∙ inv.found n old
        ]

    pub stored-kept :
        (k n : ℕ)
        → lookup k (store key m s.sessions) ≡ some n
        → (k ≡ id_of s.session_modifer n)
          × (count (is_stored n) (before ++ (serving m ∷ after)) ≡ 1)
    stored-kept k n h =
        let seen = lookup-store key k m s.sessions in
        let here = count_at (is_stored n) before after (storing m) e in
        let then' = count_then (is_stored n) before after (serving m ∷ []) in
        elim (Bool-cases (eqb key k)) [
          | inl q ↦
              let won : some m ≡ some n =
                ap (λ b. if b then some m else lookup k s.sessions) (sym q) ∙ sym seen ∙ h in
              let same : m ≡ n = cc in
              let hit : eqb m n ≡ true = (eqb_iff m n).1 same in
              (
                sym ((eqb_iff key k).0 q) ∙ ap (id_of s.session_modifer) same,
                ground (arith, then', hit, storing_alone_as n same),
              )
          | inr q ↦
              let old : lookup k s.sessions ≡ some n =
                ap (λ b. if b then some m else lookup k s.sessions) (sym q) ∙ sym seen ∙ h in
              let (at, kept') = inv.kept k n old in
              (at, ground (arith, here, then', other_number n k at q, kept'))
        ]

  module _ (e : s.visits ≡ before ++ closing m ∷ after) where
    closing_bound : m ≤ s.sid
    closing_bound =
        ground
          (arith, inv.numbers m, count_at (has_number m) before after (closing m) e, eqb_iff m m)

    closing_alone : count (is_stored m) before + count (is_stored m) after ≡ 0
    closing_alone = ground (
      arith,
      inv.unique m,
      count_at (has_number m) before after (closing m) e,
      eqb_iff m m,
      is_stored-has_number m before,
      is_stored-has_number m after,
    )

    closing_alone_as : (n : ℕ) → m ≡ n → count (is_stored n) before + count (is_stored n) after ≡ 0
    closing_alone_as n same =
        subst (λ x. count (is_stored x) before + count (is_stored x) after ≡ 0) same closing_alone

    pub removed-found :
        (n : ℕ)
        → count (is_stored n) (before ++ (leaving ∷ after)) ≡ 1
        → lookup (id_of s.session_modifer n) (remove key s.sessions) ≡ some n
    removed-found n h =
        let seen = lookup-remove key (id_of s.session_modifer n) s.sessions in
        let here = count_at (is_stored n) before after (closing m) e in
        let then' = count_then (is_stored n) before after (leaving ∷ []) in
        let differs : eqb m n ≡ false = elim (Bool-cases (eqb m n)) [
          | inl q ↦ ground (arith, then', closing_alone_as n ((eqb_iff m n).0 q), h)
          | inr q ↦ q
        ] in
        let old : count (is_stored n) s.visits ≡ 1 = ground (arith, here, then', differs, h) in
        let miss : eqb key (id_of s.session_modifer n) ≡ false =
          eqb-id_of s m n bounded closing_bound (stored_bound s inv n old) ∙ differs in
        seen
        ∙ ap (λ b. if b then none else lookup (id_of s.session_modifer n) s.sessions) miss
        ∙ inv.found n old

    pub removed-kept :
        (k n : ℕ)
        → lookup k (remove key s.sessions) ≡ some n
        → (k ≡ id_of s.session_modifer n) × (count (is_stored n) (before ++ (leaving ∷ after)) ≡ 1)
    removed-kept k n h =
        let seen = lookup-remove key k s.sessions in
        let here = count_at (is_stored n) before after (closing m) e in
        let then' = count_then (is_stored n) before after (leaving ∷ []) in
        elim (Bool-cases (eqb key k)) [
          | inl q ↦
              let gone : none ≡ some n =
                ap (λ b. if b then none else lookup k s.sessions) (sym q) ∙ sym seen ∙ h in
              cc
          | inr q ↦
              let old : lookup k s.sessions ≡ some n =
                ap (λ b. if b then none else lookup k s.sessions) (sym q) ∙ sym seen ∙ h in
              let (at, kept') = inv.kept k n old in
              (at, ground (arith, here, then', other_number n k at q, kept'))
        ]
