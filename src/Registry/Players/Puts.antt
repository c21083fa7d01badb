-- ===== src/Registry/Players/Puts.antt =====
-- The transaction of a lock against what other nodes rely on. (registry/player.go)
use gira.Prelude.{
  ℕ, suc, ◌≡◌, ◌≢◌, inl, inr, refl, sym, ap, ◌∙◌, Bool, true, false, Option, none, some, [], ◌∷◌,
  eqb, eqb_iff, if◌then◌else◌, arith, Bool-cases, ◌&&◌,
}
use gira.Prelude.Keys.{text_eqb, text_eqb_iff}
use gira.Registry.Players.Kv.{Text, by_type, by_peer, by_user, is_some, or_else, Etcd, IsEtcd}
use gira.Registry.Players.Holding.{Ident, Locked, Stands, puts_of}

is_some-if : (b : Bool) (v : Text) → is_some (if b then some v else none) ≡ b
is_some-if true v = refl
is_some-if false v = refl

or_else-if :
    (b : Bool) (v : Text) (old : Option Text)
    → or_else (if b then some v else none) old ≡ (if b then some v else old)
or_else-if true v old = refl
or_else-if false v old = refl

module _ {S : Type 0} (e : Etcd S) (laws : IsEtcd e) where
  -- Puts by a node for a user whose key of the node's name is free.
  module _ (a : Ident) (user value : Text) (s : S)
      (free : e.create_revision (by_type a.name user) s ≡ 0) where
    pub user-puts :
        (v : Text)
        → e.create_revision (by_user v) (puts_of e a user value s) ≡ (
            if text_eqb user v && eqb (e.create_revision (by_user v) s) 0
            then suc (e.revision s)
            else e.create_revision (by_user v) s)
    user-puts v =
        laws.create_revision-puts (by_user v) (by_user user, a.full_name)
          ((by_peer a.full_name user, value) ∷ (by_type a.name user, a.full_name) ∷ []) s
        ∙ ap
            (λ b.
              if b && eqb (e.create_revision (by_user v) s) 0
              then suc (e.revision s)
              else e.create_revision (by_user v) s)
            (is_some-if (text_eqb user v) a.full_name)

    pub type-puts :
        (n v : Text)
        → e.get (by_type n v) (puts_of e a user value s) ≡ (
            if text_eqb a.name n && text_eqb user v
            then some a.full_name
            else e.get (by_type n v) s)
    type-puts n v =
        laws.get-puts (by_type n v) (by_user user, a.full_name)
          ((by_peer a.full_name user, value) ∷ (by_type a.name user, a.full_name) ∷ []) s
        ∙ or_else-if (text_eqb a.name n && text_eqb user v) a.full_name (e.get (by_type n v) s)

    peer-puts :
        (f v : Text)
        → e.create_revision (by_peer f v) (puts_of e a user value s) ≡ (
            if (text_eqb a.full_name f && text_eqb user v)
              && eqb (e.create_revision (by_peer f v) s) 0
            then suc (e.revision s)
            else e.create_revision (by_peer f v) s)
    peer-puts f v =
        laws.create_revision-puts (by_peer f v) (by_user user, a.full_name)
          ((by_peer a.full_name user, value) ∷ (by_type a.name user, a.full_name) ∷ []) s
        ∙ ap
            (λ b.
              if b && eqb (e.create_revision (by_peer f v) s) 0
              then suc (e.revision s)
              else e.create_revision (by_peer f v) s)
            (is_some-if (text_eqb a.full_name f && text_eqb user v) value)

    -- Nobody holds the lock that is taken.
    pub nobody :
        (n v : Text)
        → text_eqb a.name n ≡ true
        → text_eqb user v ≡ true
        → e.get (by_type n v) s ≡ none
    nobody n v h i = laws.absent (by_type n v) s (
        sym (
          ap (λ x. e.create_revision (by_type x user) s) ((text_eqb_iff a.name n).0 h)
          ∙ ap (λ x. e.create_revision (by_type n x) s) ((text_eqb_iff user v).0 i))
        ∙ free)

    pub puts-Locked :
        (b : Ident) (v : Text) (r : ℕ)
        → Locked e b v r s
        → Locked e b v r (puts_of e a user value s)
    puts-Locked b v r l = record {
      past =
          (let after =
              laws.revision-puts (by_user user, a.full_name)
                ((by_peer a.full_name user, value) ∷ (by_type a.name user, a.full_name) ∷ []) s in
            let before = l.past in omega arith);
      positive = l.positive;
      owns = λ h.
          (let now = user-puts v in
            let then' = type-puts b.name v in
            let held = l.owns in
            let past = l.past in
            elim (Bool-cases (text_eqb user v)) [
              | inl x ↦ elim (Bool-cases (text_eqb a.name b.name)) [
                | inl y ↦
                    (let gone = nobody b.name v y x in
                      ground (arith, eqb_iff (e.create_revision (by_user v) s) 0))
                | inr y ↦ ground (arith, eqb_iff (e.create_revision (by_user v) s) 0)
              ]
              | inr x ↦ ground arith
            ]);
    }

    pub puts_own-Locked :
        Locked e a user (e.revision (puts_of e a user value s)) (puts_of e a user value s)
    puts_own-Locked = record {
      past = omega arith;
      positive =
          (let after =
              laws.revision-puts (by_user user, a.full_name)
                ((by_peer a.full_name user, value) ∷ (by_type a.name user, a.full_name) ∷ []) s in
            omega arith);
      owns = λ h.
          type-puts a.name user
          ∙ ground (arith, text_eqb_iff a.name a.name, text_eqb_iff user user);
    }

    pub puts-Stands :
        (b : Ident) (v : Text)
        → (a.full_name ≡ b.full_name → a.name ≡ b.name)
        → Stands e b v s
        → Stands e b v (puts_of e a user value s)
    unfolding Stands
    puts-Stands b v same st h =
        let now = peer-puts b.full_name v in
        let then' = type-puts b.name v in
        let full = text_eqb_iff a.full_name b.full_name in
        let name = text_eqb_iff a.name b.name in
        elim (Bool-cases (text_eqb user v)) [
          | inl x ↦ elim (Bool-cases (text_eqb a.full_name b.full_name)) [
            | inl z ↦
                (let own : some a.full_name ≡ some b.full_name = ap some (full.0 z) in
                  let named = name.1 (same (full.0 z)) in ground arith)
            | inr z ↦
                (let old : e.create_revision (by_peer b.full_name v) s ≢ 0 =
                    λ c. h (ground arith) in
                  let held = st old in
                  elim (Bool-cases (text_eqb a.name b.name)) [
                    | inl y ↦ (let gone = nobody b.name v y x in cc)
                    | inr y ↦ ground arith
                  ])
          ]
          | inr x ↦
              (let old : e.create_revision (by_peer b.full_name v) s ≢ 0 = λ c. h (ground arith) in
                let held = st old in ground arith)
        ]
