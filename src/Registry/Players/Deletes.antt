-- ===== src/Registry/Players/Deletes.antt =====
-- The transaction of an unlock against what other nodes rely on. (registry/player.go)
use mathlib.Core.Option
use gira.Prelude.{
  ℕ, ◌≡◌, ◌≢◌, inl, inr, refl, sym, ap, ◌∙◌, Bool, true, false, none, some, [], ◌∷◌, if◌then◌else◌,
  arith, Bool-cases, ◌&&◌, ◌||◌,
}
use gira.Prelude.Keys.{text_eqb, text_eqb_iff}
use gira.Registry.Players.Kv.{Text, by_type, by_peer, by_user, Etcd, IsEtcd}
use gira.Registry.Players.Holding.{Ident, Locked, Stands, deletes_of}

or_false : (b : Bool) → b || false ≡ b
or_false true = refl
or_false false = refl

module _ {S : Type 0} (e : Etcd S) (laws : IsEtcd e) where
  -- The keys of a user deleted by a node that holds the lock.
  module _ (a : Ident) (user : Text) (s : S)
      (held : e.get (by_type a.name user) s ≡ some a.full_name) where
    pub user-deletes :
        (v : Text)
        → e.create_revision (by_user v) (deletes_of e a user s)
          ≡ (if text_eqb user v then 0 else e.create_revision (by_user v) s)
    user-deletes v =
        laws.create_revision-deletes (by_user v)
          (by_peer a.full_name user ∷ by_type a.name user ∷ by_user user ∷ []) s
        ∙ ap (λ b. if b then 0 else e.create_revision (by_user v) s) (or_false (text_eqb user v))

    pub type-deletes :
        (n v : Text)
        → e.get (by_type n v) (deletes_of e a user s)
          ≡ (if text_eqb a.name n && text_eqb user v then none else e.get (by_type n v) s)
    type-deletes n v =
        laws.get-deletes (by_type n v)
          (by_peer a.full_name user ∷ by_type a.name user ∷ by_user user ∷ []) s
        ∙ ap (λ b. if b then none else e.get (by_type n v) s)
            (or_false (text_eqb a.name n && text_eqb user v))

    peer-deletes :
        (f v : Text)
        → e.create_revision (by_peer f v) (deletes_of e a user s) ≡ (
            if text_eqb a.full_name f && text_eqb user v
            then 0
            else e.create_revision (by_peer f v) s)
    peer-deletes f v =
        laws.create_revision-deletes (by_peer f v)
          (by_peer a.full_name user ∷ by_type a.name user ∷ by_user user ∷ []) s
        ∙ ap (λ b. if b then 0 else e.create_revision (by_peer f v) s)
            (or_false (text_eqb a.full_name f && text_eqb user v))

    pub held_at :
        (n v : Text)
        → text_eqb a.name n ≡ true
        → text_eqb user v ≡ true
        → e.get (by_type n v) s ≡ some a.full_name
    held_at n v h i =
        sym (
          ap (λ x. e.get (by_type x user) s) ((text_eqb_iff a.name n).0 h)
          ∙ ap (λ x. e.get (by_type n x) s) ((text_eqb_iff user v).0 i))
        ∙ held

    pub deletes-Locked :
        (b : Ident) (v : Text) (r : ℕ) → Locked e b v r s → Locked e b v r (deletes_of e a user s)
    deletes-Locked b v r l = record {
      past =
          (let before = l.past in
            let after =
              laws.revision-deletes
                (by_peer a.full_name user ∷ by_type a.name user ∷ by_user user ∷ []) s in
            omega arith);
      positive = l.positive;
      owns = λ h.
          (let now = user-deletes v in
            let then' = type-deletes b.name v in
            let owned = l.owns in
            let positive = l.positive in
            elim (Bool-cases (text_eqb user v)) [ inl x ↦ ground arith | inr x ↦ ground arith ]);
    }

    pub deletes-Stands :
        (b : Ident) (v : Text)
        → (a.full_name ≡ b.full_name → a.name ≡ b.name)
        → Stands e b v s
        → Stands e b v (deletes_of e a user s)
    unfolding Stands
    deletes-Stands b v same st h =
        let now = peer-deletes b.full_name v in
        let then' = type-deletes b.name v in
        elim (Bool-cases (text_eqb user v)) [
          | inl x ↦ elim (Bool-cases (text_eqb a.full_name b.full_name)) [
            | inl z ↦
                (let gone : e.create_revision (by_peer b.full_name v) (deletes_of e a user s) ≡ 0 =
                    ground arith in
                  elim (h gone) [ ])
            | inr z ↦
                (let old : e.create_revision (by_peer b.full_name v) s ≢ 0 =
                    λ c. h (ground arith) in
                  let stood = st old in
                  elim (Bool-cases (text_eqb a.name b.name)) [
                    | inl y ↦
                        (let own = sym (held_at b.name v y x) ∙ stood in
                          let same_full =
                            (text_eqb_iff a.full_name b.full_name).1
                              (Option.some-injective a.full_name b.full_name own) in
                          cc)
                    | inr y ↦ ground arith
                  ])
          ]
          | inr x ↦
              (let old : e.create_revision (by_peer b.full_name v) s ≢ 0 = λ c. h (ground arith) in
                let stood = st old in ground arith)
        ]
