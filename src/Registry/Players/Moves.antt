-- ===== src/Registry/Players/Moves.antt =====
-- What a node's event does to etcd. (registry/player.go)
use mathlib.Core.Option
use gira.Prelude.{
  ℕ, ◌≡◌, ◌⊎◌, inl, inr, refl, sym, ap, ◌∙◌, subst, Bool, true, false, some, eqb, eqb_iff,
  if◌then◌else◌, arith, Bool-cases,
}
use gira.Prelude.Keys.{text_eqb, text_key}
use gira.Registry.Players.{
  LocalPlayer, Registry, lock_free, lock_txn, unlock_valid, unlock_txn, unregister_txn,
}
use gira.Registry.Players.Kv.{Text, by_type, by_peer, by_user, Etcd, IsEtcd}
use gira.Registry.Players.Holding.{Ident, ident, Locked, Stands, puts_of, deletes_of}
use gira.Registry.Players.Puts.{type-puts, nobody, puts-Locked, puts-Stands}
use gira.Registry.Players.Deletes.{type-deletes, held_at, deletes-Locked, deletes-Stands}

module _ {S : Type 0} (e : Etcd S) where
  -- Nothing, the puts of a lock that was free, or the deletion of a lock that is the node's.
  pub data Move (a : Ident) (s s' : S) : Type 0 where
    stays : s' ≡ s → Move a s s'
    takes :
        (user value : Text)
        → e.create_revision (by_type a.name user) s ≡ 0
        → s' ≡ puts_of e a user value s
        → Move a s s'
    releases :
        (user : Text)
        → e.get (by_type a.name user) s ≡ some a.full_name
        → s' ≡ deletes_of e a user s
        → Move a s s'

  module _ (laws : IsEtcd e) where
    pub Move-Locked :
        (a b : Ident) (v : Text) (r : ℕ) (s s' : S)
        → Move a s s'
        → Locked e b v r s
        → Locked e b v r s'
    Move-Locked a b v r s s' (stays h) l = subst (Locked e b v r) (sym h) l
    Move-Locked a b v r s s' (takes user value free h) l =
        subst (Locked e b v r) (sym h) (puts-Locked e laws a user value s free b v r l)
    Move-Locked a b v r s s' (releases user held h) l =
        subst (Locked e b v r) (sym h) (deletes-Locked e laws a user s held b v r l)

    pub Move-Stands :
        (a b : Ident) (v : Text) (s s' : S)
        → (a.full_name ≡ b.full_name → a.name ≡ b.name)
        → Move a s s'
        → Stands e b v s
        → Stands e b v s'
    Move-Stands a b v s s' same (stays h) st = subst (Stands e b v) (sym h) st
    Move-Stands a b v s s' same (takes user value free h) st =
        subst (Stands e b v) (sym h) (puts-Stands e laws a user value s free b v same st)
    Move-Stands a b v s s' same (releases user held h) st =
        subst (Stands e b v) (sym h) (deletes-Stands e laws a user s held b v same st)

    pub Move-holder :
        (a : Ident) (n v f : Text) (s s' : S)
        → Move a s s'
        → e.get (by_type n v) s ≡ some f
        → (e.get (by_type n v) s' ≡ some f) ⊎ (a.full_name ≡ f)
    Move-holder a n v f s s' (stays h) i = inl (ap (e.get (by_type n v)) h ∙ i)
    Move-holder a n v f s s' (takes user value free h) i =
        let now = type-puts e laws a user value s free n v in
        elim (Bool-cases (text_eqb a.name n)) [
          | inl y ↦ elim (Bool-cases (text_eqb user v)) [
            | inl x ↦ (let gone = nobody e laws a user value s free n v y x in inr cc)
            | inr x ↦ inl (ap (e.get (by_type n v)) h ∙ ground arith)
          ]
          | inr y ↦ inl (ap (e.get (by_type n v)) h ∙ ground arith)
        ]
    Move-holder a n v f s s' (releases user held h) i =
        let now = type-deletes e laws a user s held n v in
        elim (Bool-cases (text_eqb a.name n)) [
          | inl y ↦ elim (Bool-cases (text_eqb user v)) [
            | inl x ↦ inr (
                Option.some-injective a.full_name f
                  (sym (held_at e laws a user s held n v y x) ∙ i))
            | inr x ↦ inl (ap (e.get (by_type n v)) h ∙ ground arith)
          ]
          | inr y ↦ inl (ap (e.get (by_type n v)) h ∙ ground arith)
        ]

  pub lock-Move :
      (user value : Text) (r : Registry) (s : S) → Move (ident r) s (lock_txn e user value r s)
  lock-Move user value r s = go (lock_free e user r s) refl
    where
      a : Ident
      a = ident r

      go :
          (b : Bool)
          → lock_free e user r s ≡ b
          → Move a s (if b then puts_of e a user value s else s)
      go true h =
          takes user value ((eqb_iff (e.create_revision (by_type r.name user) s) 0).0 h) refl
      go false h = stays refl

  pub unlock-Move :
      (p : LocalPlayer) (user : Text) (r : Registry) (s : S)
      → Locked e (ident r) user p.create_revision s
      → Move (ident r) s (unlock_txn e p user r s)
  unlock-Move p user r s l = go (unlock_valid e p user s) refl
    where
      a : Ident
      a = ident r

      go :
          (b : Bool)
          → unlock_valid e p user s ≡ b
          → Move a s (if b then deletes_of e a user s else s)
      go true h =
          releases user
            (l.owns ((eqb_iff (e.create_revision (by_user user) s) p.create_revision).0 h)) refl
      go false h = stays refl

  pub unregister-Move :
      (user : Text) (r : Registry) (s : S)
      → Stands e (ident r) user s
      → Move (ident r) s (unregister_txn e user r s)
  unfolding Stands
  unregister-Move user r s st = go (eqb (e.create_revision (by_peer r.full_name user) s) 0) refl
    where
      a : Ident
      a = ident r

      go :
          (b : Bool)
          → eqb (e.create_revision (by_peer r.full_name user) s) 0 ≡ b
          → Move a s (if b then s else deletes_of e a user s)
      go true h = stays refl
      go false h =
          releases user
            (st (λ z. ground (arith, eqb_iff (e.create_revision (by_peer r.full_name user) s) 0)))
            refl
