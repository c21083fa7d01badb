-- ===== src/Registry/Players/RoundTrip.antt =====
-- Locking and unlocking a user. (registry/player.go)
use gira.Prelude.{
  ℕ, suc, ◌≡◌, ◌≢◌, ◌≤◌, refl, sym, ap, ◌∙◌, subst, Bool, true, false, Option, none, some, [], ◌∷◌,
  eqb, eqb_iff, if◌then◌else◌, arith, ◌&&◌,
}
use gira.Prelude.Keys.{lookup, text_eqb, text_key, lookup-store, lookup-remove, same_refl}
use gira.Registry.Players.{
  LocalPlayer, Registry, Answer, user_locked, Network, answers, lock_local_user, lock_answer,
  unlock_player, user_not_found, unlock_answer, unlock_local_user, stored,
}
use gira.Registry.Players.Kv.{Text, by_type, by_peer, by_user, Etcd, IsEtcd}
use gira.Registry.Players.Holding.{ident, puts_of, deletes_of}
use gira.Registry.Players.Puts.{type-puts, user-puts}
use gira.Registry.Players.Deletes.{type-deletes, user-deletes}

pub unlock_local_user-known :
    {S : Type 0} (e : Etcd S) (net : Network) (user : Text) (r : Registry) (s : S) (p : LocalPlayer)
    → lookup user r.local_players ≡ some p
    → unlock_local_user e net user r s ≡ unlock_player e net p user r s
unfolding unlock_local_user
unlock_local_user-known {S} e net user r s p h = ap result h
  where
    result : Option LocalPlayer → Answer × Registry × S
    result none = ((none, some user_not_found), r, s)
    result (some p) = unlock_player e net p user r s

module _ {S : Type 0} (e : Etcd S) (laws : IsEtcd e) (now : ℕ) (value user : Text) (r : Registry)
    (s : S) (free : e.create_revision (by_type r.name user) s ≡ 0) where
  player : LocalPlayer
  player = record {
    login_time = now;
    user_id = user;
    create_revision = e.revision (puts_of e (ident r) user value s);
  }

  locked_at : S
  locked_at = puts_of e (ident r) user value s

  pub lock_local_user-free : lock_local_user e answers now value user r s ≡ (
    (none, none),
    stored now user (e.revision (puts_of e (ident r) user value s)) r,
    puts_of e (ident r) user value s,
  )
  unfolding lock_local_user
  lock_local_user-free =
      ap
        (λ b.
          let s' : S = (if b then puts_of e (ident r) user value s else s) in
          let a = lock_answer e b now user r s' in (a.0, a.1, s'))
        ((eqb_iff (e.create_revision (by_type r.name user) s) 0).1 free)

  unlock-stored :
      (b : Bool) (s' : S)
      → eqb (e.create_revision (by_user user) s') (e.revision s') ≡ b
      → (let r' = stored now user (e.revision s') r in
          let after : S = (if b then deletes_of e (ident r) user s' else s') in
          let a = unlock_answer e b user r' after in
          unlock_local_user e answers user r' s' ≡ (a.0, a.1, after))
  unlock-stored b s' h =
      let r' = stored now user (e.revision s') r in
      unlock_local_user-known e answers user r' s'
        record { login_time = now; user_id = user; create_revision = e.revision s' }
        (lookup-store user user
            record { login_time = now; user_id = user; create_revision = e.revision s' }
            r.local_players
          ∙ ap
              (λ b.
                if b
                then some
                    record { login_time = now; user_id = user; create_revision = e.revision s' }
                else lookup user r.local_players)
              (same_refl user))
      ∙ ap
          (λ b.
            let after : S = (if b then deletes_of e (ident r) user s' else s') in
            let a = unlock_answer e b user r' after in (a.0, a.1, after))
          h

  user-locked : e.create_revision (by_user user) (puts_of e (ident r) user value s) ≡ (
      if eqb (e.create_revision (by_user user) s) 0
      then suc (e.revision s)
      else e.create_revision (by_user user) s)
  user-locked =
      user-puts e laws (ident r) user value s free user
      ∙ ap
          (λ b.
            if b && eqb (e.create_revision (by_user user) s) 0
            then suc (e.revision s)
            else e.create_revision (by_user user) s)
          (same_refl user)

  revision-locked : e.revision (puts_of e (ident r) user value s) ≡ suc (e.revision s)
  revision-locked =
      laws.revision-puts (by_user user, r.full_name)
        ((by_peer r.full_name user, value) ∷ (by_type r.name user, r.full_name) ∷ []) s

  -- The lock that was taken is the node's.
  pub held : e.get (by_type r.name user) (puts_of e (ident r) user value s) ≡ some r.full_name
  held =
      type-puts e laws (ident r) user value s free r.name user
      ∙ ap (λ b. if b then some r.full_name else e.get (by_type r.name user) s) both
    where
      both : text_eqb r.name r.name && text_eqb user user ≡ true
      both = ap (λ b. b && text_eqb user user) (same_refl r.name) ∙ same_refl user

  -- When neither the user's key of the node's name nor the user's own key is in etcd, and both
  -- commits are answered, `LockLocalUser` and then `UnlockLocalUser` succeed; the node holds the
  -- user no more, and both keys are free again.
  pub unlock-lock :
      e.create_revision (by_user user) s ≡ 0
      → (let a = lock_local_user e answers now value user r s in
          let b = unlock_local_user e answers user a.1 a.2 in
          (a.0 ≡ (none, none))
          × (b.0 ≡ (none, none))
          × (lookup user b.1.local_players ≡ none)
          × (e.create_revision (by_user user) b.2 ≡ 0)
          × (e.get (by_type r.name user) b.2 ≡ none))
  unlock-lock h =
      subst (λ a. Released a (unlock_local_user e answers user a.1 a.2)) (sym lock_local_user-free)
        (subst (Released ((none, none), stored now user (e.revision s') r, s'))
          (sym (unlock-stored true s' valid))
          (
            refl,
            refl,
            lookup-remove user user (stored now user (e.revision s') r).local_players
                ∙ ap
                    (λ b.
                      if b
                      then none
                      else lookup user (stored now user (e.revision s') r).local_players)
                    (same_refl user),
            user-deletes e laws (ident r) user s' held user
                ∙ ap (λ b. if b then 0 else e.create_revision (by_user user) s') (same_refl user),
            type-deletes e laws (ident r) user s' held r.name user
                ∙ ap (λ b. if b && text_eqb user user then none else e.get (by_type r.name user) s')
                    (same_refl r.name)
                ∙ ap (λ b. if b then none else e.get (by_type r.name user) s') (same_refl user),
          ))
    where
      s' : S
      s' = puts_of e (ident r) user value s

      Released : Answer × Registry × S → Answer × Registry × S → Type 0
      Released a b =
          (a.0 ≡ (none, none))
          × (b.0 ≡ (none, none))
          × (lookup user b.1.local_players ≡ none)
          × (e.create_revision (by_user user) b.2 ≡ 0)
          × (e.get (by_type r.name user) b.2 ≡ none)

      valid : eqb (e.create_revision (by_user user) s') (e.revision s') ≡ true
      valid =
          let now_user = user-locked in
          let now_revision = revision-locked in
          let old = eqb_iff (e.create_revision (by_user user) s) 0 in
          let new = eqb_iff (e.create_revision (by_user user) s') (e.revision s') in ground arith

  -- A user whose own key is in etcd, as when a node of another name has locked the user, and whose
  -- key of the node's name is free, is locked by `LockLocalUser` with an answered commit, but then
  -- `UnlockLocalUser` with an answered commit says that the user is locked, and changes neither the
  -- node nor etcd. The create revision of the user's key is no later than the revision of etcd.
  pub unlock-lock_fails :
      e.create_revision (by_user user) s ≢ 0
      → e.create_revision (by_user user) s ≤ e.revision s
      → (let a = lock_local_user e answers now value user r s in
          let b = unlock_local_user e answers user a.1 a.2 in
          (a.0 ≡ (none, none)) × (b.0.1 ≡ some user_locked) × (b.1 ≡ a.1) × (b.2 ≡ a.2))
  unlock-lock_fails h past =
      subst (λ a. Refused a (unlock_local_user e answers user a.1 a.2)) (sym lock_local_user-free)
        (subst (Refused ((none, none), stored now user (e.revision s') r, s'))
          (sym (unlock-stored false s' invalid)) (refl, refl, refl, refl))
    where
      s' : S
      s' = puts_of e (ident r) user value s

      Refused : Answer × Registry × S → Answer × Registry × S → Type 0
      Refused a b = (a.0 ≡ (none, none)) × (b.0.1 ≡ some user_locked) × (b.1 ≡ a.1) × (b.2 ≡ a.2)

      invalid : eqb (e.create_revision (by_user user) s') (e.revision s') ≡ false
      invalid =
          let now_user = user-locked in
          let now_revision = revision-locked in
          let old = eqb_iff (e.create_revision (by_user user) s) 0 in
          let new = eqb_iff (e.create_revision (by_user user) s') (e.revision s') in ground arith
