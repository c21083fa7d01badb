-- ===== src/Smallgame/Hall/Lifecycle.antt =====
-- A session that is made and closed, or that fails, leaves the hall and the registry as they were.
-- (framework/smallgame/game/hall/session.go, registry/player.go)
use gira.Prelude.{
  ℕ, ◌+◌, ◌-◌, ◌≡◌, refl, sym, ap, ◌∙◌, subst, true, false, none, some, if◌then◌else◌, arith,
}
use gira.Prelude.Keys.{lookup, store, remove, text_key, lookup-store, lookup-remove, same_refl}
use gira.Registry.Players.{answers, lock_local_user, unlock_local_user}
use gira.Registry.Players.Kv.{by_type, by_user, IsEtcd}
use gira.Registry.Players.RoundTrip.{unlock-lock}
use gira.Smallgame.Hall.{
  Text, Session, Hall, load_failed, returns, World, locked, opened, stored, loaded, load_or_store,
  checked, locked_first, for_user, new_session, close, with_client,
}

-- The hall has no session of the user, has this many sessions, and the registry no lock of the user.
pub record IsFree {S : Type 0} (w : World S) (user name : Text) (count : ℕ) (h : Hall S)
    : Type 0 where
  pub no_session : lookup user h.sessions ≡ none
  pub same_count : h.session_count ≡ count
  pub not_held : lookup user h.registry.local_players ≡ none
  pub no_user_key : w.kv.create_revision (by_user user) h.etcd ≡ 0
  pub no_lock : w.kv.get (by_type name user) h.etcd ≡ none

module _ {S : Type 0} (w : World S) (laws : IsEtcd w.kv) (session_id : ℕ) (member_id user : Text)
    (h : Hall S) (reliable : w.network ≡ answers) (known : w.new_user member_id ≡ some user)
    (absent : lookup user h.sessions ≡ none)
    (free : w.kv.create_revision (by_type h.registry.name user) h.etcd ≡ 0)
    (free_user : w.kv.create_revision (by_user user) h.etcd ≡ 0) where
  round_trip :
      let a = lock_local_user w.kv w.network w.now w.value user h.registry h.etcd in
      let b = unlock_local_user w.kv w.network user a.1 a.2 in
      (a.0 ≡ (none, none))
      × (b.0 ≡ (none, none))
      × (lookup user b.1.local_players ≡ none)
      × (w.kv.create_revision (by_user user) b.2 ≡ 0)
      × (w.kv.get (by_type h.registry.name user) b.2 ≡ none)
  round_trip =
      subst
        (λ net.
          let a = lock_local_user w.kv net w.now w.value user h.registry h.etcd in
          let b = unlock_local_user w.kv net user a.1 a.2 in
          (a.0 ≡ (none, none))
          × (b.0 ≡ (none, none))
          × (lookup user b.1.local_players ≡ none)
          × (w.kv.create_revision (by_user user) b.2 ≡ 0)
          × (w.kv.get (by_type h.registry.name user) b.2 ≡ none))
        (sym reliable) (unlock-lock w.kv laws w.now w.value user h.registry h.etcd free free_user)

  new_session-loaded :
      new_session w session_id member_id h
      ≡ loaded w
          (opened w session_id member_id user)
          (w.loads user)
          (stored w (opened w session_id member_id user) (locked w user h).1)
  unfolding new_session
  new_session-loaded =
      ap (λ o. for_user w session_id member_id o h) known
      ∙ ap (λ a. locked_first w (opened w session_id member_id user) (a, (locked w user h).1))
          round_trip.0
      ∙ ap (λ o. checked w (opened w session_id member_id user) o (locked w user h).1) absent
      ∙ ap (λ o. load_or_store w (opened w session_id member_id user) o (locked w user h).1) absent

  -- The session taken from the map, and the lock released, in either order.
  freed :
      (s : Session) (h' : Hall S)
      → h'.sessions ≡ remove user (store user s h.sessions)
      → h'.session_count ≡ (h.session_count + 1) - 1
      → (let done =
            unlock_local_user w.kv w.network user
              (locked w user h).1.registry
              (locked w user h).1.etcd in
          (h'.registry ≡ done.1) × (h'.etcd ≡ done.2))
      → IsFree w user h.registry.name h.session_count h'
  freed s h' sessions count (registry, etcd) =
      let (taken, given, not_held, no_user_key, no_lock) = round_trip in
      record {
        no_session =
            ap (lookup user) sessions
            ∙ lookup-remove user user (store user s h.sessions)
            ∙ ap (λ b. if b then none else lookup user (store user s h.sessions)) (same_refl user);
        same_count = omega arith;
        not_held = ap (λ r. lookup user r.local_players) registry ∙ not_held;
        no_user_key = ap (w.kv.create_revision (by_user user)) etcd ∙ no_user_key;
        no_lock = ap (w.kv.get (by_type h.registry.name user)) etcd ∙ no_lock;
      }

  -- If the data of the user cannot be loaded, with all else as in a hall that makes a session,
  -- `newSession` gives the error, and leaves no session in the map, the count as it was, and the
  -- user's lock free: the node does not hold the user, and the keys are gone.
  pub new_session-fails :
      w.loads user ≡ false
      → (let a = new_session w session_id member_id h in
          (a.error ≡ some load_failed) × IsFree w user h.registry.name h.session_count a.hall)
  new_session-fails fails =
      subst
        (λ a. (a.error ≡ some load_failed) × IsFree w user h.registry.name h.session_count a.hall)
        (sym (
          new_session-loaded
          ∙ ap
              (λ b.
                loaded w (opened w session_id member_id user) b
                  (stored w (opened w session_id member_id user) (locked w user h).1))
              fails))
        (
          refl,
          freed (opened w session_id member_id user)
              (loaded w (opened w session_id member_id user) false
                (stored w (opened w session_id member_id user) (locked w user h).1)).hall
              refl refl (refl, refl),
        )

  -- A hall that has no session of a user makes one: the keys of the user are free in etcd, commits
  -- are answered, the member has this user and the data can be loaded. Then the map has the
  -- session, one more is counted, and once the session has its client, closing it takes it out of
  -- the map, counts one less and frees the user's lock: the node holds the user no more, and the
  -- keys are gone.
  pub close-new_session :
      w.loads user ≡ true
      → (let s = opened w session_id member_id user in
          let a = new_session w session_id member_id h in
          let b = close w (with_client s) a.hall in
          (a.error ≡ none)
          × (a.session ≡ some s)
          × (lookup user a.hall.sessions ≡ some s)
          × (a.hall.session_count ≡ h.session_count + 1)
          × (b.ending ≡ returns none)
          × IsFree w user h.registry.name h.session_count b.hall)
  unfolding close
  close-new_session loads =
      let s = opened w session_id member_id user in
      subst
        (λ a.
          (a.error ≡ none)
          × (a.session ≡ some s)
          × (lookup user a.hall.sessions ≡ some s)
          × (a.hall.session_count ≡ h.session_count + 1)
          × ((close w (with_client s) a.hall).ending ≡ returns none)
          × IsFree w user h.registry.name h.session_count (close w (with_client s) a.hall).hall)
        (sym (new_session-loaded ∙ ap (λ b. loaded w s b (stored w s (locked w user h).1)) loads))
        (
          refl,
          refl,
          lookup-store user user s h.sessions
              ∙ ap (λ b. if b then some s else lookup user h.sessions) (same_refl user),
          refl,
          refl,
          freed s
              (close w (with_client s) (loaded w s true (stored w s (locked w user h).1)).hall).hall
              refl refl (refl, refl),
        )
