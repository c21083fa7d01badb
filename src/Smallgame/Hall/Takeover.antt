-- ===== src/Smallgame/Hall/Takeover.antt =====
-- A user who is at one hall logs in at another. (framework/smallgame/game/hall/session.go, hall.go)
use gira.Prelude.{
  ℕ, ◌-◌, ◌≡◌, ◌≢◌, ap, ◌∙◌, Bool, true, false, ◌&&◌, ◌||◌, Option, none, some, [], ◌∷◌,
  if◌then◌else◌, eqb, eqb_iff, arith,
}
use gira.Prelude.Keys.{lookup, remove, text_key, lookup-store, lookup-remove, same_refl, text_eqb}
use gira.Registry.Players.{
  Registry, Peer, LocalPlayer, Answer, Network, answers, lock_local_user, lock_answer, lock_txn,
  unlock_local_user, unlock_answer, unlock_player, user_locked, peer_of,
}
use gira.Registry.Players
use gira.Registry.Players.Kv.{by_type, by_user, by_peer, Etcd, IsEtcd}
use gira.Registry.Players.Holding.{ident, puts_of, deletes_of}
use gira.Registry.Players.RoundTrip.{unlock_local_user-known, lock_local_user-free, held}
use gira.Smallgame.Hall.{
  Text, Session, Hall, Error, session_closed, returns, panics, recovered, Closed, World, Made,
  locked, unlocked, opened, stored, released, loaded, load_or_store, checked, locked_first,
  locked_again, behind_instead, for_user, new_session, closing, close, instead, instead_at,
}

abbrev pub is_none : Option Error → Bool
is_none none = true
is_none (some error) = false

-- The world of a hall whose peer is the other one: both share etcd.
abbrev pub beside : {S : Type 0} → World S → Hall S → World S
beside w other = record w {
  instead = λ peer user h.
      let done = instead w user (record other { etcd = h.etcd }) in
      (record h { etcd = done.hall.etcd }, is_none done.error);
}

not_zero : (n : ℕ) → n ≢ 0 → eqb n 0 ≡ false
not_zero n h = ground (arith, eqb_iff n 0)

module _ {S : Type 0} (e : Etcd S) (now : ℕ) (value user : Text) (r : Registry) (s : S) where
  lock_local_user-taken :
      e.create_revision (by_type r.name user) s ≢ 0
      → lock_local_user e answers now value user r s
        ≡ ((peer_of (e.get (by_type r.name user) s) r, some user_locked), r, s)
  unfolding lock_local_user
  lock_local_user-taken taken =
      ap
        (λ b.
          let s' : S = (if b then puts_of e (ident r) user value s else s) in
          let a = lock_answer e b now user r s' in (a.0, a.1, s'))
        (not_zero (e.create_revision (by_type r.name user) s) taken)

  unlock_local_user-held :
      (p : LocalPlayer)
      → lookup user r.local_players ≡ some p
      → e.create_revision (by_user user) s ≡ p.create_revision
      → (unlock_local_user e answers user r s).2 ≡ deletes_of e (ident r) user s
  unlock_local_user-held p known since =
      ap (λ (x : Answer × Registry × S). x.2) (unlock_local_user-known e answers user r s p known)
      ∙ ap (λ b. if b then deletes_of e (ident r) user s else s)
          ((eqb_iff (e.create_revision (by_user user) s) p.create_revision).1 since)

  deletes_of-free :
      IsEtcd e
      → (name : Text) → r.name ≡ name
      → e.create_revision (by_type name user) (deletes_of e (ident r) user s) ≡ 0
  deletes_of-free laws name same =
      laws.create_revision-deletes (by_type name user)
        (by_peer r.full_name user ∷ by_type r.name user ∷ by_user user ∷ []) s
      ∙ ap (λ b. if b || false then 0 else e.create_revision (by_type name user) s)
          (ap (λ b. b && text_eqb user user) (ap (λ n. text_eqb n name) same ∙ same_refl name)
            ∙ same_refl user)

module _ {S : Type 0} (w : World S) (laws : IsEtcd w.kv) (session_id : ℕ) (member_id user : Text)
    (other h : Hall S) (s : Session) (p : LocalPlayer) (peer : Peer)
    (reliable : w.network ≡ answers) (known : w.new_user member_id ≡ some user)
    (loads : w.loads user ≡ true) (absent : lookup user h.sessions ≡ none)
    (name : other.registry.name ≡ h.registry.name) (there : lookup user other.sessions ≡ some s)
    (own : s.user_id ≡ user) (served : s.has_client ≡ true) (is_open : s.is_closed ≡ false)
    (holds : lookup user other.registry.local_players ≡ some p)
    (since : w.kv.create_revision (by_user user) h.etcd ≡ p.create_revision)
    (taken : w.kv.create_revision (by_type h.registry.name user) h.etcd ≢ 0)
    (holder : w.kv.get (by_type h.registry.name user) h.etcd ≡ some other.registry.full_name)
    (peers : lookup other.registry.full_name h.registry.peers ≡ some peer) where
  abbrev left : S
  left = deletes_of w.kv (ident other.registry) user h.etcd

  abbrev moved : Hall S
  moved = record h { etcd = left }

  instead-closes : instead w user (record other { etcd = h.etcd }) ≡ record {
    hall = released w s.user_id (unlocked w s.user_id (record other { etcd = h.etcd }));
    session = some (record s { is_closed = true });
    error = none;
  }
  unfolding instead close
  instead-closes =
      let other' : Hall S = record other { etcd = h.etcd } in
      let done : Closed S = record {
        hall = released w s.user_id (unlocked w s.user_id other');
        session = record s { is_closed = true };
        ending = returns none;
      } in
      ap (λ o. instead_at w user o other') there
      ∙ ap
          (λ (b : Closed S). record {
            hall = b.hall;
            session = some b.session;
            error = recovered b.ending;
          })
          (ap
              (λ b.
                if b
                then record { hall = other'; session = s; ending = returns (some session_closed) }
                else closing w s other')
              is_open
            ∙ ap
                (λ b. if b then done else record {
                  hall = other';
                  session = record s { is_closed = true };
                  ending = panics;
                })
                served)

  closes-left : (unlock_local_user w.kv w.network s.user_id other.registry h.etcd).2 ≡ left
  closes-left =
      ap (λ u. (unlock_local_user w.kv w.network u other.registry h.etcd).2) own
      ∙ ap (λ net. (unlock_local_user w.kv net user other.registry h.etcd).2) reliable
      ∙ unlock_local_user-held w.kv w.now w.value user other.registry h.etcd p holds since

  refused : locked (beside w other) user h ≡ ((some peer, some user_locked), h)
  refused =
      ap (λ (d : Answer × Registry × S). (d.0, record h { registry = d.1; etcd = d.2 }))
        (ap (λ net. lock_local_user w.kv net w.now w.value user h.registry h.etcd) reliable
          ∙ lock_local_user-taken w.kv w.now w.value user h.registry h.etcd taken)
      ∙ ap (λ o. ((peer_of o h.registry, some user_locked), h)) holder
      ∙ ap (λ o. ((o, some user_locked), h)) peers

  free : w.kv.create_revision (by_type h.registry.name user) left ≡ 0
  free = deletes_of-free w.kv w.now w.value user other.registry h.etcd laws h.registry.name name

  -- The hall behind the second lock.
  abbrev owned : Hall S
  owned = record h {
    registry =
        Players.stored w.now user
          (w.kv.revision (puts_of w.kv (ident h.registry) user w.value left)) h.registry;
    etcd = puts_of w.kv (ident h.registry) user w.value left;
  }

  granted : locked (beside w other) user moved ≡ ((none, none), owned)
  granted =
      ap (λ (d : Answer × Registry × S). (d.0, record h { registry = d.1; etcd = d.2 }))
        (ap (λ net. lock_local_user w.kv net w.now w.value user h.registry left) reliable
          ∙ lock_local_user-free w.kv laws w.now w.value user h.registry left free)

  new_session-moves :
      (let s' = opened w session_id member_id user in
        new_session (beside w other) session_id member_id h
        ≡ record { hall = stored w s' owned; session = some s'; error = none })
  unfolding new_session
  new_session-moves =
      let w' = beside w other in
      let s' = opened w session_id member_id user in
      ap (λ o. for_user w' session_id member_id o h) known
      ∙ ap (locked_first w' s') refused
      ∙ ap (λ (d : Made S). behind_instead w' s' (record h { etcd = d.hall.etcd }, is_none d.error))
          instead-closes
      ∙ ap (λ x. behind_instead w' s' (record h { etcd = x }, true)) closes-left
      ∙ ap (locked_again w' s') granted
      ∙ ap (λ o. checked w' s' o owned) absent
      ∙ ap (λ o. load_or_store w' s' o owned) absent
      ∙ ap (λ b. loaded w' s' b (stored w' s' owned)) loads

  -- A user whose open session at one hall has its client logs in at a hall of the same name that
  -- knows the first as a peer and has no session of the user; the first hall holds the lock since
  -- the user's key was created, commits are answered, the member has this user and the data loads.
  -- Then `newSession` at the second hall succeeds: the first closes its session, has none of the
  -- user and counts one less, the second has the new session, and etcd has the second hall as the
  -- holder of the lock.
  pub new_session-takes_over :
      (let a = new_session (beside w other) session_id member_id h in
        let o = (instead w user (record other { etcd = h.etcd })).hall in
        (a.error ≡ none)
        × (lookup user a.hall.sessions ≡ some (opened w session_id member_id user))
        × (w.kv.get (by_type h.registry.name user) a.hall.etcd ≡ some h.registry.full_name)
        × (lookup user o.sessions ≡ none)
        × (o.session_count ≡ other.session_count - 1))
  new_session-takes_over =
      let s' = opened w session_id member_id user in
      (
        ap (λ (x : Made S). x.error) new_session-moves,
        ap (λ (x : Made S). lookup user x.hall.sessions) new_session-moves
            ∙ lookup-store user user s' h.sessions
            ∙ ap (λ b. if b then some s' else lookup user h.sessions) (same_refl user),
        ap (λ (x : Made S). w.kv.get (by_type h.registry.name user) x.hall.etcd) new_session-moves
            ∙ held w.kv laws w.now w.value user h.registry left free,
        ap (λ (x : Made S). lookup user x.hall.sessions) instead-closes
            ∙ ap (λ u. lookup user (remove u other.sessions)) own
            ∙ lookup-remove user user other.sessions
            ∙ ap (λ b. if b then none else lookup user other.sessions) (same_refl user),
        ap (λ (x : Made S). x.hall.session_count) instead-closes,
      )
