-- ===== src/Smallgame/Hall/Tests.antt =====
-- The theorems on the life of a session at concrete inputs. (framework/smallgame/game/hall/session.go)
use gira.Prelude.{◌≡◌, refl, Bool, true, false, none, some, [], ◌∷◌}
use gira.Prelude.Keys.{lookup, store, text_key}
use gira.Registry.Players.{answers, Peer, lock_local_user}
use gira.Registry.Players.Kv.{by_type}
use gira.Registry.Players.Sample.{Store, etcd, etcd-IsEtcd, empty, user, hall_0}
use gira.Smallgame.Hall.{
  Text, Session, Hall, load_failed, nil_function, returns, panics, World, opened, stored,
  new_session, close, with_client, instead,
}
use gira.Smallgame.Hall.Takeover.{beside, new_session-takes_over}
use gira.Smallgame.Hall.Lifecycle.{IsFree, new_session-fails, close-new_session}

abbrev world : Bool → World Store
world loads = record {
  kv = etcd;
  network = answers;
  now = 5;
  value = 53 ∷ [];
  new_user = λ member. some user;
  loads = λ u. loads;
  instead = λ peer u h. (h, false);
}

abbrev hall : Hall Store
hall = record { sessions = []; session_count = 3; registry = hall_0; etcd = empty }

abbrev member : Text
member = 109 ∷ []

new_session-fails_example :
    (let a = new_session (world false) 8 member hall in
      (a.error ≡ some load_failed) × IsFree (world false) user hall_0.name 3 a.hall)
unfolding lookup
new_session-fails_example =
    new_session-fails (world false) etcd-IsEtcd 8 member user hall refl refl refl refl refl refl

close-new_session_example :
    (let s = opened (world true) 8 member user in
      let a = new_session (world true) 8 member hall in
      let b = close (world true) (with_client s) a.hall in
      (a.error ≡ none)
      × (a.session ≡ some s)
      × (lookup user a.hall.sessions ≡ some s)
      × (a.hall.session_count ≡ 4)
      × (b.ending ≡ returns none)
      × IsFree (world true) user hall_0.name 3 b.hall)
unfolding lookup
close-new_session_example =
    close-new_session (world true) etcd-IsEtcd 8 member user hall refl refl refl refl refl refl

-- A session that stands in the map and has no client yet.
abbrev early : Session
early = opened (world true) 8 member user

panics_without_client : (close (world true) early (stored (world true) early hall)).ending ≡ panics
unfolding close
panics_without_client = refl

-- The panic is recovered and returned, and the session stays in the map.
instead_gives_panic :
    (let a = instead (world true) user (stored (world true) early hall) in
      (a.error ≡ some nil_function) × (lookup user a.hall.sessions ≡ some early))
unfolding instead close lookup store
instead_gives_panic = (refl, refl)

-- Hall 0 with a session of the user, and hall 1, which knows it as a peer, over one etcd.
abbrev serving : Session
serving = with_client early

abbrev hall_0_peer : Peer
hall_0_peer = record { full_name = hall_0.full_name; address = [] }

abbrev first_hall : Hall Store
first_hall =
    let done = lock_local_user etcd answers 5 (53 ∷ []) user hall_0 empty in
    record { sessions = (user, serving) ∷ []; session_count = 1; registry = done.1; etcd = done.2 }

abbrev second_hall : Hall Store
second_hall = record {
  sessions = [];
  session_count = 0;
  registry = record {
    name = hall_0.name;
    full_name = 104 ∷ 49 ∷ [];
    local_players = [];
    peers = (hall_0.full_name, hall_0_peer) ∷ [];
  };
  etcd = (lock_local_user etcd answers 5 (53 ∷ []) user hall_0 empty).2;
}

new_session-takes_over_example :
    (let a = new_session (beside (world true) first_hall) 9 member second_hall in
      let o = (instead (world true) user (record first_hall { etcd = second_hall.etcd })).hall in
      (a.error ≡ none)
      × (lookup user a.hall.sessions ≡ some (opened (world true) 9 member user))
      × (etcd.get (by_type hall_0.name user) a.hall.etcd ≡ some (104 ∷ 49 ∷ []))
      × (lookup user o.sessions ≡ none)
      × (o.session_count ≡ 0))
unfolding lookup lock_local_user store
new_session-takes_over_example =
    new_session-takes_over (world true) etcd-IsEtcd 9 member user first_hall second_hall serving
      (record { login_time = 5; user_id = user; create_revision = 8 }) hall_0_peer refl refl refl
      refl refl refl refl refl refl refl refl (λ h. cc) refl refl
