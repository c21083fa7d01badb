-- ===== src/Registry/Players/Nodes.antt =====
-- Nodes that lock and unlock users over one etcd, in any order. (registry/player.go)
-- A node's map of users may lag behind its transactions: it learns of a lock that it made, by the
-- end of a call or from etcd after a restart, and forgets users, at any time.
use gira.Prelude.{ℕ, Option, none, some, List, [], ◌∷◌, eqb, if◌then◌else◌, get_elem?}
use gira.Registry.Players.{
  LocalPlayer, Peer, Registry, Network, fails_before, lock_local_user, lock_free, unlock_local_user,
  unregister_one, on_local_kv_add, on_local_kv_delete,
}
use gira.Registry.Players.Kv.{Text, Etcd}
use gira.Registry.Players.Holding.{Ident}

-- Of each node, the users that it holds and the locks that its transactions made.
pub record System (S : Type 0) : Type 0 where
  pub store : S
  pub local_players : ℕ → List (Text × LocalPlayer)
  pub made : ℕ → List LocalPlayer

-- `leaves` is a round of the loop in `unregisterLocalPlayers`.
pub data Event : Type 0 where
  locks : ℕ → Network → ℕ → Text → Text → Event
  unlocks leaves : ℕ → Network → Text → Event
  learns : ℕ → ℕ → Event
  forgets : ℕ → Text → Event

abbrev pub node_of : Event → ℕ
node_of (locks i net now value user) = i
node_of (unlocks i net user) = i
node_of (leaves i net user) = i
node_of (learns i n) = i
node_of (forgets i user) = i

abbrev pub put_at : {A : Type 0} → ℕ → A → (ℕ → A) → ℕ → A
put_at i x f j = if eqb i j then x else f j

abbrev pub learnt : Option LocalPlayer → Registry → List (Text × LocalPlayer)
learnt none r = r.local_players
learnt (some p) r = (on_local_kv_add p r).local_players

module _ {S : Type 0} (e : Etcd S) where
  -- With the lock that a transaction makes, where it takes effect.
  abbrev pub made_by : Network → ℕ → Text → Registry → S → S → List LocalPlayer → List LocalPlayer
  made_by fails_before now user r s s' made = made
  made_by net now user r s s' made =
      if lock_free e user r s
      then record { login_time = now; user_id = user; create_revision = e.revision s' } ∷ made
      else made

module _ {S : Type 0} (e : Etcd S) (idents : ℕ → Ident) (peers : ℕ → List (Text × Peer)) where
  abbrev pub registry : ℕ → System S → Registry
  registry i sys = record {
    name = (idents i).name;
    full_name = (idents i).full_name;
    local_players = sys.local_players i;
    peers = peers i;
  }

  -- The store behind an event, and what its node then holds and has made.
  unfoldable pub effect : Event → System S → S × List (Text × LocalPlayer) × List LocalPlayer
  effect (locks i net now value user) sys =
      let r = registry i sys in
      let done = lock_local_user e net now value user r sys.store in
      (done.2, done.1.local_players, made_by e net now user r sys.store done.2 (sys.made i))
  effect (unlocks i net user) sys =
      let done = unlock_local_user e net user (registry i sys) sys.store in
      (done.2, done.1.local_players, sys.made i)
  effect (leaves i net user) sys =
      (unregister_one e net user (registry i sys) sys.store, sys.local_players i, sys.made i)
  effect (learns i n) sys =
      (sys.store, learnt (get_elem? (sys.made i) n) (registry i sys), sys.made i)
  effect (forgets i user) sys =
      (sys.store, (on_local_kv_delete user (registry i sys)).local_players, sys.made i)

  abbrev pub happens : Event → System S → System S
  happens event sys =
      let i = node_of event in
      let after = effect event sys in
      record {
        store = after.0;
        local_players = put_at i after.1 sys.local_players;
        made = put_at i after.2 sys.made;
      }

  unfoldable pub run : List Event → System S → System S
  run [] sys = sys
  run (event ∷ events) sys = run events (happens event sys)

-- No locks are held by the nodes, and none have been made.
abbrev pub started : {S : Type 0} → S → System S
started s = record { store = s; local_players = λ i. []; made = λ i. [] }
