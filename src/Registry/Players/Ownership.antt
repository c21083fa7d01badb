-- ===== src/Registry/Players/Ownership.antt =====
-- Who may release a lock, in whatever order the nodes act. (registry/player.go)
use gira.Prelude.{ℕ, ◌≡◌, ◌⊎◌, some, List, [], ◌∷◌}
use gira.Prelude.Keys.{lookup, text_key}
use gira.Registry.Players.{Peer}
use gira.Registry.Players.Kv.{Text, Key, by_type, by_peer, Etcd, IsEtcd}
use gira.Registry.Players.Holding.{Ident, Stands}
use gira.Registry.Players.Moves.{Move-holder}
use gira.Registry.Players.Nodes.{System, Event, node_of, happens, run, effect, effect, started}
use gira.Registry.Players.Sound.{HoldsLocked, MadeLocked, Sound, Left-Sound}
use gira.Registry.Players.Acts.{event-Left}

module _ {S : Type 0} (e : Etcd S) (laws : IsEtcd e) (idents : ℕ → Ident)
    (peers : ℕ → List (Text × Peer))
    (names : (i j : ℕ)
      → (idents i).full_name ≡ (idents j).full_name
      → (idents i).name ≡ (idents j).name) where
  run-Sound :
      (events : List Event) (sys : System S)
      → Sound e idents sys
      → Sound e idents (run e idents peers events sys)
  unfolding run
  run-Sound [] sys sound = sound
  run-Sound (event ∷ events) sys sound = run-Sound events (happens e idents peers event sys) (
      Left-Sound e laws idents peers names sys (node_of event) (effect e idents peers event sys).0
        (effect e idents peers event sys).1 (effect e idents peers event sys).2 sound
        (event-Left e laws idents peers event sys sound))

  started-Sound : (s : S) → ((k : Key) → e.create_revision k s ≡ 0) → Sound e idents (started s)
  unfolding HoldsLocked MadeLocked Stands lookup
  started-Sound s empty = record {
    holds = λ i user p h. cc;
    made = λ i n p h. cc;
    stands = λ i user h. elim (h (empty (by_peer (idents i).full_name user))) [ ];
  }

  -- Nodes lock and unlock users over one etcd that was empty, in any order: commits may fail before
  -- or behind their effect, nodes may leave, and a node may learn at any time of a lock that it
  -- made and forget any user. While etcd has a holder for a user and a name of applications, every
  -- further event keeps this holder, unless the node of the event has the full name of the holder.
  -- Nodes of one full name have one name.
  pub lock-kept_by_others :
      (s : S) (events : List Event) (event : Event) (name user holder : Text)
      → ((k : Key) → e.create_revision k s ≡ 0)
      → e.get (by_type name user) (run e idents peers events (started s)).store ≡ some holder
      → (e.get
            (by_type name user)
            (happens e idents peers event (run e idents peers events (started s))).store
          ≡ some holder)
        ⊎ ((idents (node_of event)).full_name ≡ holder)
  lock-kept_by_others s events event name user holder empty h =
      let sys = run e idents peers events (started s) in
      let sound = run-Sound events (started s) (started-Sound s empty) in
      Move-holder e laws (idents (node_of event)) name user holder sys.store
        (effect e idents peers event sys).0 (event-Left e laws idents peers event sys sound).move h
