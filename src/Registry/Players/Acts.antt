-- ===== src/Registry/Players/Acts.antt =====
-- What each event leaves. (registry/player.go)
use gira.Prelude.{
  ℕ, ◌≡◌, refl, Bool, true, false, Option, none, some, List, ◌∷◌, eqb_iff, if◌then◌else◌, get_elem?,
}
use gira.Prelude.Keys.{lookup, store, remove, text_key}
use gira.Registry.Players.{
  LocalPlayer, Answer, user_not_found, Peer, Registry, Network, answers, fails_before, fails_behind,
  lock_free, lock_answer, lock_local_user, unlock_valid, unlock_txn, unlock_answer, unlock_player,
  unlock_local_user, unregister_txn, on_local_kv_add,
}
use gira.Registry.Players.Kv.{Text, by_type, Etcd, IsEtcd}
use gira.Registry.Players.Holding.{Ident, Locked, puts_of}
use gira.Registry.Players.Puts.{puts_own-Locked}
use gira.Registry.Players.Moves.{Move, stays, takes, unlock-Move, unregister-Move}
use gira.Registry.Players.Nodes.{
  System, Event, locks, unlocks, leaves, learns, forgets, node_of, registry, effect, learnt, effect,
}
use gira.Registry.Players.Sound.{
  HoldsLocked, MadeLocked, Sound, Left, holds-store, holds-remove, made-cons, holds-Move, made-Move,
}

module _ {S : Type 0} (e : Etcd S) (laws : IsEtcd e) (idents : ℕ → Ident)
    (peers : ℕ → List (Text × Peer)) where
  -- An event that leaves the node's users and locks as they are.
  kept-Left :
      (i : ℕ) (sys : System S) (s' : S)
      → Sound e idents sys
      → Move e (idents i) sys.store s'
      → Left e (idents i) sys.store s' (sys.local_players i) (sys.made i)
  kept-Left i sys s' sound move = record {
    move = move;
    holds =
        holds-Move e laws (idents i) (idents i) sys.store s' move (sys.local_players i)
          (sound.holds i);
    makes = made-Move e laws (idents i) (idents i) sys.store s' move (sys.made i) (sound.made i);
  }

  forgets-Left :
      (i : ℕ) (user : Text) (sys : System S) (s' : S)
      → Sound e idents sys
      → Move e (idents i) sys.store s'
      → Left e (idents i) sys.store s' (remove user (sys.local_players i)) (sys.made i)
  forgets-Left i user sys s' sound move =
      let left = kept-Left i sys s' sound move in
      record {
        move = move;
        holds = holds-remove e laws (idents i) user (sys.local_players i) s' left.holds;
        makes = left.makes;
      }

  -- A lock that is taken, whose answer is lost or not.
  takes-Left :
      (now : ℕ) (value user : Text) (i : ℕ) (sys : System S)
      → Sound e idents sys
      → e.create_revision (by_type (idents i).name user) sys.store ≡ 0
      → (let s' = puts_of e (idents i) user value sys.store in
          let p : LocalPlayer = record {
            login_time = now;
            user_id = user;
            create_revision = e.revision s';
          } in
          Left e (idents i) sys.store s' (sys.local_players i) (p ∷ sys.made i)
          × Left e (idents i) sys.store s' (store user p (sys.local_players i)) (p ∷ sys.made i))
  takes-Left now value user i sys sound free =
      let s' = puts_of e (idents i) user value sys.store in
      let p : LocalPlayer = record {
        login_time = now;
        user_id = user;
        create_revision = e.revision s';
      } in
      let left = kept-Left i sys s' sound (takes user value free refl) in
      let own = puts_own-Locked e laws (idents i) user value sys.store free in
      let makes = made-cons e laws (idents i) p (sys.made i) s' own left.makes in
      (
        record { move = left.move; holds = left.holds; makes = makes },
        record {
          move = left.move;
          holds = holds-store e laws (idents i) user p (sys.local_players i) s' own left.holds;
          makes = makes;
        },
      )

  locks-Left :
      (net : Network) (now : ℕ) (value user : Text) (i : ℕ) (sys : System S)
      → Sound e idents sys
      → (let after = effect e idents peers (locks i net now value user) sys in
          Left e (idents i) sys.store after.0 after.1 after.2)
  unfolding effect lock_local_user
  locks-Left fails_before now value user i sys sound = kept-Left i sys sys.store sound (stays refl)
  locks-Left answers now value user i sys sound = go (lock_free e user r sys.store) refl
    where
      r : Registry
      r = registry e idents peers i sys

      s' : Bool → S
      s' b = if b then puts_of e (idents i) user value sys.store else sys.store

      go :
          (b : Bool)
          → lock_free e user r sys.store ≡ b
          → Left e (idents i) sys.store (s' b) (lock_answer e b now user r (s' b)).1.local_players (
              if b
              then record { login_time = now; user_id = user; create_revision = e.revision (s' b) }
                ∷ sys.made i
              else sys.made i)
      go true h =
          (takes-Left now value user i sys sound
            ((eqb_iff (e.create_revision (by_type r.name user) sys.store) 0).0 h)).1
      go false h = kept-Left i sys sys.store sound (stays refl)
  locks-Left fails_behind now value user i sys sound = go (lock_free e user r sys.store) refl
    where
      r : Registry
      r = registry e idents peers i sys

      s' : Bool → S
      s' b = if b then puts_of e (idents i) user value sys.store else sys.store

      go :
          (b : Bool)
          → lock_free e user r sys.store ≡ b
          → Left e (idents i) sys.store (s' b) (sys.local_players i) (
              if b
              then record { login_time = now; user_id = user; create_revision = e.revision (s' b) }
                ∷ sys.made i
              else sys.made i)
      go true h =
          (takes-Left now value user i sys sound
            ((eqb_iff (e.create_revision (by_type r.name user) sys.store) 0).0 h)).0
      go false h = kept-Left i sys sys.store sound (stays refl)

  unlocks-Left :
      (net : Network) (user : Text) (i : ℕ) (sys : System S)
      → Sound e idents sys
      → (let after = effect e idents peers (unlocks i net user) sys in
          Left e (idents i) sys.store after.0 after.1 after.2)
  unfolding effect unlock_local_user HoldsLocked
  unlocks-Left net user i sys sound = go (lookup user (sys.local_players i)) refl
    where
      r : Registry
      r = registry e idents peers i sys

      result : Option LocalPlayer → Answer × Registry × S
      result none = ((none, some user_not_found), r, sys.store)
      result (some p) = unlock_player e net p user r sys.store

      answered :
          (b : Bool) (s' : S)
          → Move e (idents i) sys.store s'
          → Left e
              (idents i)
              sys.store
              s'
              (unlock_answer e b user r s').1.local_players
              (sys.made i)
      answered true s' move = forgets-Left i user sys s' sound move
      answered false s' move = kept-Left i sys s' sound move

      known :
          (net : Network) (p : LocalPlayer)
          → Move e (idents i) sys.store (unlock_txn e p user r sys.store)
          → (let done = unlock_player e net p user r sys.store in
              Left e (idents i) sys.store done.2 done.1.local_players (sys.made i))
      known answers p move =
          answered (unlock_valid e p user sys.store) (unlock_txn e p user r sys.store) move
      known fails_before p move = kept-Left i sys sys.store sound (stays refl)
      known fails_behind p move = kept-Left i sys (unlock_txn e p user r sys.store) sound move

      go :
          (o : Option LocalPlayer)
          → lookup user (sys.local_players i) ≡ o
          → Left e (idents i) sys.store (result o).2 (result o).1.local_players (sys.made i)
      go none h = kept-Left i sys sys.store sound (stays refl)
      go (some p) h = known net p (unlock-Move e p user r sys.store (sound.holds i user p h))

  leaves-Left :
      (net : Network) (user : Text) (i : ℕ) (sys : System S)
      → Sound e idents sys
      → (let after = effect e idents peers (leaves i net user) sys in
          Left e (idents i) sys.store after.0 after.1 after.2)
  unfolding effect
  leaves-Left fails_before user i sys sound = kept-Left i sys sys.store sound (stays refl)
  leaves-Left answers user i sys sound =
      let r = registry e idents peers i sys in
      kept-Left i sys (unregister_txn e user r sys.store) sound
        (unregister-Move e user r sys.store (sound.stands i user))
  leaves-Left fails_behind user i sys sound =
      let r = registry e idents peers i sys in
      kept-Left i sys (unregister_txn e user r sys.store) sound
        (unregister-Move e user r sys.store (sound.stands i user))

  learns-Left :
      (i n : ℕ) (sys : System S)
      → Sound e idents sys
      → (let after = effect e idents peers (learns i n) sys in
          Left e (idents i) sys.store after.0 after.1 after.2)
  unfolding effect on_local_kv_add MadeLocked
  learns-Left i n sys sound = go (get_elem? (sys.made i) n) refl
    where
      r : Registry
      r = registry e idents peers i sys

      same : Left e (idents i) sys.store sys.store (sys.local_players i) (sys.made i)
      same = kept-Left i sys sys.store sound (stays refl)

      added : LocalPlayer → Option LocalPlayer → Registry
      added p none = record r { local_players = store p.user_id p r.local_players }
      added p (some last) = r

      known :
          (p : LocalPlayer) (o : Option LocalPlayer)
          → Locked e (idents i) p.user_id p.create_revision sys.store
          → Left e (idents i) sys.store sys.store (added p o).local_players (sys.made i)
      known p none l = record {
        move = same.move;
        holds =
            holds-store e laws (idents i) p.user_id p (sys.local_players i) sys.store l same.holds;
        makes = same.makes;
      }
      known p (some last) l = same

      go :
          (o : Option LocalPlayer)
          → get_elem? (sys.made i) n ≡ o
          → Left e (idents i) sys.store sys.store (learnt o r) (sys.made i)
      go none h = same
      go (some p) h = known p (lookup p.user_id (sys.local_players i)) (sound.made i n p h)

  pub event-Left :
      (event : Event) (sys : System S)
      → Sound e idents sys
      → (let after = effect e idents peers event sys in
          Left e (idents (node_of event)) sys.store after.0 after.1 after.2)
  unfolding effect
  event-Left (locks i net now value user) sys sound = locks-Left net now value user i sys sound
  event-Left (unlocks i net user) sys sound = unlocks-Left net user i sys sound
  event-Left (leaves i net user) sys sound = leaves-Left net user i sys sound
  event-Left (learns i n) sys sound = learns-Left i n sys sound
  event-Left (forgets i user) sys sound = forgets-Left i user sys sys.store sound (stays refl)
