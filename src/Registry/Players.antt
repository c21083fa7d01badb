-- ===== src/Registry/Players.antt =====
-- registry/player.go: the locks of users, which stand in etcd under three keys, and the users that a
-- node holds. Keys are told apart by their parts, as names hold no slash. etcd is a parameter; of a
-- transaction whose answer is lost, the node sees an error.
pub mod Kv
pub mod Holding
pub mod Puts
pub mod Deletes
pub mod Nodes
pub mod Moves
pub mod Sound
pub mod Acts
pub mod Ownership
pub mod RoundTrip
pub mod Sample
mod Tests
use gira.Prelude.{ℕ, Bool, true, false, Option, none, some, List, [], ◌∷◌, eqb, not, if◌then◌else◌}
use gira.Prelude.Keys.{lookup, store, remove, text_key}
use gira.Registry.Players.Kv.{Text, Key, by_type, by_peer, by_user, Etcd}

-- `gira.LocalPlayer`
pub record LocalPlayer : Type 0 where
  pub login_time : ℕ
  pub user_id : Text
  pub create_revision : ℕ

pub record Peer : Type 0 where
  pub full_name : Text
  pub address : Text

-- The application's name and full name, the users that it holds and the peers that it knows.
pub record Registry : Type 0 where
  pub name : Text
  pub full_name : Text
  pub local_players : List (Text × LocalPlayer)
  pub peers : List (Text × Peer)

pub data Error : Type 0 where
  user_locked user_not_found peer_not_found commit_failed : Error

-- What becomes of a commit: it is answered, or fails before or behind its effect.
pub data Network : Type 0 where
  answers fails_before fails_behind : Network

abbrev pub Answer : Type 0
Answer = Option Peer × Option Error

-- `GetPeer` of the name, none for a name that is missing.
abbrev pub peer_of : Option Text → Registry → Option Peer
peer_of none r = lookup [] r.peers
peer_of (some name) r = lookup name r.peers

-- The three keys of a user.
abbrev pub keys_of : Text → Registry → List Key
keys_of user r = by_peer r.full_name user ∷ by_type r.name user ∷ by_user user ∷ []

abbrev pub stored : ℕ → Text → ℕ → Registry → Registry
stored now user revision r = record r {
  local_players =
      store user (record { login_time = now; user_id = user; create_revision = revision })
        r.local_players;
}

abbrev pub forgotten : Text → Registry → Registry
forgotten user r = record r { local_players = remove user r.local_players }

-- `onLocalKvAdd` behind the parsing of key and value
unfoldable pub on_local_kv_add : LocalPlayer → Registry → Registry
on_local_kv_add p r = elim (lookup p.user_id r.local_players) [
  | none ↦ record r { local_players = store p.user_id p r.local_players }
  | some last ↦ r
]

-- `onLocalKvDelete` behind the parsing of the key
abbrev pub on_local_kv_delete : Text → Registry → Registry
on_local_kv_delete user r = forgotten user r

module _ {S : Type 0} (e : Etcd S) where
  -- Whether the transaction of `LockLocalUser` succeeds.
  abbrev pub lock_free : Text → Registry → S → Bool
  lock_free user r s = eqb (e.create_revision (by_type r.name user) s) 0

  abbrev pub lock_txn : Text → Text → Registry → S → S
  lock_txn user value r s =
      if lock_free user r s
      then e.puts (by_user user, r.full_name)
          ((by_peer r.full_name user, value) ∷ (by_type r.name user, r.full_name) ∷ []) s
      else s

  abbrev pub lock_answer : Bool → ℕ → Text → Registry → S → Answer × Registry
  lock_answer true now user r s = ((none, none), stored now user (e.revision s) r)
  lock_answer false now user r s =
      ((peer_of (e.get (by_type r.name user) s) r, some user_locked), r)

  -- `value` is the time as decimal digits.
  unfoldable pub lock_local_user : Network → ℕ → Text → Text → Registry → S → Answer × Registry × S
  lock_local_user answers now value user r s =
      let s' = lock_txn user value r s in
      let a = lock_answer (lock_free user r s) now user r s' in (a.0, a.1, s')
  lock_local_user fails_before now value user r s = ((none, some commit_failed), r, s)
  lock_local_user fails_behind now value user r s =
      ((none, some commit_failed), r, lock_txn user value r s)

  -- Whether the transaction of `UnlockLocalUser` succeeds.
  abbrev pub unlock_valid : LocalPlayer → Text → S → Bool
  unlock_valid p user s = eqb (e.create_revision (by_user user) s) p.create_revision

  abbrev pub unlock_txn : LocalPlayer → Text → Registry → S → S
  unlock_txn p user r s = if unlock_valid p user s then e.deletes (keys_of user r) s else s

  abbrev pub unlock_answer : Bool → Text → Registry → S → Answer × Registry
  unlock_answer true user r s = ((none, none), forgotten user r)
  unlock_answer false user r s = ((peer_of (e.get (by_type r.name user) s) r, some user_locked), r)

  abbrev pub unlock_player : Network → LocalPlayer → Text → Registry → S → Answer × Registry × S
  unlock_player answers p user r s =
      let s' = unlock_txn p user r s in
      let a = unlock_answer (unlock_valid p user s) user r s' in (a.0, a.1, s')
  unlock_player fails_before p user r s = ((none, some commit_failed), r, s)
  unlock_player fails_behind p user r s = ((none, some commit_failed), r, unlock_txn p user r s)

  unfoldable pub unlock_local_user : Network → Text → Registry → S → Answer × Registry × S
  unlock_local_user net user r s = elim (lookup user r.local_players) [
    | none ↦ ((none, some user_not_found), r, s)
    | some p ↦ unlock_player net p user r s
  ]

  -- The body of the loop in `unregisterLocalPlayers`, whose errors are only logged.
  abbrev pub unregister_txn : Text → Registry → S → S
  unregister_txn user r s =
      if eqb (e.create_revision (by_peer r.full_name user) s) 0
      then s
      else e.deletes (keys_of user r) s

  abbrev pub unregister_one : Network → Text → Registry → S → S
  unregister_one answers user r s = unregister_txn user r s
  unregister_one fails_before user r s = s
  unregister_one fails_behind user r s = unregister_txn user r s

  -- `none` is the node itself in `WhereIsUser`'s peer.
  abbrev pub found_peer : Option Peer → Answer
  found_peer none = (none, some peer_not_found)
  found_peer (some p) = (some p, none)

  abbrev pub found_name : Option Text → Registry → Answer
  found_name none r = (none, some user_not_found)
  found_name (some name) r = found_peer (lookup name r.peers)

  unfoldable pub where_is_user : Peer → Text → Registry → S → Answer
  where_is_user self_peer user r s = elim (lookup user r.local_players) [
    | none ↦ found_name (e.get (by_user user) s) r
    | some p ↦ (some self_peer, none)
  ]
