-- ===== src/Registry/Players/Tests.antt =====
-- The theorems on the locks of users at concrete inputs. (registry/player.go)
use gira.Prelude.{
  ℕ, zero, suc, ◌≡◌, ◌⊎◌, refl, none, some, List, [], ◌∷◌, if◌then◌else◌, arith, ◌||◌,
}
use gira.Prelude.Keys.{lookup, text_key}
use gira.Registry.Players.{
  Peer, user_locked, answers, fails_behind, lock_local_user, unlock_local_user,
}
use gira.Registry.Players.Kv.{Text, by_type, by_user, key_eqb}
use gira.Registry.Players.Holding.{Ident}
use gira.Registry.Players.Nodes.{Event, locks, unlocks, learns, happens, run, started, effect}
use gira.Registry.Players.Sample.{Store, etcd, etcd-IsEtcd, empty, user, hall_0}
use gira.Registry.Players.Ownership.{lock-kept_by_others}
use gira.Registry.Players.RoundTrip.{unlock-lock, unlock-lock_fails}

-- Nodes 0 and 1 are halls, "h0" and "h1" of the name "h"; the others are "g" of the name "g".
abbrev idents : ℕ → Ident
idents zero = record { name = 104 ∷ []; full_name = 104 ∷ 48 ∷ [] }
idents (suc zero) = record { name = 104 ∷ []; full_name = 104 ∷ 49 ∷ [] }
idents (suc (suc n)) = record { name = 103 ∷ []; full_name = 103 ∷ [] }

names : (i j : ℕ) → (idents i).full_name ≡ (idents j).full_name → (idents i).name ≡ (idents j).name
names zero zero h = refl
names zero (suc zero) h = refl
names zero (suc (suc j)) h = cc
names (suc zero) zero h = refl
names (suc zero) (suc zero) h = refl
names (suc zero) (suc (suc j)) h = cc
names (suc (suc i)) zero h = cc
names (suc (suc i)) (suc zero) h = cc
names (suc (suc i)) (suc (suc j)) h = refl

abbrev no_peers : ℕ → List (Text × Peer)
no_peers i = []

-- A lock by node 0, one by node 1, and what node 0 may learn and forget of it.
abbrev events : List Event
events =
    locks 0 fails_behind 5 (53 ∷ []) user
    ∷ locks 1 answers 6 (54 ∷ []) user
    ∷ learns 0 0
    ∷ learns 1 0
    ∷ []

lock-kept_by_others_example :
    (etcd.get
        (by_type (104 ∷ []) user)
        (happens etcd idents no_peers
          (unlocks 1 answers user)
          (run etcd idents no_peers events (started empty))).store
      ≡ some (104 ∷ 48 ∷ []))
    ⊎ ((idents 1).full_name ≡ 104 ∷ 48 ∷ [])
unfolding effect run lock_local_user
lock-kept_by_others_example =
    lock-kept_by_others etcd etcd-IsEtcd idents no_peers names empty events (unlocks 1 answers user)
      (104 ∷ []) user (104 ∷ 48 ∷ []) (λ k. refl) refl

unlock-lock_example :
    (let a = lock_local_user etcd answers 5 (53 ∷ []) user hall_0 empty in
      let b = unlock_local_user etcd answers user a.1 a.2 in
      (a.0 ≡ (none, none))
      × (b.0 ≡ (none, none))
      × (lookup user b.1.local_players ≡ none)
      × (etcd.create_revision (by_user user) b.2 ≡ 0)
      × (etcd.get (by_type hall_0.name user) b.2 ≡ none))
unlock-lock_example = unlock-lock etcd etcd-IsEtcd 5 (53 ∷ []) user hall_0 empty refl refl

-- The store behind the lock of a node with another name.
abbrev locked_by_g : Store
locked_by_g = record {
  revision = 8;
  created = λ k. if key_eqb k (by_user user) || key_eqb k (by_type (103 ∷ []) user) then 8 else 0;
  values = λ k. 103 ∷ [];
}

unlock-lock_fails_example :
    (let a = lock_local_user etcd answers 5 (53 ∷ []) user hall_0 locked_by_g in
      let b = unlock_local_user etcd answers user a.1 a.2 in
      (a.0 ≡ (none, none)) × (b.0.1 ≡ some user_locked) × (b.1 ≡ a.1) × (b.2 ≡ a.2))
unlock-lock_fails_example =
    unlock-lock_fails etcd etcd-IsEtcd 5 (53 ∷ []) user hall_0 locked_by_g refl (λ h. cc)
      (omega arith)
