-- ===== src/Registry/Players/Holding.antt =====
-- What a node may rely on that has locked a user. (registry/player.go)
use gira.Prelude.{ℕ, ◌≡◌, ◌≢◌, ◌≤◌, ◌<◌, some, [], ◌∷◌}
use gira.Registry.Players.{Registry}
use gira.Registry.Players.Kv.{Text, by_type, by_peer, by_user, Etcd}

-- The application of a node.
pub record Ident : Type 0 where
  pub name : Text
  pub full_name : Text

abbrev pub ident : Registry → Ident
ident r = record { name = r.name; full_name = r.full_name }

module _ {S : Type 0} (e : Etcd S) where
  -- A revision at which the node locked the user: while the user's key stands since then, the lock
  -- is the node's.
  pub record Locked (a : Ident) (user : Text) (r : ℕ) (s : S) : Type 0 where
    pub past : r ≤ e.revision s
    pub positive : 0 < r
    pub owns :
        e.create_revision (by_user user) s ≡ r → e.get (by_type a.name user) s ≡ some a.full_name

  -- Where a node's own key stands, the lock is its.
  unfoldable pub Stands : Ident → Text → S → Type 0
  Stands a user s =
      e.create_revision (by_peer a.full_name user) s ≢ 0
      → e.get (by_type a.name user) s ≡ some a.full_name

  -- The transaction of a lock, and of an unlock or of leaving.
  abbrev pub puts_of : Ident → Text → Text → S → S
  puts_of a user value s =
      e.puts (by_user user, a.full_name)
        ((by_peer a.full_name user, value) ∷ (by_type a.name user, a.full_name) ∷ []) s

  abbrev pub deletes_of : Ident → Text → S → S
  deletes_of a user s =
      e.deletes (by_peer a.full_name user ∷ by_type a.name user ∷ by_user user ∷ []) s
