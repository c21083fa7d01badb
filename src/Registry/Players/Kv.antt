-- ===== src/Registry/Players/Kv.antt =====
-- What registry/player.go uses of etcd: keys with their create revisions, and transactions.
use gira.Prelude.{
  ℕ, suc, ◌≤◌, ◌≡◌, Bool, true, false, ◌&&◌, ◌||◌, Option, none, some, List, [], ◌∷◌, eqb,
  if◌then◌else◌,
}
use gira.Prelude.Keys.{text_eqb}

abbrev pub Text : Type 0
Text = List ℕ

-- `/peer_type/user/<name>/<user>`, `/peer/user/<full name>/<user>` and `/user/<user>`
pub data Key : Type 0 where
  by_type by_peer : Text → Text → Key
  by_user : Text → Key

abbrev pub key_eqb : Key → Key → Bool
key_eqb (by_type a u) (by_type b v) = text_eqb a b && text_eqb u v
key_eqb (by_peer a u) (by_peer b v) = text_eqb a b && text_eqb u v
key_eqb (by_user u) (by_user v) = text_eqb u v
key_eqb (by_type a u) (by_peer b v) = false
key_eqb (by_type a u) (by_user v) = false
key_eqb (by_peer a u) (by_type b v) = false
key_eqb (by_peer a u) (by_user v) = false
key_eqb (by_user u) (by_type b v) = false
key_eqb (by_user u) (by_peer b v) = false

-- The value that a transaction puts under a key.
abbrev pub put_value : Key → List (Key × Text) → Option Text
put_value k [] = none
put_value k (kv ∷ kvs) = if key_eqb kv.0 k then some kv.1 else put_value k kvs

abbrev pub among : Key → List Key → Bool
among k [] = false
among k (l ∷ ls) = key_eqb l k || among k ls

abbrev pub or_else : Option Text → Option Text → Option Text
or_else none old = old
or_else (some v) old = some v

abbrev pub is_some : Option Text → Bool
is_some none = false
is_some (some v) = true

-- The operations: the puts of a transaction are a first one and others.
pub record Etcd (S : Type 0) : Type 0 where
  pub revision : S → ℕ
  pub create_revision : Key → S → ℕ
  pub get : Key → S → Option Text
  pub puts : Key × Text → List (Key × Text) → S → S
  pub deletes : List Key → S → S

-- A put keeps the create revision of a key that exists; a new key gets the transaction's revision.
pub record IsEtcd {S : Type 0} (e : Etcd S) : Type 0 where
  pub revision-puts :
      (kv : Key × Text) (kvs : List (Key × Text)) (s : S)
      → e.revision (e.puts kv kvs s) ≡ suc (e.revision s)
  pub revision-deletes : (ks : List Key) (s : S) → e.revision s ≤ e.revision (e.deletes ks s)
  pub get-puts :
      (k : Key) (kv : Key × Text) (kvs : List (Key × Text)) (s : S)
      → e.get k (e.puts kv kvs s) ≡ or_else (put_value k (kv ∷ kvs)) (e.get k s)
  pub get-deletes :
      (k : Key) (ks : List Key) (s : S)
      → e.get k (e.deletes ks s) ≡ (if among k ks then none else e.get k s)
  pub create_revision-puts :
      (k : Key) (kv : Key × Text) (kvs : List (Key × Text)) (s : S)
      → e.create_revision k (e.puts kv kvs s) ≡ (
          if is_some (put_value k (kv ∷ kvs)) && eqb (e.create_revision k s) 0
          then suc (e.revision s)
          else e.create_revision k s)
  pub create_revision-deletes :
      (k : Key) (ks : List Key) (s : S)
      → e.create_revision k (e.deletes ks s) ≡ (if among k ks then 0 else e.create_revision k s)
  pub absent : (k : Key) (s : S) → e.create_revision k s ≡ 0 → e.get k s ≡ none
