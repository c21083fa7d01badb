-- ===== src/Registry/Players/Sample.antt =====
-- An etcd to run the locks of users on, a user and a node. (registry/player.go)
use gira.Prelude.{
  ℕ, zero, suc, ◌≡◌, ◌≢◌, refl, ap, ◌∙◌, Bool, true, false, Option, none, some, [], ◌∷◌, eqb,
  eqb_iff, if◌then◌else◌, arith, ◌&&◌,
}
use gira.Prelude.Keys.{text_key}
use gira.Registry.Players.{Registry}
use gira.Registry.Players.Kv.{Text, Key, put_value, among, is_some, or_else, Etcd, IsEtcd}

-- The revision, and of each key its create revision, 0 for none, and its value.
pub record Store : Type 0 where
  pub revision : ℕ
  pub created : Key → ℕ
  pub values : Key → Text

abbrev or_old : Option Text → Text → Text
or_old none old = old
or_old (some v) old = v

abbrev pub etcd : Etcd Store
etcd = record {
  revision = λ s. s.revision;
  create_revision = λ k s. s.created k;
  get = λ k s. if eqb (s.created k) 0 then none else some (s.values k);
  puts = λ kv kvs s. record {
    revision = suc s.revision;
    created = λ k.
        if is_some (put_value k (kv ∷ kvs)) && eqb (s.created k) 0
        then suc s.revision
        else s.created k;
    values = λ k. or_old (put_value k (kv ∷ kvs)) (s.values k);
  };
  deletes = λ ks s. record {
    revision = suc s.revision;
    created = λ k. if among k ks then 0 else s.created k;
    values = s.values;
  };
}

zero_not : (n : ℕ) → n ≢ 0 → eqb n 0 ≡ false
zero_not n h = ground (arith, eqb_iff n 0)

get-put_value :
    (put : Option Text) (created revision : ℕ) (value : Text)
    → (if eqb (if is_some put && eqb created 0 then suc revision else created) 0
        then none
        else some (or_old put value))
      ≡ or_else put (if eqb created 0 then none else some value)
get-put_value none created revision value = refl
get-put_value (some v) zero revision value =
    ap (λ b. if b then none else some v) (zero_not (suc revision) (λ h. omega arith))
get-put_value (some v) (suc created) revision value =
    ap (λ b. if eqb (if b then suc revision else suc created) 0 then none else some v)
      (zero_not (suc created) (λ h. omega arith))
    ∙ ap (λ b. if b then none else some v) (zero_not (suc created) (λ h. omega arith))

get-delete :
    (deleted : Bool) (created : ℕ) (value : Text)
    → (if eqb (if deleted then 0 else created) 0 then none else some value)
      ≡ (if deleted then none else if eqb created 0 then none else some value)
get-delete true created value = refl
get-delete false created value = refl

pub etcd-IsEtcd : IsEtcd etcd
etcd-IsEtcd = record {
  revision-puts = λ kv kvs s. refl;
  revision-deletes = λ ks s. omega arith;
  get-puts =
      λ k kv kvs s. get-put_value (put_value k (kv ∷ kvs)) (s.created k) s.revision (s.values k);
  get-deletes = λ k ks s. get-delete (among k ks) (s.created k) (s.values k);
  create_revision-puts = λ k kv kvs s. refl;
  create_revision-deletes = λ k ks s. refl;
  absent = λ k s h. ap (λ c. if eqb c 0 then none else some (s.values k)) h;
}

abbrev pub empty : Store
empty = record { revision = 7; created = λ k. 0; values = λ k. [] }

abbrev pub user : Text
user = 117 ∷ []

abbrev pub hall_0 : Registry
hall_0 = record { name = 104 ∷ []; full_name = 104 ∷ 48 ∷ []; local_players = []; peers = [] }
