-- ===== src/Registry/Players/Sound.antt =====
-- What holds of the nodes and etcd behind any events. (registry/player.go)
use mathlib.Core.Option
use gira.Prelude.{
  ℕ, zero, suc, ◌≡◌, refl, sym, ◌∙◌, subst, Bool, true, false, none, some, List, ◌∷◌, eqb, eqb_iff,
  if◌then◌else◌, get_elem?,
}
use gira.Prelude.Keys.{
  lookup, store, remove, text_eqb, text_eqb_iff, text_key, lookup-store, lookup-remove,
}
use gira.Registry.Players.{LocalPlayer, Peer}
use gira.Registry.Players.Kv.{Text, Etcd, IsEtcd}
use gira.Registry.Players.Holding.{Ident, Locked, Stands}
use gira.Registry.Players.Moves.{Move, Move-Locked, Move-Stands}
use gira.Registry.Players.Nodes.{System, put_at}

module _ {S : Type 0} (e : Etcd S) where
  unfoldable pub HoldsLocked : Ident → List (Text × LocalPlayer) → S → Type 0
  HoldsLocked a players s =
      (user : Text) (p : LocalPlayer)
      → lookup user players ≡ some p
      → Locked e a user p.create_revision s

  unfoldable pub MadeLocked : Ident → List LocalPlayer → S → Type 0
  MadeLocked a made s =
      (n : ℕ) (p : LocalPlayer)
      → get_elem? made n ≡ some p
      → Locked e a p.user_id p.create_revision s

  pub record Sound (idents : ℕ → Ident) (sys : System S) : Type 0 where
    pub holds : (i : ℕ) → HoldsLocked (idents i) (sys.local_players i) sys.store
    pub made : (i : ℕ) → MadeLocked (idents i) (sys.made i) sys.store
    pub stands : (i : ℕ) (user : Text) → Stands e (idents i) user sys.store

  module _ (laws : IsEtcd e) (a : Ident) where
    pub holds-store :
        (user : Text) (p : LocalPlayer) (players : List (Text × LocalPlayer)) (s : S)
        → Locked e a user p.create_revision s
        → HoldsLocked a players s
        → HoldsLocked a (store user p players) s
    unfolding HoldsLocked
    holds-store user p players s l h v q i =
        go (text_eqb user v) refl (sym (lookup-store user v p players) ∙ i)
      where
        go :
            (b : Bool)
            → text_eqb user v ≡ b
            → (if b then some p else lookup v players) ≡ some q
            → Locked e a v q.create_revision s
        go true x y =
            subst (λ w. Locked e a w q.create_revision s) ((text_eqb_iff user v).0 x)
              (subst (λ c. Locked e a user c.create_revision s) (Option.some-injective p q y) l)
        go false x y = h v q y

    pub holds-remove :
        (user : Text) (players : List (Text × LocalPlayer)) (s : S)
        → HoldsLocked a players s
        → HoldsLocked a (remove user players) s
    unfolding HoldsLocked
    holds-remove user players s h v q i =
        go (text_eqb user v) (sym (lookup-remove user v players) ∙ i)
      where
        go :
            (b : Bool)
            → (if b then none else lookup v players) ≡ some q
            → Locked e a v q.create_revision s
        go true y = cc
        go false y = h v q y

    pub made-cons :
        (p : LocalPlayer) (made : List LocalPlayer) (s : S)
        → Locked e a p.user_id p.create_revision s
        → MadeLocked a made s
        → MadeLocked a (p ∷ made) s
    unfolding MadeLocked
    made-cons p made s l h zero q i =
        subst (λ c. Locked e a c.user_id c.create_revision s) (Option.some-injective p q i) l
    made-cons p made s l h (suc n) q i = h n q i

  module _ (laws : IsEtcd e) (a b : Ident) (s s' : S) (move : Move e a s s') where
    pub holds-Move :
        (players : List (Text × LocalPlayer)) → HoldsLocked b players s → HoldsLocked b players s'
    unfolding HoldsLocked
    holds-Move players h v q i = Move-Locked e laws a b v q.create_revision s s' move (h v q i)

    pub made-Move : (made : List LocalPlayer) → MadeLocked b made s → MadeLocked b made s'
    unfolding MadeLocked
    made-Move made h n q i = Move-Locked e laws a b q.user_id q.create_revision s s' move (h n q i)

  -- What an event of a node leaves: the move, its users and the locks that it made.
  pub record Left (a : Ident) (s s' : S) (players : List (Text × LocalPlayer))
      (made : List LocalPlayer) : Type 0 where
    pub move : Move e a s s'
    pub holds : HoldsLocked a players s'
    pub makes : MadeLocked a made s'

  module _ (laws : IsEtcd e) (idents : ℕ → Ident) (peers : ℕ → List (Text × Peer))
      (names : (i j : ℕ)
        → (idents i).full_name ≡ (idents j).full_name
        → (idents i).name ≡ (idents j).name) where
    pub Left-Sound :
        (sys : System S) (i : ℕ) (s' : S) (players : List (Text × LocalPlayer))
        (made : List LocalPlayer)
        → Sound idents sys
        → Left (idents i) sys.store s' players made
        → Sound idents record {
          store = s';
          local_players = put_at i players sys.local_players;
          made = put_at i made sys.made;
        }
    Left-Sound sys i s' players made sound left = record {
      holds = λ j. holds_at j (eqb i j) refl;
      made = λ j. made_at j (eqb i j) refl;
      stands = λ j user.
          Move-Stands e laws (idents i) (idents j) user sys.store s' (names i j) left.move
            (sound.stands j user);
    }
      where
        holds_at :
            (j : ℕ) (b : Bool)
            → eqb i j ≡ b
            → HoldsLocked (idents j) (if b then players else sys.local_players j) s'
        holds_at j true h =
            subst (λ k. HoldsLocked (idents k) players s') ((eqb_iff i j).0 h) left.holds
        holds_at j false h =
            holds-Move laws (idents i) (idents j) sys.store s' left.move (sys.local_players j)
              (sound.holds j)

        made_at :
            (j : ℕ) (b : Bool)
            → eqb i j ≡ b
            → MadeLocked (idents j) (if b then made else sys.made j) s'
        made_at j true h = subst (λ k. MadeLocked (idents k) made s') ((eqb_iff i j).0 h) left.makes
        made_at j false h =
            made-Move laws (idents i) (idents j) sys.store s' left.move (sys.made j) (sound.made j)
