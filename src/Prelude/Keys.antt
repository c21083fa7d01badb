-- ===== src/Prelude/Keys.antt =====
-- Go strings as lists of bytes, and Go maps as association lists with comparable keys.
use Prim.Native.Nat.{ℕ}
use mathlib.Core.Path.{◌≡◌, refl}
use mathlib.Core.Logic.{◌↔◌}
use mathlib.Core.Bool.{Bool, true, false, ◌&&◌}
use mathlib.Core.List.{List, [], ◌∷◌}
use mathlib.Core.Option.{Option, none, some}
use native.Mathlib.Omega.{arith}
use gira.Prelude.Tests.{eqb, eqb_iff, if◌then◌else◌}

abbrev pub text_eqb : List ℕ → List ℕ → Bool
text_eqb [] [] = true
text_eqb [] (d ∷ t) = false
text_eqb (c ∷ s) [] = false
text_eqb (c ∷ s) (d ∷ t) = eqb c d && text_eqb s t

pub text_eqb_iff : (s t : List ℕ) → (text_eqb s t ≡ true) ↔ (s ≡ t)
text_eqb_iff [] [] = (λ _. refl, λ _. refl)
text_eqb_iff [] (d ∷ t) = (λ h. cc, λ h. cc)
text_eqb_iff (c ∷ s) [] = (λ h. cc, λ h. cc)
text_eqb_iff (c ∷ s) (d ∷ t) = ground (arith, eqb_iff c d, text_eqb_iff s t)

-- The types that serve as keys of a map.
pub record Key {ℓ} (K : Type ℓ) : Type ℓ where
  pub same : K → K → Bool
  pub same_iff : (k l : K) → (same k l ≡ true) ↔ (k ≡ l)

instance abbrev pub text_key : Key (List ℕ)
text_key = record { same = text_eqb; same_iff = text_eqb_iff }

instance abbrev pub number_key : Key ℕ
number_key = record { same = eqb; same_iff = eqb_iff }

module _ {ℓ κ} {K : Type ℓ} {V : Type κ} ⦃o : Key K⦄ where
  -- `v, ok := m[k]`
  unfoldable pub lookup : K → List (K × V) → Option V
  lookup k [] = none
  lookup k (entry ∷ m) = if o.same entry.0 k then some entry.1 else lookup k m

  -- `m[k] = v`
  unfoldable pub store : K → V → List (K × V) → List (K × V)
  store k v [] = (k, v) ∷ []
  store k v (entry ∷ m) = if o.same entry.0 k then (k, v) ∷ m else entry ∷ store k v m

  -- `delete(m, k)`
  unfoldable pub remove : K → List (K × V) → List (K × V)
  remove k [] = []
  remove k (entry ∷ m) = if o.same entry.0 k then remove k m else entry ∷ remove k m

  pub lookup-store :
      (k l : K) (v : V) (m : List (K × V))
      → lookup l (store k v m) ≡ (if o.same k l then some v else lookup l m)
  unfolding lookup store
  lookup-store k l v [] = refl
  lookup-store k l v (entry ∷ m) =
      ground
        (arith, o.same_iff entry.0 k, o.same_iff entry.0 l, o.same_iff k l, lookup-store k l v m)

  pub lookup-remove :
      (k l : K) (m : List (K × V))
      → lookup l (remove k m) ≡ (if o.same k l then none else lookup l m)
  unfolding lookup remove
  lookup-remove k l [] = ground arith
  lookup-remove k l (entry ∷ m) =
      ground
        (arith, o.same_iff entry.0 k, o.same_iff entry.0 l, o.same_iff k l, lookup-remove k l m)

pub same_refl {ℓ} : {K : Type ℓ} ⦃o : Key K⦄ (k : K) → o.same k k ≡ true
same_refl ⦃o⦄ k = (o.same_iff k k).1 refl
