-- ===== src/Gate/Message/Dictionary.antt =====
-- The route dictionary that `SetDictionary` builds. (gate/message/message.go)
use gira.Prelude.{ℕ, ◌≡◌, ◌≢◌, none, some, List, [], ◌∷◌, arith, All, eqb_iff}
use gira.Prelude.Keys.{lookup, store, text_key, number_key, text_eqb_iff, lookup-store}
use gira.Gate.Message.{Text, Routes, set_dictionary}

-- Every route that has a code is the route of that code.
abbrev pub IsConsistent : Routes → Type 0
IsConsistent d = (r : Text) (c : ℕ) → lookup r d.routes ≡ some c → lookup c d.codes ≡ some r

-- No two entries have one code.
abbrev pub DistinctCodes : List (Text × ℕ) → Type 0
DistinctCodes [] = Unit
DistinctCodes (e ∷ dict) = All (λ f. f.1 ≢ e.1) dict × DistinctCodes dict

abbrev pub AreFree : Routes → List (Text × ℕ) → Type 0
AreFree d dict = All (λ e. lookup e.1 d.codes ≡ none) dict

abbrev add_entry : Routes → Text → ℕ → Routes
add_entry d r c = record { routes = store r c d.routes; codes = store c r d.codes }

add_entry-IsConsistent :
    (d : Routes) (r : Text) (c : ℕ)
    → IsConsistent d
    → lookup c d.codes ≡ none
    → IsConsistent (add_entry d r c)
add_entry-IsConsistent d r c ok free r' c' e = ground (
  arith,
  lookup-store r r' c d.routes,
  lookup-store c c' r d.codes,
  text_eqb_iff r r',
  eqb_iff c c',
  ok r' c',
)

add_entry-AreFree :
    (d : Routes) (r : Text) (c : ℕ) (dict : List (Text × ℕ))
    → All (λ f. f.1 ≢ c) dict
    → AreFree d dict
    → AreFree (add_entry d r c) dict
add_entry-AreFree d r c [] ne free = tt
add_entry-AreFree d r c (e ∷ dict) ne free = (
  ground (arith, lookup-store c e.1 r d.codes, eqb_iff c e.1, ne.0, free.0),
  add_entry-AreFree d r c dict ne.1 free.1,
)

-- `SetDictionary` with entries whose codes differ from each other and from those in use, on a
-- dictionary in which every route that has a code is the route of that code, gives such a
-- dictionary.
pub set_dictionary-IsConsistent :
    (trim : Text → Text) (dict : List (Text × ℕ)) (d : Routes)
    → IsConsistent d
    → DistinctCodes dict
    → AreFree d dict
    → IsConsistent (set_dictionary trim dict d)
unfolding set_dictionary
set_dictionary-IsConsistent trim [] d ok ne free = ok
set_dictionary-IsConsistent trim ((r, c) ∷ dict) d ok ne free =
    set_dictionary-IsConsistent trim dict (add_entry d (trim r) c)
      (add_entry-IsConsistent d (trim r) c ok free.0) ne.1
      (add_entry-AreFree d (trim r) c dict ne.0 free.1)

-- Two entries with one code and different trimmed routes, added in this order, leave the first
-- route encoded by a code that decodes to the second.
pub duplicate_code :
    (trim : Text → Text) (r s : Text) (c : ℕ) (d : Routes)
    → trim r ≢ trim s
    → let d' = set_dictionary trim ((r, c) ∷ (s, c) ∷ []) d in
      (lookup (trim r) d'.routes ≡ some c) × (lookup c d'.codes ≡ some (trim s))
unfolding set_dictionary
duplicate_code trim r s c d ne = ground (
  arith,
  lookup-store (trim s) (trim r) c (store (trim r) c d.routes),
  lookup-store (trim r) (trim r) c d.routes,
  lookup-store c c (trim s) (store c (trim r) d.codes),
  text_eqb_iff (trim s) (trim r),
  text_eqb_iff (trim r) (trim r),
  eqb_iff c c,
)
