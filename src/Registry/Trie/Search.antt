-- ===== src/Registry/Trie/Search.antt =====
-- What a search by prefix finds. (registry/service.go)
use mathlib.Core.Option
use mathlib.Core.List.{Memᴰ}
use gira.Prelude.{◌≡◌, refl, sym, ap, ◌∙◌, subst, Option, none, some, List, [], ◌∷◌, ◌++◌}
use gira.Registry.Trie.{
  Text, Node, Nodes, node, find, collect_all, children, search_below, search_words, search,
  words_of,
}
use gira.Registry.Trie.Collected.{mem-collect_all, collect_all-mem}
use gira.Registry.Trie.Entries.{at, entry}
use gira.Registry.Trie.Unique.{IsUnique, IsUniqueBelow, find-IsUnique}

-- The words without an empty last one.
unfoldable pub trimmed : List Text → List Text
trimmed [] = []
trimmed (w ∷ v ∷ words) = w ∷ trimmed (v ∷ words)
trimmed ([] ∷ []) = []
trimmed ((c ∷ w) ∷ []) = (c ∷ w) ∷ []

-- The children at the end of these words.
unfoldable pub reach : List Text → Nodes → Option Nodes
reach [] ns = some ns
reach (w ∷ ws) ns = elim (find w ns) [ none ↦ none | some c ↦ reach ws (children c) ]

abbrev paths : Option Nodes → List Text
paths none = []
paths (some ns) = collect_all ns

abbrev found_in : List Text → Option Node → List Text
found_in ws none = []
found_in ws (some n) = search_below ws (children n)

abbrev reached_in : List Text → Option Node → Option Nodes
reached_in ws none = none
reached_in ws (some n) = reach ws (children n)

found_in-eq :
    (ws vs : List Text)
    → ((ns : Nodes) → search_below ws ns ≡ paths (reach vs ns))
    → (o : Option Node) → found_in ws o ≡ paths (reached_in vs o)
found_in-eq ws vs h none = refl
found_in-eq ws vs h (some n) = h (children n)

search_below-eq : (ws : List Text) (ns : Nodes) → search_below ws ns ≡ paths (reach (trimmed ws) ns)
unfolding search_below trimmed reach
search_below-eq [] ns = refl
search_below-eq ([] ∷ []) ns = refl
search_below-eq ((c ∷ w) ∷ []) ns = found_in-eq [] [] (λ ms. refl) (find (c ∷ w) ns)
search_below-eq ([] ∷ x ∷ ws) ns =
    found_in-eq (x ∷ ws) (trimmed (x ∷ ws)) (search_below-eq (x ∷ ws)) (find [] ns)
search_below-eq ((c ∷ w) ∷ x ∷ ws) ns =
    found_in-eq (x ∷ ws) (trimmed (x ∷ ws)) (search_below-eq (x ∷ ws)) (find (c ∷ w) ns)

abbrev entry_in : Option Nodes → List Text → Option Text
entry_in none vs = none
entry_in (some ns) vs = entry vs ns

at-children :
    (n : Node) (ws : List Text) (v : Text) (vs : List Text)
    → at (some n) (ws ++ v ∷ vs) ≡ entry (ws ++ v ∷ vs) (children n)
unfolding at
at-children (node p set ns) [] v vs = refl
at-children (node p set ns) (w ∷ ws) v vs = refl

entry-reach :
    (ws : List Text) (ns : Nodes) (v : Text) (vs : List Text)
    → entry (ws ++ v ∷ vs) ns ≡ entry_in (reach ws ns) (v ∷ vs)
unfolding reach at
entry-reach [] ns v vs = refl
entry-reach (w ∷ ws) ns v vs = go (find w ns) (λ n. entry-reach ws (children n) v vs)
  where
    reached : Option Node → Option Nodes
    reached none = none
    reached (some n) = reach ws (children n)

    go :
        (o : Option Node)
        → ((n : Node)
            → entry (ws ++ v ∷ vs) (children n) ≡ entry_in (reach ws (children n)) (v ∷ vs))
        → at o (ws ++ v ∷ vs) ≡ entry_in (reached o) (v ∷ vs)
    go none step = refl
    go (some n) step = at-children n ws v vs ∙ step n

children-IsUnique : (n : Node) → IsUniqueBelow n → IsUnique (children n)
unfolding IsUnique
children-IsUnique (node p set ns) u = u

reach-IsUnique :
    (ws : List Text) (ns ms : Nodes) → IsUnique ns → reach ws ns ≡ some ms → IsUnique ms
unfolding reach
reach-IsUnique [] ns ms u e = subst IsUnique (Option.some-injective ns ms e) u
reach-IsUnique (w ∷ ws) ns ms u e = go (find w ns) refl e (λ n. reach-IsUnique ws (children n) ms)
  where
    reached : Option Node → Option Nodes
    reached none = none
    reached (some n) = reach ws (children n)

    go :
        (o : Option Node)
        → find w ns ≡ o
        → reached o ≡ some ms
        → ((n : Node) → IsUnique (children n) → reach ws (children n) ≡ some ms → IsUnique ms)
        → IsUnique ms
    go none i e step = cc
    go (some n) i e step = step n (children-IsUnique n (find-IsUnique w ns n u i)) e

-- The words that a searched path is a prefix of; a path without words has none.
abbrev pub prefix_of : List Text → Option (List Text)
prefix_of [] = none
prefix_of ([] ∷ ws) = some []
prefix_of ((c ∷ w) ∷ ws) = some ((c ∷ w) ∷ trimmed ws)

search-eq :
    (path : Text) (pre : List Text) (headers : Nodes)
    → prefix_of (words_of path) ≡ some pre
    → search path headers ≡ paths (reach pre headers)
unfolding search reach
search-eq path pre headers h = go (words_of path) h
  where
    go :
        (ws : List Text)
        → prefix_of ws ≡ some pre
        → search_words ws headers ≡ paths (reach pre headers)
    go [] h = cc
    go ([] ∷ ws) h = ap (λ x. paths (reach x headers)) (Option.some-injective [] pre h)
    go ((c ∷ w) ∷ ws) h =
        found_in-eq ws (trimmed ws) (search_below-eq ws) (find (c ∷ w) headers)
        ∙ ap (λ x. paths (reach x headers)) (Option.some-injective ((c ∷ w) ∷ trimmed ws) pre h)

-- In a trie whose nodes have one child under a word, a search finds exactly the paths below the prefix.
pub search-entry :
    (path : Text) (pre : List Text) (headers : Nodes) (m : Text)
    → IsUnique headers
    → prefix_of (words_of path) ≡ some pre
    → (Memᴰ m (search path headers)
        → (v : Text) × (vs : List Text) × (entry (pre ++ v ∷ vs) headers ≡ some m))
      × ((v : Text) (vs : List Text)
          → entry (pre ++ v ∷ vs) headers ≡ some m
          → Memᴰ m (search path headers))
search-entry path pre headers m u h =
    let same = search-eq path pre headers h in
    (
      λ f. there (reach pre headers) refl (subst (Memᴰ m) same f),
      λ v vs e.
          subst (Memᴰ m) (sym same)
            (back (reach pre headers) v vs (sym (entry-reach pre headers v vs) ∙ e)),
    )
  where
    there :
        (o : Option Nodes)
        → reach pre headers ≡ o
        → Memᴰ m (paths o)
        → (v : Text) × (vs : List Text) × (entry (pre ++ v ∷ vs) headers ≡ some m)
    there none e f = elim f [ ]
    there (some ns) e f =
        let (v, vs, i) = mem-collect_all m ns (reach-IsUnique pre headers ns u e) f in
        (v, vs, entry-reach pre headers v vs ∙ ap (λ x. entry_in x (v ∷ vs)) e ∙ i)

    back :
        (o : Option Nodes) (v : Text) (vs : List Text)
        → entry_in o (v ∷ vs) ≡ some m
        → Memᴰ m (paths o)
    back none v vs e = cc
    back (some ns) v vs e = collect_all-mem m ns v vs e
