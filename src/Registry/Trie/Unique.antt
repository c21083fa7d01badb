-- ===== src/Registry/Trie/Unique.antt =====
-- A node has one child under a word: adding and deleting keep this. (registry/service.go)
use mathlib.Core.Option
use gira.Prelude.{
  ◌≡◌, refl, subst, Bool, true, false, Option, none, some, List, [], ◌∷◌, if◌then◌else◌, arith,
}
use gira.Prelude.Keys.{text_eqb, text_eqb_iff}
use gira.Registry.Trie.{
  Text, Node, Nodes, node, nil, child, find, put, remove, or_new, add_node, is_empty, pruned,
  delete_node, delete_header, replaced, add_words, add, delete_words, delete, words_of, has_empty,
  Error, invalid_args, todo,
}
use gira.Registry.Trie.Children.{find-put, find-remove}

unfoldable mutual
  pub IsUnique : Nodes → Type 0
  IsUnique nil = Unit
  IsUnique (child w n ns) = (find w ns ≡ none) × IsUniqueBelow n × IsUnique ns

  pub IsUniqueBelow : Node → Type 0
  IsUniqueBelow (node p set ns) = IsUnique ns

pub find-IsUnique :
    (w : Text) (ns : Nodes) (c : Node) → IsUnique ns → find w ns ≡ some c → IsUniqueBelow c
unfolding find IsUnique
find-IsUnique w nil c u e = cc
find-IsUnique w (child x n ns) c (_, below, u) e = go (text_eqb x w) e (find-IsUnique w ns c u)
  where
    go :
        (b : Bool)
        → (if b then some n else find w ns) ≡ some c
        → (find w ns ≡ some c → IsUniqueBelow c)
        → IsUniqueBelow c
    go true e rest = subst IsUniqueBelow (Option.some-injective n c e) below
    go false e rest = rest e

put-IsUnique :
    (w : Text) (n : Node) (ns : Nodes) → IsUniqueBelow n → IsUnique ns → IsUnique (put w n ns)
unfolding find put IsUnique
put-IsUnique w n nil h u = (refl, h, tt)
put-IsUnique w n (child x m ns) h (fresh, below, u) =
    go (text_eqb x w) refl (put-IsUnique w n ns h u)
  where
    go :
        (b : Bool)
        → text_eqb x w ≡ b
        → IsUnique (put w n ns)
        → IsUnique (if b then child x n ns else child x m (put w n ns))
    go true e rest = (fresh, h, u)
    go false e rest =
        (ground (arith, find-put x w n ns, text_eqb_iff x w, text_eqb_iff w x), below, rest)

remove-IsUnique : (w : Text) (ns : Nodes) → IsUnique ns → IsUnique (remove w ns)
unfolding find remove IsUnique
remove-IsUnique w nil u = tt
remove-IsUnique w (child x m ns) (fresh, below, u) = go (text_eqb x w) (remove-IsUnique w ns u)
  where
    go :
        (b : Bool)
        → IsUnique (remove w ns)
        → IsUnique (if b then remove w ns else child x m (remove w ns))
    go true rest = rest
    go false rest = (ground (arith, find-remove x w ns), below, rest)

or_new-IsUnique : (w : Text) (ns : Nodes) → IsUnique ns → IsUniqueBelow (or_new (find w ns))
unfolding IsUnique
or_new-IsUnique w ns u = go (find w ns) refl
  where
    go : (o : Option Node) → find w ns ≡ o → IsUniqueBelow (or_new o)
    go none e = tt
    go (some c) e = find-IsUnique w ns c u e

add_node-IsUnique :
    (path : Text) (ws : List Text) (n : Node) → IsUniqueBelow n → IsUniqueBelow (add_node path ws n)
unfolding add_node IsUnique
add_node-IsUnique path [] (node p set ns) u = u
add_node-IsUnique path (w ∷ ws) (node p set ns) u =
    put-IsUnique w (add_node path ws (or_new (find w ns))) ns
      (add_node-IsUnique path ws (or_new (find w ns)) (or_new-IsUnique w ns u)) u

pruned-IsUnique :
    (w : Text) (c : Node) (ns : Nodes) → IsUniqueBelow c → IsUnique ns → IsUnique (pruned w c ns)
pruned-IsUnique w c ns h u = go (is_empty c)
  where
    go : (b : Bool) → IsUnique (if b then remove w ns else put w c ns)
    go true = remove-IsUnique w ns u
    go false = put-IsUnique w c ns h u

delete_node-IsUnique :
    (ws : List Text) (n : Node) → IsUniqueBelow n → IsUniqueBelow (delete_node ws n).0
unfolding delete_node IsUnique
delete_node-IsUnique [] (node p set ns) u = u
delete_node-IsUnique (w ∷ ws) (node p set ns) u =
    go (find w ns) refl (λ c. delete_node-IsUnique ws c)
  where
    result : Option Node → Node × Bool
    result none = (node p set ns, false)
    result (some c) = replaced w (node p set ns) (delete_node ws c)

    below : (r : Node × Bool) → IsUniqueBelow r.0 → IsUniqueBelow (replaced w (node p set ns) r).0
    below (c, true) h = pruned-IsUnique w c ns h u
    below (c, false) h = u

    go :
        (o : Option Node)
        → find w ns ≡ o
        → ((c : Node) → IsUniqueBelow c → IsUniqueBelow (delete_node ws c).0)
        → IsUniqueBelow (result o).0
    go none e step = u
    go (some c) e step = below (delete_node ws c) (step c (find-IsUnique w ns c u e))

delete_header-IsUnique :
    (ws : List Text) (n : Node) → IsUniqueBelow n → IsUniqueBelow (delete_header ws n)
unfolding delete_header IsUnique
delete_header-IsUnique [] (node p set ns) u = u
delete_header-IsUnique (w ∷ ws) (node p set ns) u = go (find w ns) refl
  where
    result : Option Node → Node
    result none = node p set ns
    result (some c) = node p set (pruned w (delete_node ws c).0 ns)

    go : (o : Option Node) → find w ns ≡ o → IsUniqueBelow (result o)
    go none e = u
    go (some c) e =
        pruned-IsUnique w (delete_node ws c).0 ns
          (delete_node-IsUnique ws c (find-IsUnique w ns c u e)) u

pub add-IsUnique :
    (path : Text) (headers : Nodes) → IsUnique headers → IsUnique (add path headers).0
unfolding add
add-IsUnique path headers u = go (words_of path)
  where
    answer : Bool → Nodes → Nodes × Option Error
    answer b changed = if b then (headers, some invalid_args) else (changed, none)

    rejected-or : (b : Bool) (changed : Nodes) → IsUnique changed → IsUnique (answer b changed).0
    rejected-or true changed h = u
    rejected-or false changed h = h

    go : (ws : List Text) → IsUnique (add_words path ws headers).0
    go [] = u
    go (w ∷ ws) =
        let made = add_node path ws (or_new (find w headers)) in
        rejected-or (has_empty ws) (put w made headers) (
          put-IsUnique w made headers
            (add_node-IsUnique path ws (or_new (find w headers)) (or_new-IsUnique w headers u)) u)

pub delete-IsUnique :
    (path : Text) (headers : Nodes) → IsUnique headers → IsUnique (delete path headers).0
unfolding delete
delete-IsUnique path headers u = go (words_of path)
  where
    result : List Text → Text → Option Node → Nodes × Option Error
    result ws w none = (headers, some todo)
    result ws w (some c) = (pruned w (delete_header ws c) headers, none)

    below :
        (ws : List Text) (w : Text) (o : Option Node)
        → find w headers ≡ o
        → IsUnique (result ws w o).0
    below ws w none e = u
    below ws w (some c) e =
        pruned-IsUnique w (delete_header ws c) headers
          (delete_header-IsUnique ws c (find-IsUnique w headers c u e)) u

    go : (ws : List Text) → IsUnique (delete_words ws headers).0
    go [] = u
    go (w ∷ ws) = below ws w (find w headers) refl
