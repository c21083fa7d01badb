-- ===== src/Registry/Trie/Deleted.antt =====
-- What deleting makes of the paths of a trie. (registry/service.go)
use gira.Prelude.{
  ◌≡◌, refl, sym, ap, ◌∙◌, inl, inr, Bool, true, false, ◌&&◌, Option, none, some, List, [], ◌∷◌,
  if◌then◌else◌, arith, Bool-cases,
}
use gira.Prelude.Keys.{text_eqb, text_eqb_iff}
use gira.Registry.Trie.{
  Text, Node, Nodes, node, find, put, remove, is_empty, pruned, delete_node, delete_header,
  replaced, delete_words, delete, words_of, Error, todo,
}
use gira.Registry.Trie.Children.{find-put, find-remove}
use gira.Registry.Trie.Entries.{words_eqb, at, at-is_empty, entry}

at-if :
    (b : Bool) (c d : Option Node) (vs : List Text)
    → at (if b then c else d) vs ≡ (if b then at c vs else at d vs)
at-if true c d vs = refl
at-if false c d vs = refl

at-pruned :
    (v w : Text) (c : Node) (ns : Nodes) (vs : List Text)
    → at (find v (pruned w c ns)) vs ≡ (if text_eqb w v then at (some c) vs else at (find v ns) vs)
unfolding at
at-pruned v w c ns vs = go (is_empty c) refl
  where
    go :
        (b : Bool)
        → is_empty c ≡ b
        → at (find v (if b then remove w ns else put w c ns)) vs
          ≡ (if text_eqb w v then at (some c) vs else at (find v ns) vs)
    go true e =
        ap (λ x. at x vs) (find-remove v w ns)
        ∙ at-if (text_eqb w v) none (find v ns) vs
        ∙ ap (λ x. if text_eqb w v then x else at (find v ns) vs) (sym (at-is_empty c vs e))
    go false e =
        ap (λ x. at x vs) (find-put v w c ns) ∙ at-if (text_eqb w v) (some c) (find v ns) vs

-- What deleting below a child makes of the paths below the parent.
module _ (w v : Text) (ws vs : List Text) (ns : Nodes) where
  same-at : text_eqb w v ≡ true → at (find w ns) vs ≡ at (find v ns) vs
  same-at h = ap (λ x. at (find x ns) vs) ((text_eqb_iff w v).0 h)

  missing-at :
      find w ns ≡ none
      → at (find v ns) vs ≡ (if text_eqb w v && words_eqb ws vs then none else at (find v ns) vs)
  unfolding at
  missing-at e =
      let gone : at (find w ns) vs ≡ none = ap (λ x. at x vs) e in
      elim (Bool-cases (text_eqb w v)) [
        | inl h ↦ (let s = same-at h in ground arith)
        | inr h ↦ ground arith
      ]

  failed-at :
      (c : Node)
      → find w ns ≡ some c
      → at (some c) vs ≡ (if words_eqb ws vs then none else at (some c) vs)
      → at (find v ns) vs ≡ (if text_eqb w v && words_eqb ws vs then none else at (find v ns) vs)
  failed-at c e h =
      let found : at (find w ns) vs ≡ at (some c) vs = ap (λ x. at x vs) e in
      elim (Bool-cases (text_eqb w v)) [
        | inl i ↦ (let s = same-at i in ground arith)
        | inr i ↦ ground arith
      ]

  deleted-at :
      (c c' : Node)
      → find w ns ≡ some c
      → at (some c') vs ≡ (if words_eqb ws vs then none else at (some c) vs)
      → at (find v (pruned w c' ns)) vs
        ≡ (if text_eqb w v && words_eqb ws vs then none else at (find v ns) vs)
  deleted-at c c' e h =
      let found : at (find w ns) vs ≡ at (some c) vs = ap (λ x. at x vs) e in
      let step = at-pruned v w c' ns vs in
      elim (Bool-cases (text_eqb w v)) [
        | inl i ↦ (let s = same-at i in ground arith)
        | inr i ↦ ground arith
      ]

delete_node-fails :
    (ws : List Text) (n : Node) → (delete_node ws n).1 ≡ false → (delete_node ws n).0 ≡ n
unfolding delete_node
delete_node-fails [] (node p set ns) h = cc
delete_node-fails (w ∷ ws) (node p set ns) h = go (find w ns) h
  where
    below :
        (r : Node × Bool)
        → (replaced w (node p set ns) r).1 ≡ false
        → (replaced w (node p set ns) r).0 ≡ node p set ns
    below (c, true) h = cc
    below (c, false) h = refl

    result : Option Node → Node × Bool
    result none = (node p set ns, false)
    result (some c) = replaced w (node p set ns) (delete_node ws c)

    go : (o : Option Node) → (result o).1 ≡ false → (result o).0 ≡ node p set ns
    go none h = refl
    go (some c) h = below (delete_node ws c) h

-- A deletion that fails changes nothing, so the words had no path.
pub at-delete_node :
    (ws vs : List Text) (n : Node)
    → at (some (delete_node ws n).0) vs ≡ (if words_eqb ws vs then none else at (some n) vs)
unfolding delete_node at
at-delete_node [] [] (node p set ns) = refl
at-delete_node [] (v ∷ vs) (node p set ns) = refl
at-delete_node (w ∷ ws) [] (node p set ns) = go (find w ns)
  where
    below :
        (r : Node × Bool)
        → at (some (replaced w (node p set ns) r).0) [] ≡ (if set then some p else none)
    below (c, true) = refl
    below (c, false) = refl

    result : Option Node → Node × Bool
    result none = (node p set ns, false)
    result (some c) = replaced w (node p set ns) (delete_node ws c)

    go : (o : Option Node) → at (some (result o).0) [] ≡ (if set then some p else none)
    go none = refl
    go (some c) = below (delete_node ws c)
at-delete_node (w ∷ ws) (v ∷ vs) (node p set ns) = go (find w ns) refl (λ c. at-delete_node ws vs c)
  where
    result : Option Node → Node × Bool
    result none = (node p set ns, false)
    result (some c) = replaced w (node p set ns) (delete_node ws c)

    below :
        (c : Node) (r : Node × Bool)
        → find w ns ≡ some c
        → (r.1 ≡ false → r.0 ≡ c)
        → at (some r.0) vs ≡ (if words_eqb ws vs then none else at (some c) vs)
        → at (some (replaced w (node p set ns) r).0) (v ∷ vs)
          ≡ (if text_eqb w v && words_eqb ws vs then none else at (find v ns) vs)
    below c (c', true) e same h = deleted-at w v ws vs ns c c' e h
    below c (c', false) e same h =
        failed-at w v ws vs ns c e (ap (λ x. at (some x) vs) (sym (same refl)) ∙ h)

    go :
        (o : Option Node)
        → find w ns ≡ o
        → ((c : Node)
            → at (some (delete_node ws c).0) vs
              ≡ (if words_eqb ws vs then none else at (some c) vs))
        → at (some (result o).0) (v ∷ vs)
          ≡ (if text_eqb w v && words_eqb ws vs then none else at (find v ns) vs)
    go none e step = missing-at w v ws vs ns e
    go (some c) e step = below c (delete_node ws c) e (delete_node-fails ws c) (step c)

pub at-delete_header :
    (ws vs : List Text) (n : Node)
    → at (some (delete_header ws n)) vs ≡ (if words_eqb ws vs then none else at (some n) vs)
unfolding delete_header at
at-delete_header [] [] (node p set ns) = refl
at-delete_header [] (v ∷ vs) (node p set ns) = refl
at-delete_header (w ∷ ws) [] (node p set ns) = go (find w ns)
  where
    result : Option Node → Node
    result none = node p set ns
    result (some c) = node p set (pruned w (delete_node ws c).0 ns)

    go : (o : Option Node) → at (some (result o)) [] ≡ (if set then some p else none)
    go none = refl
    go (some c) = refl
at-delete_header (w ∷ ws) (v ∷ vs) (node p set ns) = go (find w ns) refl
  where
    result : Option Node → Node
    result none = node p set ns
    result (some c) = node p set (pruned w (delete_node ws c).0 ns)

    go :
        (o : Option Node)
        → find w ns ≡ o
        → at (some (result o)) (v ∷ vs)
          ≡ (if text_eqb w v && words_eqb ws vs then none else at (find v ns) vs)
    go none e = missing-at w v ws vs ns e
    go (some c) e = deleted-at w v ws vs ns c (delete_node ws c).0 e (at-delete_node ws vs c)

-- Deleting takes the path of these words away and leaves all others as they are.
pub entry-delete :
    (path : Text) (headers : Nodes) (vs : List Text)
    → entry vs (delete path headers).0
      ≡ (if words_eqb (words_of path) vs then none else entry vs headers)
unfolding delete
entry-delete path headers vs = go (words_of path) vs
  where
    result : List Text → Text → Option Node → Nodes × Option Error
    result ws w none = (headers, some todo)
    result ws w (some c) = (pruned w (delete_header ws c) headers, none)

    below :
        (w v : Text) (ws vs : List Text) (o : Option Node)
        → find w headers ≡ o
        → at (find v (result ws w o).0) vs
          ≡ (if text_eqb w v && words_eqb ws vs then none else at (find v headers) vs)
    below w v ws vs none e = missing-at w v ws vs headers e
    below w v ws vs (some c) e =
        deleted-at w v ws vs headers c (delete_header ws c) e (at-delete_header ws vs c)

    go :
        (ws vs : List Text)
        → entry vs (delete_words ws headers).0
          ≡ (if words_eqb ws vs then none else entry vs headers)
    go [] [] = refl
    go [] (v ∷ vs) = refl
    go (w ∷ ws) [] = refl
    go (w ∷ ws) (v ∷ vs) = below w v ws vs (find w headers) refl
