-- ===== src/Registry/Trie/Entries.antt =====
-- A trie as a map from lists of words to paths, and what adding and deleting make of this map.
-- (registry/service.go)
use gira.Prelude.{
  ◌≡◌, ◌↔◌, refl, ap, ◌∙◌, Bool, true, false, ◌&&◌, Option, none, some, List, [], ◌∷◌,
  if◌then◌else◌, arith,
}
use gira.Prelude.Keys.{text_eqb, text_eqb_iff}
use gira.Registry.Trie.{
  Text, Node, Nodes, node, nil, child, find, put, or_new, add_node, is_empty, add_words, add,
  words_of, has_empty, Error, invalid_args,
}
use gira.Registry.Trie.Children.{find-put}

abbrev pub words_eqb : List Text → List Text → Bool
words_eqb [] [] = true
words_eqb [] (v ∷ vs) = false
words_eqb (w ∷ ws) [] = false
words_eqb (w ∷ ws) (v ∷ vs) = text_eqb w v && words_eqb ws vs

pub words_eqb_iff : (ws vs : List Text) → (words_eqb ws vs ≡ true) ↔ (ws ≡ vs)
words_eqb_iff [] [] = (λ h. refl, λ h. refl)
words_eqb_iff [] (v ∷ vs) = (λ h. cc, λ h. cc)
words_eqb_iff (w ∷ ws) [] = (λ h. cc, λ h. cc)
words_eqb_iff (w ∷ ws) (v ∷ vs) = ground (arith, text_eqb_iff w v, words_eqb_iff ws vs)

-- The path that is set at the end of these words.
unfoldable pub at : Option Node → List Text → Option Text
at none vs = none
at (some (node p set ns)) [] = if set then some p else none
at (some (node p set ns)) (v ∷ vs) = at (find v ns) vs

at-new : (vs : List Text) → at (some (or_new none)) vs ≡ none
unfolding at find
at-new [] = refl
at-new (v ∷ vs) = refl

at-or_new : (c : Option Node) (vs : List Text) → at (some (or_new c)) vs ≡ at c vs
unfolding at
at-or_new none vs = at-new vs
at-or_new (some c) vs = refl

pub at-is_empty : (c : Node) (vs : List Text) → is_empty c ≡ true → at (some c) vs ≡ none
unfolding at find
at-is_empty (node p true nil) vs h = cc
at-is_empty (node p false nil) [] h = refl
at-is_empty (node p false nil) (v ∷ vs) h = refl
at-is_empty (node p set (child w n ns)) vs h = cc

-- What adding below a child makes of the paths below the parent.
added-at :
    (path w v : Text) (ws vs : List Text) (ns : Nodes)
    → at (some (add_node path ws (or_new (find w ns)))) vs
      ≡ (if words_eqb ws vs then some path else at (some (or_new (find w ns))) vs)
    → at (find v (put w (add_node path ws (or_new (find w ns))) ns)) vs
      ≡ (if text_eqb w v && words_eqb ws vs then some path else at (find v ns) vs)
added-at path w v ws vs ns below =
    ap (λ c. at c vs) (find-put v w (add_node path ws (or_new (find w ns))) ns)
    ∙ go (text_eqb w v) refl
        (below ∙ ap (λ x. if words_eqb ws vs then some path else x) (at-or_new (find w ns) vs))
  where
    go :
        (b : Bool)
        → text_eqb w v ≡ b
        → at (some (add_node path ws (or_new (find w ns)))) vs
          ≡ (if words_eqb ws vs then some path else at (find w ns) vs)
        → at (if b then some (add_node path ws (or_new (find w ns))) else find v ns) vs
          ≡ (if b && words_eqb ws vs then some path else at (find v ns) vs)
    go true e h =
        h
        ∙ ap (λ x. if words_eqb ws vs then some path else at (find x ns) vs)
            ((text_eqb_iff w v).0 e)
    go false e h = refl

at-add_node :
    (path : Text) (ws vs : List Text) (n : Node)
    → at (some (add_node path ws n)) vs ≡ (if words_eqb ws vs then some path else at (some n) vs)
unfolding add_node at
at-add_node path [] [] (node p set ns) = refl
at-add_node path [] (v ∷ vs) (node p set ns) = refl
at-add_node path (w ∷ ws) [] (node p set ns) = refl
at-add_node path (w ∷ ws) (v ∷ vs) (node p set ns) =
    added-at path w v ws vs ns (at-add_node path ws vs (or_new (find w ns)))

-- The path that a trie has under these words.
abbrev pub entry : List Text → Nodes → Option Text
entry [] headers = none
entry (v ∷ vs) headers = at (find v headers) vs

-- Adding without an error sets the path of these words and leaves all others as they are.
pub entry-add :
    (path : Text) (headers : Nodes) (v : Text) (vs : List Text)
    → (add path headers).1 ≡ none
    → entry (v ∷ vs) (add path headers).0
      ≡ (if words_eqb (words_of path) (v ∷ vs) then some path else entry (v ∷ vs) headers)
unfolding add
entry-add path headers v vs h = go (words_of path) h
  where
    answer : Bool → Nodes → Nodes × Option Error
    answer b changed = if b then (headers, some invalid_args) else (changed, none)

    rejected-or :
        (b : Bool) (w : Text) (ws : List Text) (changed : Nodes)
        → (answer b changed).1 ≡ none
        → entry (v ∷ vs) changed
          ≡ (if words_eqb (w ∷ ws) (v ∷ vs) then some path else entry (v ∷ vs) headers)
        → entry (v ∷ vs) (answer b changed).0
          ≡ (if words_eqb (w ∷ ws) (v ∷ vs) then some path else entry (v ∷ vs) headers)
    rejected-or true w ws changed h e = cc
    rejected-or false w ws changed h e = e

    go :
        (ws : List Text)
        → (add_words path ws headers).1 ≡ none
        → entry (v ∷ vs) (add_words path ws headers).0
          ≡ (if words_eqb ws (v ∷ vs) then some path else entry (v ∷ vs) headers)
    go [] h = refl
    go (w ∷ ws) h =
        rejected-or (has_empty ws) w ws (put w (add_node path ws (or_new (find w headers))) headers)
          h (added-at path w v ws vs headers (at-add_node path ws vs (or_new (find w headers))))
