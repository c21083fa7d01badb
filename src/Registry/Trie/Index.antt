-- ===== src/Registry/Trie/Index.antt =====
-- A trie behind any changes against the map from words to paths that it stands for.
-- (registry/service.go)
use gira.Prelude.{
  ◌≡◌, refl, ap, ◌∙◌, Bool, true, false, Option, none, some, List, [], ◌∷◌, if◌then◌else◌,
}
use gira.Registry.Trie.{find, Text, Nodes, nil, add, add_words, delete, words_of, has_empty}
use gira.Registry.Trie.Entries.{at, words_eqb, entry, entry-add}
use gira.Registry.Trie.Deleted.{entry-delete}

pub data Step : Type 0 where
  adds deletes : Text → Step

abbrev pub after : Step → Nodes → Nodes
after (adds path) t = (add path t).0
after (deletes path) t = (delete path t).0

unfoldable pub run : List Step → Nodes → Nodes
run [] t = t
run (s ∷ ss) t = run ss (after s t)

-- An empty word behind the first.
abbrev pub has_gap : List Text → Bool
has_gap [] = false
has_gap (w ∷ ws) = has_empty ws

abbrev pub Index : Type 0
Index = List Text → Option Text

-- The changes of a map from words to paths.
abbrev pub changed : Step → Index → Index
changed (adds path) f vs =
    if has_gap (words_of path)
    then f vs
    else if words_eqb (words_of path) vs
    then some path
    else f vs
changed (deletes path) f vs = if words_eqb (words_of path) vs then none else f vs

unfoldable pub history : List Step → Index → Index
history [] f = f
history (s ∷ ss) f = history ss (changed s f)

add-has_gap : (path : Text) (t : Nodes) → has_gap (words_of path) ≡ true → (add path t).0 ≡ t
unfolding add
add-has_gap path t h = go (words_of path) h
  where
    go : (ws : List Text) → has_gap ws ≡ true → (add_words path ws t).0 ≡ t
    go [] h = refl
    go (w ∷ ws) h = let g : has_empty ws ≡ true = h in rw g refl

add_succeeds : (path : Text) (t : Nodes) → has_gap (words_of path) ≡ false → (add path t).1 ≡ none
unfolding add
add_succeeds path t h = go (words_of path) h
  where
    go : (ws : List Text) → has_gap ws ≡ false → (add_words path ws t).1 ≡ none
    go [] h = refl
    go (w ∷ ws) h = let g : has_empty ws ≡ false = h in rw g refl

Shows : Nodes → Index → Type 0
Shows t f = (v : Text) (vs : List Text) → entry (v ∷ vs) t ≡ f (v ∷ vs)

after-Shows : (s : Step) (t : Nodes) (f : Index) → Shows t f → Shows (after s t) (changed s f)
unfolding Shows
after-Shows (adds path) t f h v vs = go (has_gap (words_of path)) refl
  where
    go :
        (b : Bool)
        → has_gap (words_of path) ≡ b
        → entry (v ∷ vs) (add path t).0 ≡ (
            if b
            then f (v ∷ vs)
            else if words_eqb (words_of path) (v ∷ vs)
            then some path
            else f (v ∷ vs))
    go true e = ap (λ x. entry (v ∷ vs) x) (add-has_gap path t e) ∙ h v vs
    go false e =
        entry-add path t v vs (add_succeeds path t e)
        ∙ ap (λ x. if words_eqb (words_of path) (v ∷ vs) then some path else x) (h v vs)
after-Shows (deletes path) t f h v vs =
    entry-delete path t (v ∷ vs)
    ∙ ap (λ x. if words_eqb (words_of path) (v ∷ vs) then none else x) (h v vs)

run-Shows : (ss : List Step) (t : Nodes) (f : Index) → Shows t f → Shows (run ss t) (history ss f)
unfolding run history
run-Shows [] t f h = h
run-Shows (s ∷ ss) t f h = run-Shows ss (after s t) (changed s f) (after-Shows s t f h)

-- The trie behind these changes of the empty one.
abbrev pub trie_of : List Step → Nodes
trie_of ss = run ss nil

-- The paths behind these changes, by their words.
abbrev pub index_of : List Step → Index
index_of ss = history ss (λ vs. none)

Shows-nil : Shows nil (λ vs. none)
unfolding at find Shows
Shows-nil v vs = refl

-- Behind any changes of the empty trie, it has the paths that the same changes leave in the map.
pub entry-trie_of :
    (ss : List Step) (v : Text) (vs : List Text)
    → entry (v ∷ vs) (trie_of ss) ≡ index_of ss (v ∷ vs)
unfolding Shows
entry-trie_of ss v vs = run-Shows ss nil (λ vs. none) Shows-nil v vs
