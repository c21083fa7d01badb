-- ===== src/Registry/Trie/Tests.antt =====
-- Runs of the word trie, and the theorems at concrete inputs. (registry/service.go)
use gira.Prelude.{◌≡◌, refl, none, some, List, [], ◌∷◌}
use gira.Registry.Trie.{
  Text, nil, find, put, remove, add, add_node, delete, delete_node, delete_header, collect, search,
  search_below, split, invalid_args, todo,
}
use gira.Registry.Trie.Index.{Step, adds, deletes, run, trie_of}

-- "/s/a", "/s/b", "/s/" and "/s//a"
abbrev a_of_s : Text
a_of_s = 47 ∷ 115 ∷ 47 ∷ 97 ∷ []

abbrev b_of_s : Text
b_of_s = 47 ∷ 115 ∷ 47 ∷ 98 ∷ []

abbrev s_prefix : Text
s_prefix = 47 ∷ 115 ∷ 47 ∷ []

abbrev with_gap : Text
with_gap = 47 ∷ 115 ∷ 47 ∷ 47 ∷ 97 ∷ []

abbrev changes : List Step
changes = adds a_of_s ∷ adds b_of_s ∷ adds with_gap ∷ deletes a_of_s ∷ []

search-changes : search s_prefix (trie_of changes) ≡ b_of_s ∷ []
unfolding run find put remove add add_node delete delete_node delete_header collect search
    search_below split
search-changes = refl

add-with_gap : (add with_gap nil).1 ≡ some invalid_args
unfolding add split
add-with_gap = refl

delete-missing : (delete a_of_s nil).1 ≡ some todo
unfolding delete split find
delete-missing = refl

-- A word that is missing below the header is no error.
delete-missing_below : (delete b_of_s (add a_of_s nil).0).1 ≡ none
unfolding delete split find put add add_node
delete-missing_below = refl
