-- ===== src/Registry/Trie.antt =====
-- registry/service.go, `word_trie`: the names of services by their words, for searches by prefix.
-- The mutexes are left out: a change is one step. A header node has the fields of a node.
pub mod Children
pub mod Entries
pub mod Deleted
pub mod Unique
pub mod Collected
pub mod Search
pub mod Index
mod Tests
use gira.Prelude.{
  ℕ, suc, Bool, true, false, not, Option, none, some, List, [], ◌∷◌, ◌++◌, eqb, ltb, length,
  if◌then◌else◌,
}
use gira.Prelude.Keys.{text_eqb}

abbrev pub Text : Type 0
Text = List ℕ

-- A node has a path, whether it is set, and children under words. (`value` is the node's own word.)
mutual
  pub data Node : Type 0 where
    node : Text → Bool → Nodes → Node

  pub data Nodes : Type 0 where
    nil : Nodes
    child : Text → Node → Nodes → Nodes

-- `nodes[v]`
unfoldable pub find : Text → Nodes → Option Node
find v nil = none
find v (child w n ns) = let rest = find v ns in if text_eqb w v then some n else rest

-- `nodes[v] = n`
unfoldable pub put : Text → Node → Nodes → Nodes
put v n nil = child v n nil
put v n (child w m ns) =
    let rest = put v n ns in if text_eqb w v then child w n ns else child w m rest

-- `delete(nodes, v)`
unfoldable pub remove : Text → Nodes → Nodes
remove v nil = nil
remove v (child w n ns) = let rest = remove v ns in if text_eqb w v then rest else child w n rest

abbrev pub or_new : Option Node → Node
or_new none = node [] false nil
or_new (some n) = n

-- The loop of `add` over the words: nodes that are missing are made.
unfoldable pub add_node : Text → List Text → Node → Node
add_node path [] (node p set ns) = node path true ns
add_node path (w ∷ words) (node p set ns) =
    node p set (put w (add_node path words (or_new (find w ns))) ns)

-- `len(c.nodes) <= 0 && !c.set`
abbrev pub is_empty : Node → Bool
is_empty (node p set nil) = not set
is_empty (node p set (child w n ns)) = false

-- The parent behind the deletion below its child.
abbrev pub pruned : Text → Node → Nodes → Nodes
pruned w c ns = if is_empty c then remove w ns else put w c ns

-- A node behind the deletion below its child: nothing is changed by an error.
abbrev pub replaced : Text → Node → Node × Bool → Node × Bool
replaced w (node p set ns) (c, true) = (node p set (pruned w c ns), true)
replaced w n (c, false) = (n, false)

-- `node.delete`: `false` is an error, of a word that is missing.
unfoldable pub delete_node : List Text → Node → Node × Bool
delete_node [] (node p set ns) = (node p false ns, true)
delete_node (w ∷ words) (node p set ns) = elim (find w ns) [
  | none ↦ (node p set ns, false)
  | some c ↦ replaced w (node p set ns) (delete_node words c)
]

-- `header.delete`, which gives no error.
unfoldable pub delete_header : List Text → Node → Node
unfolding delete_node
delete_header [] (node p set ns) = node p false ns
delete_header (w ∷ words) (node p set ns) = elim (find w ns) [
  | none ↦ node p set ns
  | some c ↦ node p set (pruned w (delete_node words c).0 ns)
]

-- `collect`: the paths of a node and those below it.
unfoldable mutual
  pub collect : Node → List Text
  collect (node p set ns) = (if set then p ∷ [] else []) ++ collect_all ns

  pub collect_all : Nodes → List Text
  collect_all nil = []
  collect_all (child w n ns) = collect n ++ collect_all ns

abbrev pub children : Node → Nodes
children (node p set ns) = ns

-- `header.search`: an empty last word is passed over.
unfoldable pub search_below : List Text → Nodes → List Text
unfolding collect
search_below [] ns = collect_all ns
search_below ([] ∷ []) ns = collect_all ns
search_below (w ∷ words) ns = elim (find w ns) [
  | none ↦ []
  | some c ↦ search_below words (children c)
]

-- `strings.Split(path, "/")`
unfoldable pub split : Text → List Text
split [] = [] ∷ []
split (c ∷ path) = elim (split path) [
  | [] ↦ [] ∷ []
  | w ∷ words ↦ if eqb c 47 then [] ∷ w ∷ words else (c ∷ w) ∷ words
]

-- Without the empty word before the first slash.
abbrev pub without_first : List Text → List Text
without_first ([] ∷ words) = words
without_first words = words

abbrev pub words_of : Text → List Text
words_of path = without_first (split path)

abbrev pub has_empty : List Text → Bool
has_empty [] = false
has_empty ([] ∷ words) = true
has_empty ((c ∷ w) ∷ words) = has_empty words

pub data Error : Type 0 where
  invalid_args todo : Error

-- `trie.add`, on the headers.
abbrev pub add_words : Text → List Text → Nodes → Nodes × Option Error
add_words path [] headers = (headers, none)
add_words path (w ∷ words) headers =
    if has_empty words
    then (headers, some invalid_args)
    else (put w (add_node path words (or_new (find w headers))) headers, none)

unfoldable pub add : Text → Nodes → Nodes × Option Error
unfolding add_node split
add path headers = add_words path (words_of path) headers

-- `trie.delete`
abbrev pub delete_words : List Text → Nodes → Nodes × Option Error
delete_words [] headers = (headers, some todo)
delete_words (w ∷ words) headers = elim (find w headers) [
  | none ↦ (headers, some todo)
  | some c ↦ (pruned w (delete_header words c) headers, none)
]

unfoldable pub delete : Text → Nodes → Nodes × Option Error
unfolding delete_header split
delete path headers = delete_words (words_of path) headers

-- `trie.search`
abbrev pub search_words : List Text → Nodes → List Text
search_words [] headers = []
search_words ([] ∷ words) headers = collect_all headers
search_words ((c ∷ w) ∷ words) headers = elim (find (c ∷ w) headers) [
  | none ↦ []
  | some n ↦ search_below words (children n)
]

unfoldable pub search : Text → Nodes → List Text
unfolding search_below split
search path headers = search_words (words_of path) headers
