-- ===== src/Registry/Trie/Children.antt =====
-- The children of a node as a map from words. (registry/service.go)
use gira.Prelude.{◌≡◌, refl, none, some, if◌then◌else◌, arith}
use gira.Prelude.Keys.{text_eqb, text_eqb_iff}
use gira.Registry.Trie.{Text, Node, Nodes, nil, child, find, put, remove}

pub find-put :
    (v w : Text) (n : Node) (ns : Nodes)
    → find v (put w n ns) ≡ (if text_eqb w v then some n else find v ns)
unfolding find put
find-put v w n nil = refl
find-put v w n (child u m ns) =
    ground (arith, text_eqb_iff u v, text_eqb_iff u w, text_eqb_iff w v, find-put v w n ns)

pub find-remove :
    (v w : Text) (ns : Nodes) → find v (remove w ns) ≡ (if text_eqb w v then none else find v ns)
unfolding find remove
find-remove v w nil = ground arith
find-remove v w (child u m ns) =
    ground (arith, text_eqb_iff u v, text_eqb_iff u w, text_eqb_iff w v, find-remove v w ns)
