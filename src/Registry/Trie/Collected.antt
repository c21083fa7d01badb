-- ===== src/Registry/Trie/Collected.antt =====
-- The paths that a node collects are those set below it. (registry/service.go)
use mathlib.Core.Option
use mathlib.Core.List.{Memᴰ}
use mathlib.Core.List.Memᴰ
use gira.Prelude.{
  ◌≡◌, refl, sym, ap, ◌∙◌, ◌⊎◌, inl, inr, Bool, true, false, none, some, List, [], ◌∷◌, ◌++◌,
  if◌then◌else◌,
}
use gira.Prelude.Keys.{text_eqb, text_eqb_iff}
use gira.Registry.Trie.{Text, Node, Nodes, node, nil, child, find, collect, collect_all}
use gira.Registry.Trie.Entries.{at}
use gira.Registry.Trie.Unique.{IsUnique}

-- The path is set below these children.
abbrev pub Below : Text → Nodes → Type 0
Below m ns = (v : Text) × (vs : List Text) × (at (find v ns) vs ≡ some m)

mem-own :
    (m p : Text) (set : Bool)
    → Memᴰ m (if set then p ∷ [] else [])
    → (if set then some p else none) ≡ some m
mem-own m p true h = ap some (sym (Memᴰ.eq_of_singleton h))
mem-own m p false h = elim h [ ]

own-mem :
    (m p : Text) (set : Bool)
    → (if set then some p else none) ≡ some m
    → Memᴰ m (if set then p ∷ [] else [])
own-mem m p true h = Memᴰ.head (sym (Option.some-injective p m h))
own-mem m p false h = cc

at-first :
    (w : Text) (n : Node) (ns : Nodes) (xs : List Text)
    → at (find w (child w n ns)) xs ≡ at (some n) xs
unfolding find
at-first w n ns xs = ap (λ b. at (if b then some n else find w ns) xs) ((text_eqb_iff w w).1 refl)

at-later :
    (m w v : Text) (n : Node) (ns : Nodes) (vs : List Text)
    → find w ns ≡ none
    → at (find v ns) vs ≡ some m
    → at (find v (child w n ns)) vs ≡ some m
unfolding find at
at-later m w v n ns vs fresh h = go (text_eqb w v) refl
  where
    go : (b : Bool) → text_eqb w v ≡ b → at (if b then some n else find v ns) vs ≡ some m
    go true e =
        let gone : at (find v ns) vs ≡ none =
          ap (λ x. at (find x ns) vs) (sym ((text_eqb_iff w v).0 e)) ∙ ap (λ x. at x vs) fresh in
        cc
    go false e = h

pub mem-collect_all : (m : Text) (ns : Nodes) → IsUnique ns → Memᴰ m (collect_all ns) → Below m ns
unfolding at find collect IsUnique
mem-collect_all m nil u h = elim h [ ]
mem-collect_all m (child w (node p set ms) ns) (fresh, inner, u) h =
    go (Memᴰ.append_cases ((if set then p ∷ [] else []) ++ collect_all ms) h)
      (mem-collect_all m ms inner) (mem-collect_all m ns u)
  where
    here :
        (xs : List Text)
        → at (some (node p set ms)) xs ≡ some m
        → Below m (child w (node p set ms) ns)
    here xs e = (w, xs, at-first w (node p set ms) ns xs ∙ e)

    below : Below m ms → Below m (child w (node p set ms) ns)
    below (v, vs, e) = here (v ∷ vs) e

    later : Below m ns → Below m (child w (node p set ms) ns)
    later (v, vs, e) = (v, vs, at-later m w v (node p set ms) ns vs fresh e)

    inside :
        Memᴰ m (if set then p ∷ [] else []) ⊎ Memᴰ m (collect_all ms)
        → (Memᴰ m (collect_all ms) → Below m ms)
        → Below m (child w (node p set ms) ns)
    inside (inl h) in_child = here [] (mem-own m p set h)
    inside (inr h) in_child = below (in_child h)

    go :
        Memᴰ m ((if set then p ∷ [] else []) ++ collect_all ms) ⊎ Memᴰ m (collect_all ns)
        → (Memᴰ m (collect_all ms) → Below m ms)
        → (Memᴰ m (collect_all ns) → Below m ns)
        → Below m (child w (node p set ms) ns)
    go (inl h) in_child rest = inside (Memᴰ.append_cases (if set then p ∷ [] else []) h) in_child
    go (inr h) in_child rest = later (rest h)

pub collect_all-mem :
    (m : Text) (ns : Nodes) (v : Text) (vs : List Text)
    → at (find v ns) vs ≡ some m
    → Memᴰ m (collect_all ns)
unfolding at find collect
collect_all-mem m nil v vs h = cc
collect_all-mem m (child w (node p set ms) ns) v vs h =
    go (text_eqb w v) vs h (collect_all-mem m ms) (collect_all-mem m ns v vs)
  where
    go :
        (b : Bool) (vs : List Text)
        → at (if b then some (node p set ms) else find v ns) vs ≡ some m
        → ((x : Text) (xs : List Text) → at (find x ms) xs ≡ some m → Memᴰ m (collect_all ms))
        → (at (find v ns) vs ≡ some m → Memᴰ m (collect_all ns))
        → Memᴰ m (((if set then p ∷ [] else []) ++ collect_all ms) ++ collect_all ns)
    go true [] h in_child rest =
        Memᴰ.append_left (collect_all ns) (Memᴰ.append_left (collect_all ms) (own-mem m p set h))
    go true (x ∷ xs) h in_child rest =
        Memᴰ.append_left (collect_all ns)
          (Memᴰ.append_right (if set then p ∷ [] else []) (in_child x xs h))
    go false vs h in_child rest =
        Memᴰ.append_right ((if set then p ∷ [] else []) ++ collect_all ms) (rest h)
