-- ===== src/Gate/Server/Visits/Sessions.antt =====
-- The numbers of the sessions of a server, and which turns touch its map. (gate/server.go)
use gira.Prelude.{
  ℕ, ◌+◌, ◌<◌, ◌≤◌, ◌≡◌, ◌⊎◌, inl, inr, refl, Bool, true, false, List, ◌∷◌, ◌++◌, eqb, eqb_iff,
  arith, Bool-cases,
}
use gira.Prelude.Keys.{number_key}
use gira.Gate.Server.Visits.{
  Server, Place, entering, counted, counted_in, shaking, opening, numbering, storing, serving,
  closing, leaving, turn, turned,
}
use gira.Gate.Server.Visits.Invariant.{Inv, one, count, has_number, is_stored, count_at, count_then}

-- A turn takes a new number, or leaves every number where it is or drops it.
pub turn-has_number :
    (shaken : Bool) (s : Server) (p : Place) (n : ℕ)
    → let (t, ps) = turn shaken s p in
      ((t.sid ≡ s.sid) × (count (has_number n) ps ≤ one (has_number n p)))
      ⊎ ((t.sid ≡ s.sid + 1) × (count (has_number n) ps ≤ one (eqb (s.sid + 1) n)))
turn-has_number shaken s entering n = inl (refl, omega arith)
turn-has_number shaken s counted n = inl (refl, omega arith)
turn-has_number shaken s counted_in n = elim (Bool-cases s.has_handler) [
  | inl h ↦ rw (h) (inr (refl, omega arith))
  | inr h ↦ rw (h) (inr (refl, omega arith))
]
turn-has_number true s (shaking m) n = inl (refl, omega arith)
turn-has_number false s (shaking m) n = inl (refl, omega arith)
turn-has_number shaken s (opening m) n = inl (refl, omega arith)
turn-has_number shaken s (numbering m) n = inl (refl, omega arith)
turn-has_number shaken s (storing m) n = inl (refl, omega arith)
turn-has_number shaken s (serving m) n = inl (refl, omega arith)
turn-has_number shaken s (closing m) n = inl (refl, omega arith)
turn-has_number shaken s leaving n = inl (refl, omega arith)

-- A turn leaves the map, or it is that of a session that comes into the map or goes.
pub turn-sessions :
    (shaken : Bool) (s : Server) (p : Place)
    → (((turn shaken s p).0.sessions ≡ s.sessions)
        × ((n : ℕ) → count (is_stored n) (turn shaken s p).1 ≡ one (is_stored n p)))
      ⊎ (((m : ℕ) × (p ≡ storing m)) ⊎ ((m : ℕ) × (p ≡ closing m)))
turn-sessions shaken s entering = inl (refl, (λ n. omega arith))
turn-sessions shaken s counted = inl (refl, (λ n. omega arith))
turn-sessions shaken s counted_in = elim (Bool-cases s.has_handler) [
  | inl h ↦ inl (rw (h) refl, (λ n. rw (h) (omega arith)))
  | inr h ↦ inl (rw (h) refl, (λ n. rw (h) (omega arith)))
]
turn-sessions true s (shaking m) = inl (refl, (λ n. omega arith))
turn-sessions false s (shaking m) = inl (refl, (λ n. omega arith))
turn-sessions shaken s (opening m) = inl (refl, (λ n. omega arith))
turn-sessions shaken s (numbering m) = inl (refl, (λ n. omega arith))
turn-sessions shaken s (storing m) = inr (inl (m, refl))
turn-sessions shaken s (serving m) = inl (refl, (λ n. omega arith))
turn-sessions shaken s (closing m) = inr (inr (m, refl))
turn-sessions shaken s leaving = inl (refl, (λ n. omega arith))

pub turn-modifer :
    (shaken : Bool) (s : Server) (p : Place)
    → (turn shaken s p).0.session_modifer ≡ s.session_modifer
turn-modifer true s (shaking m) = refl
turn-modifer false s (shaking m) = refl
turn-modifer shaken s entering = refl
turn-modifer shaken s counted = refl
turn-modifer shaken s counted_in = elim (Bool-cases s.has_handler) [
  | inl h ↦ rw (h) refl
  | inr h ↦ rw (h) refl
]
turn-modifer shaken s (opening m) = refl
turn-modifer shaken s (numbering m) = refl
turn-modifer shaken s (storing m) = refl
turn-modifer shaken s (serving m) = refl
turn-modifer shaken s (closing m) = refl
turn-modifer shaken s leaving = refl

module _ (s : Server) (inv : Inv s) (shaken : Bool) (before : List Place) (p : Place)
    (after : List Place) (e : s.visits ≡ before ++ p ∷ after) where
  abbrev t : Server
  t = turned shaken s before p after

  pub turned-numbers : (n : ℕ) → t.sid < n → count (has_number n) t.visits ≡ 0
  turned-numbers n l = ground (
    arith,
    inv.numbers n,
    turn-has_number shaken s p n,
    count_at (has_number n) before after p e,
    count_then (has_number n) before after (turn shaken s p).1,
    eqb_iff (s.sid + 1) n,
  )

  pub turned_unique : (n : ℕ) → count (has_number n) t.visits ≤ 1
  turned_unique n = ground (
    arith,
    inv.numbers n,
    inv.unique n,
    turn-has_number shaken s p n,
    count_at (has_number n) before after p e,
    count_then (has_number n) before after (turn shaken s p).1,
    eqb_iff (s.sid + 1) n,
  )
