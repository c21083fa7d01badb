-- ===== src/Gate/Server/Visits/Invariant.antt =====
-- What holds of a server at any time: its counters, and its map of sessions. (gate/server.go)
use gira.Prelude.{
  ℕ, ◌+◌, ◌<◌, ◌≤◌, ◌≡◌, ap, ◌∙◌, Bool-cases, inl, inr, Bool, true, false, some, List, [], ◌∷◌,
  ◌++◌, eqb, arith,
}
use gira.Prelude.Keys.{lookup, number_key}
use gira.Gate.Server.Visits.{
  Server, Place, entering, counted, counted_in, shaking, opening, numbering, storing, serving,
  closing, leaving, turn, turned, id_of,
}

abbrev pub one : Bool → ℕ
one true = 1
one false = 0

-- How many connections are at such a place.
abbrev pub count : (Place → Bool) → List Place → ℕ
count f [] = 0
count f (p ∷ ps) = one (f p) + count f ps

pub count-append :
    (f : Place → Bool) (ps qs : List Place) → count f (ps ++ qs) ≡ count f ps + count f qs
count-append f [] qs = omega arith
count-append f (p ∷ ps) qs = omega (arith, count-append f ps qs)

-- Between the two changes of `ActiveConnectionCount`.
abbrev pub is_active : Place → Bool
is_active entering = false
is_active counted = false
is_active p = true

-- Between the two changes of `ActiveSessionCount`.
abbrev pub is_session : Place → Bool
is_session (numbering n) = true
is_session (storing n) = true
is_session (serving n) = true
is_session p = false

-- Counted as a connection, and not yet as a session, an error or an unserved one.
abbrev pub is_undecided : Place → Bool
is_undecided counted = true
is_undecided counted_in = true
is_undecided (shaking n) = true
is_undecided (opening n) = true
is_undecided (numbering n) = true
is_undecided p = false

-- With its session, the number n.
abbrev pub has_number : ℕ → Place → Bool
has_number n (shaking m) = eqb m n
has_number n (opening m) = eqb m n
has_number n (numbering m) = eqb m n
has_number n (storing m) = eqb m n
has_number n (serving m) = eqb m n
has_number n (closing m) = eqb m n
has_number n p = false

-- And with that session in the map.
abbrev pub is_stored : ℕ → Place → Bool
is_stored n (serving m) = eqb m n
is_stored n (closing m) = eqb m n
is_stored n p = false

pub record Inv (s : Server) : Type 0 where
  pub active : s.active_connections ≡ count is_active s.visits
  pub in_session : s.active_sessions ≡ count is_session s.visits
  pub decided :
      s.cumulative_connections
      ≡ s.cumulative_sessions + s.handshake_errors + s.unserved + count is_undecided s.visits
  pub numbers : (n : ℕ) → s.sid < n → count (has_number n) s.visits ≡ 0
  pub unique : (n : ℕ) → count (has_number n) s.visits ≤ 1
  pub found :
      (n : ℕ)
      → count (is_stored n) s.visits ≡ 1
      → lookup (id_of s.session_modifer n) s.sessions ≡ some n
  pub kept :
      (k n : ℕ)
      → lookup k s.sessions ≡ some n
      → (k ≡ id_of s.session_modifer n) × (count (is_stored n) s.visits ≡ 1)

pub is_stored-has_number :
    (n : ℕ) (ps : List Place) → count (is_stored n) ps ≤ count (has_number n) ps
is_stored-has_number n [] = omega arith
is_stored-has_number n (p ∷ ps) = omega (arith, at p, is_stored-has_number n ps)
  where
    at : (p : Place) → one (is_stored n p) ≤ one (has_number n p)
    at entering = omega arith
    at counted = omega arith
    at counted_in = omega arith
    at (shaking m) = omega arith
    at (opening m) = omega arith
    at (numbering m) = omega arith
    at (storing m) = omega arith
    at (serving m) = omega arith
    at (closing m) = omega arith
    at leaving = omega arith

module _ (f : Place → Bool) (before after : List Place) where
  pub count_at :
      {visits : List Place} (p : Place)
      → visits ≡ before ++ p ∷ after
      → count f visits ≡ count f before + (one (f p) + count f after)
  count_at p e = ap (count f) e ∙ count-append f before (p ∷ after)

  pub count_then :
      (ps : List Place)
      → count f (before ++ (ps ++ after)) ≡ count f before + (count f ps + count f after)
  count_then ps = omega (arith, count-append f before (ps ++ after), count-append f ps after)

-- What a turn changes is what the counters change by.
abbrev Balanced : Server → Place → Server × List Place → Type 0
Balanced s p (t, ps) =
    (t.active_connections + one (is_active p) ≡ s.active_connections + count is_active ps)
    × (t.active_sessions + one (is_session p) ≡ s.active_sessions + count is_session ps)
    × (t.cumulative_connections
          + s.cumulative_sessions
          + s.handshake_errors
          + s.unserved
          + one (is_undecided p)
        ≡ s.cumulative_connections
          + t.cumulative_sessions
          + t.handshake_errors
          + t.unserved
          + count is_undecided ps)

turn-Balanced :
    (shaken : Bool) (s : Server) (p : Place)
    → one (is_active p) ≤ s.active_connections
    → one (is_session p) ≤ s.active_sessions
    → Balanced s p (turn shaken s p)
turn-Balanced shaken s entering a b = (omega arith, omega arith, omega arith)
turn-Balanced shaken s counted a b = (omega arith, omega arith, omega arith)
turn-Balanced shaken s counted_in a b = elim (Bool-cases s.has_handler) [
  | inl h ↦ rw (h) (omega arith, omega arith, omega arith)
  | inr h ↦ rw (h) (omega arith, omega arith, omega arith)
]
turn-Balanced true s (shaking n) a b = (omega arith, omega arith, omega arith)
turn-Balanced false s (shaking n) a b = (omega arith, omega arith, omega arith)
turn-Balanced shaken s (opening n) a b = (omega arith, omega arith, omega arith)
turn-Balanced shaken s (numbering n) a b = (omega arith, omega arith, omega arith)
turn-Balanced shaken s (storing n) a b = (omega arith, omega arith, omega arith)
turn-Balanced shaken s (serving n) a b = (omega arith, omega arith, omega arith)
turn-Balanced shaken s (closing n) a b = (omega arith, omega arith, omega arith)
turn-Balanced shaken s leaving a b = (omega arith, omega arith, omega arith)

module _ (s : Server) (inv : Inv s) (shaken : Bool) (before : List Place) (p : Place)
    (after : List Place) (e : s.visits ≡ before ++ p ∷ after) where
  abbrev ps : List Place
  ps = (turn shaken s p).1

  abbrev at_most : (f : Place → Bool) (n : ℕ) → n ≡ count f s.visits → one (f p) ≤ n
  at_most f n h = omega (arith, count_at f before after p e)

  pub turned-counts :
      let t = turned shaken s before p after in
      (t.active_connections ≡ count is_active t.visits)
      × (t.active_sessions ≡ count is_session t.visits)
      × (t.cumulative_connections
          ≡ t.cumulative_sessions + t.handshake_errors + t.unserved + count is_undecided t.visits)
  turned-counts =
      let balanced =
        turn-Balanced shaken s p (at_most is_active s.active_connections inv.active)
          (at_most is_session s.active_sessions inv.in_session) in
      (
        omega (
          arith,
          balanced.0,
          inv.active,
          count_at is_active before after p e,
          count_then is_active before after ps,
        ),
        omega (
          arith,
          balanced.1,
          inv.in_session,
          count_at is_session before after p e,
          count_then is_session before after ps,
        ),
        omega (
          arith,
          balanced.2,
          inv.decided,
          count_at is_undecided before after p e,
          count_then is_undecided before after ps,
        ),
      )
