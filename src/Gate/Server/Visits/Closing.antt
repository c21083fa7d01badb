-- ===== src/Gate/Server/Visits/Closing.antt =====
-- A server that is closed, and connections that come to their end. (gate/server.go)
use gira.Prelude.{
  ◌+◌, ◌≤◌, ◌≡◌, ◌≢◌, inl, inr, refl, ◌∙◌, Bool, true, false, List, [], ◌∷◌, ◌++◌, arith,
  Bool-cases,
}
use gira.Gate.Server.Visits.{
  Server, closed, Place, entering, counted, counted_in, shaking, opening, numbering, storing,
  serving, closing, leaving, turn, Step, Steps, enter, turns, maintain_begins, maintain_ends, shuts,
  serves, here, next,
}
use gira.Gate.Server.Visits.Invariant.{one, count, count_at, count_then}

-- Behind the test of the status, and not yet counted.
abbrev pub is_entering : Place → Bool
is_entering entering = true
is_entering p = false

turn-closed :
    (shaken : Bool) (s : Server) (p : Place)
    → let (t, ps) = turn shaken s p in
      (t.status ≡ s.status)
      × (t.maintains ≡ s.maintains)
      × (t.cumulative_connections + count is_entering ps
          ≡ s.cumulative_connections + one (is_entering p))
turn-closed shaken s entering = (refl, refl, omega arith)
turn-closed shaken s counted = (refl, refl, omega arith)
turn-closed shaken s counted_in = elim (Bool-cases s.has_handler) [
  | inl h ↦ rw (h) (refl, refl, omega arith)
  | inr h ↦ rw (h) (refl, refl, omega arith)
]
turn-closed true s (shaking n) = (refl, refl, omega arith)
turn-closed false s (shaking n) = (refl, refl, omega arith)
turn-closed shaken s (opening n) = (refl, refl, omega arith)
turn-closed shaken s (numbering n) = (refl, refl, omega arith)
turn-closed shaken s (storing n) = (refl, refl, omega arith)
turn-closed shaken s (serving n) = (refl, refl, omega arith)
turn-closed shaken s (closing n) = (refl, refl, omega arith)
turn-closed shaken s leaving = (refl, refl, omega arith)

turn-serve_calls :
    (shaken : Bool) (s : Server) (p : Place) → (turn shaken s p).0.serve_calls ≡ s.serve_calls
turn-serve_calls shaken s entering = refl
turn-serve_calls shaken s counted = refl
turn-serve_calls shaken s counted_in = elim (Bool-cases s.has_handler) [
  | inl h ↦ rw (h) refl
  | inr h ↦ rw (h) refl
]
turn-serve_calls true s (shaking n) = refl
turn-serve_calls false s (shaking n) = refl
turn-serve_calls shaken s (opening n) = refl
turn-serve_calls shaken s (numbering n) = refl
turn-serve_calls shaken s (storing n) = refl
turn-serve_calls shaken s (serving n) = refl
turn-serve_calls shaken s (closing n) = refl
turn-serve_calls shaken s leaving = refl

nobody_maintains :
    (before after : List Bool) (m : Bool) (all : List Bool) → all ≡ before ++ m ∷ after → all ≢ []
nobody_maintains [] after m all e h = cc
nobody_maintains (b ∷ before) after m all e h = cc

Step-closed :
    {s t : Server}
    → s.status ≡ closed
    → s.maintains ≡ []
    → Step s t
    → t.serve_calls ≡ s.serve_calls
    → (t.status ≡ closed)
      × (t.maintains ≡ [])
      × (t.cumulative_connections + count is_entering t.visits
          ≡ s.cumulative_connections + count is_entering s.visits)
Step-closed c m (enter w) k = cc
Step-closed {s} c m (turns shaken before p after e) k =
    let (status, maintains, counts) = turn-closed shaken s p in
    (
      status ∙ c,
      maintains ∙ m,
      omega (
        arith,
        counts,
        count_at is_entering before after p e,
        count_then is_entering before after (turn shaken s p).1,
      ),
    )
Step-closed c m (maintain_begins b w) k = elim w [ inl x ↦ cc | inr x ↦ cc ]
Step-closed {s} c m (maintain_ends b before after e) k =
    elim (nobody_maintains before after b s.maintains e m) [ ]
Step-closed c m shuts k = (refl, m, refl)
Step-closed c m (serves h) k = absurd (omega arith)

Step-serve_calls : {s t : Server} → Step s t → s.serve_calls ≤ t.serve_calls
Step-serve_calls {s} (turns shaken before p after e) = omega (arith, turn-serve_calls shaken s p)
Step-serve_calls (enter w) = omega arith
Step-serve_calls (maintain_begins b w) = omega arith
Step-serve_calls (maintain_ends b before after e) = omega arith
Step-serve_calls shuts = omega arith
Step-serve_calls (serves h) = omega arith

Steps-serve_calls : {s t : Server} → Steps s t → s.serve_calls ≤ t.serve_calls
Steps-serve_calls here = omega arith
Steps-serve_calls (next r st) = omega (arith, Steps-serve_calls r, Step-serve_calls st)

-- Once the status is closed and no call of `Maintain` is behind its test, then as long as `Serve`
-- is not called the status stays closed, and no connection gets past the test of `handleConn`: the
-- connections counted and those about to be counted stay the same together.
pub closed-stays :
    (s t : Server)
    → s.status ≡ closed
    → s.maintains ≡ []
    → Steps s t
    → t.serve_calls ≡ s.serve_calls
    → (t.status ≡ closed)
      × (t.maintains ≡ [])
      × (t.cumulative_connections + count is_entering t.visits
          ≡ s.cumulative_connections + count is_entering s.visits)
closed-stays s t c m here k = (c, m, refl)
closed-stays s t c m (next {t = u} r st) k =
    let before : u.serve_calls ≡ s.serve_calls =
      omega (arith, Steps-serve_calls r, Step-serve_calls st) in
    let (c', m', counts) = closed-stays s u c m r before in
    let (c'', m'', more) = Step-closed c' m' st (omega arith) in (c'', m'', more ∙ counts)
