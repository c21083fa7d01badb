-- ===== src/Gate/Server/Visits/Accounts.antt =====
-- The state of a server at any time, and what is left when no connection is. (gate/server.go)
use gira.Prelude.{
  ℕ, ◌+◌, ◌^◌, ◌<◌, ◌≤◌, ◌≡◌, ◌≢◌, ◌↔◌, inl, inr, refl, sym, ap, ◌∙◌, subst, Bool, some, List, [],
  ◌∷◌, ◌++◌, arith,
}
use gira.Prelude.Keys.{lookup, number_key, same_refl}
use gira.Gate.Server.Visits.{
  Server, Status, closed, maintained, Place, entering, turn, turned, Step, Steps, enter, turns,
  maintain_begins, maintain_ends, shuts, serves, working, here, next, id_of, served,
}
use gira.Gate.Server.Visits.Invariant.{
  Inv, count, is_active, is_session, is_undecided, is_stored, count_at, count_then, turned-counts,
}
use gira.Gate.Server.Visits.Sessions.{
  turn-has_number, turn-sessions, turn-modifer, turned-numbers, turned_unique,
}
use gira.Gate.Server.Visits.Stored.{stored-found, stored-kept, removed-found, removed-kept}

-- The two fields of the invariant on the map.
abbrev MapKept : Server → Type 0
MapKept t =
    ((n : ℕ)
      → count (is_stored n) t.visits ≡ 1
      → lookup (id_of t.session_modifer n) t.sessions ≡ some n)
    × ((k n : ℕ)
        → lookup k t.sessions ≡ some n
        → (k ≡ id_of t.session_modifer n) × (count (is_stored n) t.visits ≡ 1))

module _ (s : Server) (inv : Inv s) (shaken : Bool) (before : List Place) (after : List Place) where
  turned-MapKept :
      (p : Place)
      → s.visits ≡ before ++ p ∷ after
      → s.sid < 2 ^ 64
      → MapKept (turned shaken s before p after)
  turned-MapKept p e bounded = elim (turn-sessions shaken s p) [
    | inl (same, counts) ↦
        let modifer = turn-modifer shaken s p in
        let alike : (n : ℕ)
            → count (is_stored n) (before ++ ((turn shaken s p).1 ++ after))
              ≡ count (is_stored n) s.visits =
          (λ n. omega (
            arith,
            counts n,
            count_at (is_stored n) before after p e,
            count_then (is_stored n) before after (turn shaken s p).1,
          )) in
        (
          (λ n h.
              subst (λ (x : ℕ × List (ℕ × ℕ)). lookup (id_of x.0 n) x.1 ≡ some n)
                (λ i. (sym modifer i, sym same i)) (inv.found n (sym (alike n) ∙ h))),
          (λ k n h.
              let (at, kept') = inv.kept k n (ap (lookup k) (sym same) ∙ h) in
              (at ∙ ap (λ x. id_of x n) (sym modifer), alike n ∙ kept')),
        )
    | inr (inl (m, q)) ↦
        subst (λ x. s.visits ≡ before ++ x ∷ after → MapKept (turned shaken s before x after))
          (sym q)
          (λ e'. (
            stored-found s inv bounded before m after e',
            stored-kept s inv bounded before m after e',
          ))
          e
    | inr (inr (m, q)) ↦
        subst (λ x. s.visits ≡ before ++ x ∷ after → MapKept (turned shaken s before x after))
          (sym q)
          (λ e'. (
            removed-found s inv bounded before m after e',
            removed-kept s inv bounded before m after e',
          ))
          e
  ]

  turned-Inv :
      (p : Place)
      → s.visits ≡ before ++ p ∷ after
      → s.sid < 2 ^ 64
      → Inv (turned shaken s before p after)
  turned-Inv p e bounded =
      let counts = turned-counts s inv shaken before p after e in
      let map_kept = turned-MapKept p e bounded in
      record {
        active = counts.0;
        in_session = counts.1;
        decided = counts.2;
        numbers = turned-numbers s inv shaken before p after e;
        unique = turned_unique s inv shaken before p after e;
        found = map_kept.0;
        kept = map_kept.1;
      }

-- Neither the status nor the calls of `Maintain` count.
renewed-Inv :
    (s : Server) (status : Status) (maintains : List Bool)
    → Inv s
    → Inv (record s { status = status; maintains = maintains })
renewed-Inv s status maintains inv = record {
  active = inv.active;
  in_session = inv.in_session;
  decided = inv.decided;
  numbers = inv.numbers;
  unique = inv.unique;
  found = inv.found;
  kept = inv.kept;
}

served-Inv :
    (s : Server) (h : Bool)
    → Inv s
    → Inv (record s { status = working; has_handler = h; serve_calls = s.serve_calls + 1 })
served-Inv s h inv = record {
  active = inv.active;
  in_session = inv.in_session;
  decided = inv.decided;
  numbers = inv.numbers;
  unique = inv.unique;
  found = inv.found;
  kept = inv.kept;
}

entered-Inv : (s : Server) → Inv s → Inv (record s { visits = entering ∷ s.visits })
entered-Inv s inv = record {
  active = omega (arith, inv.active);
  in_session = omega (arith, inv.in_session);
  decided = omega (arith, inv.decided);
  numbers = λ n l. omega (arith, inv.numbers n l);
  unique = λ n. omega (arith, inv.unique n);
  found = λ n h. inv.found n (omega arith);
  kept = λ k n h. ((inv.kept k n h).0, omega (arith, (inv.kept k n h).1));
}

Step-Inv : {s t : Server} → Inv s → s.sid < 2 ^ 64 → Step s t → Inv t
Step-Inv {s} inv bounded (enter w) = entered-Inv s inv
Step-Inv {s} inv bounded (turns shaken before p after e) =
    turned-Inv s inv shaken before after p e bounded
Step-Inv {s} inv bounded (maintain_begins m w) = renewed-Inv s s.status (m ∷ s.maintains) inv
Step-Inv {s} inv bounded (maintain_ends m before after e) =
    renewed-Inv s (maintained m) (before ++ after) inv
Step-Inv {s} inv bounded shuts = renewed-Inv s closed s.maintains inv
Step-Inv {s} inv bounded (serves h) = served-Inv s h inv

-- Numbers are only given out.
Step-sid : {s t : Server} → Step s t → s.sid ≤ t.sid
Step-sid (enter w) = omega arith
Step-sid {s} (turns shaken before p after e) = ground (arith, turn-has_number shaken s p 0)
Step-sid (maintain_begins m w) = omega arith
Step-sid (maintain_ends m before after e) = omega arith
Step-sid shuts = omega arith
Step-sid (serves h) = omega arith

Inv-served : (modifer : ℕ) (has_handler : Bool) → Inv (served modifer has_handler)
unfolding lookup
Inv-served modifer has_handler = record {
  active = refl;
  in_session = refl;
  decided = refl;
  numbers = λ n l. refl;
  unique = λ n. omega arith;
  found = λ n h. ground arith;
  kept = λ k n h. cc;
}

Steps-Inv : {s t : Server} → Inv s → Steps s t → t.sid < 2 ^ 64 → Inv t
Steps-Inv inv here bounded = inv
Steps-Inv {s} {t} inv (next {t = u} r st) bounded =
    let lower = Step-sid st in
    let below : u.sid < 2 ^ 64 = omega arith in Step-Inv (Steps-Inv inv r below) below st

-- In every state that a serving server can come to, before 2^64 sessions are made:
-- `ActiveConnectionCount` is the number of connections between its two changes, and
-- `ActiveSessionCount` likewise; the connections counted are those that became sessions, failed in
-- the handshake or found no handler, and those not decided yet. The map of sessions has under each
-- key k exactly the session whose id is k and whose connection is between `storeSession` and
-- `sessionClosed`.
pub served-accounts :
    (modifer : ℕ) (has_handler : Bool) (t : Server)
    → Steps (served modifer has_handler) t
    → t.sid < 2 ^ 64
    → (t.active_connections ≡ count is_active t.visits)
      × (t.active_sessions ≡ count is_session t.visits)
      × (t.cumulative_connections
          ≡ t.cumulative_sessions + t.handshake_errors + t.unserved + count is_undecided t.visits)
      × ((k n : ℕ)
          → (lookup k t.sessions ≡ some n)
            ↔ ((k ≡ id_of t.session_modifer n) × (count (is_stored n) t.visits ≡ 1)))
served-accounts modifer has_handler t r bounded =
    let inv = Steps-Inv (Inv-served modifer has_handler) r bounded in
    (
      inv.active,
      inv.in_session,
      inv.decided,
      (λ k n. (inv.kept k n, (λ h. ap (λ x. lookup x t.sessions) h.0 ∙ inv.found n h.1))),
    )

-- A map in which no key is found is empty.
lookup-none : (m : List (ℕ × ℕ)) → ((k n : ℕ) → lookup k m ≢ some n) → m ≡ []
unfolding lookup
lookup-none [] h = refl
lookup-none ((k, n) ∷ m) h = elim (h k n (rw (same_refl k) refl)) [ ]

-- When no connection is in `handleConn`, in any state that a serving server can come to before 2^64
-- sessions are made, its map of sessions is empty, both active counters are 0, and the connections
-- counted are the sessions, the failed handshakes and those without a handler.
pub served-idle :
    (modifer : ℕ) (has_handler : Bool) (t : Server)
    → Steps (served modifer has_handler) t
    → t.sid < 2 ^ 64
    → t.visits ≡ []
    → (t.sessions ≡ [])
      × (t.active_connections ≡ 0)
      × (t.active_sessions ≡ 0)
      × (t.cumulative_connections ≡ t.cumulative_sessions + t.handshake_errors + t.unserved)
served-idle modifer has_handler t r bounded idle =
    let inv = Steps-Inv (Inv-served modifer has_handler) r bounded in
    (
      lookup-none t.sessions
          (λ k n h. omega (arith, (inv.kept k n h).1, ap (count (is_stored n)) idle)),
      omega (arith, inv.active, ap (count is_active) idle),
      omega (arith, inv.in_session, ap (count is_session) idle),
      omega (arith, inv.decided, ap (count is_undecided) idle),
    )
