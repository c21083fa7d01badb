-- ===== src/Gate/Serve/Stuck.antt =====
-- How an open connection can hang. (gate/conn.go)
use gira.Prelude.{length-append, [], ◌≤◌, ◌≡◌, refl, Bool, true, false, List, ◌∷◌, arith, length}
use gira.Gate.Conn.{Inbound}
use gira.Gate.Serve.{
  Limits, Live, Step, Steps, IsLate, handing, selecting, beating, draining, handling, waiting,
  time_out, beat, write_fails, beat_sent, shut, drain, drain_fails, drained, finish, leave, read,
  read_fails, read_closed, hand, read_on, refuse, send, here, next, write, recv,
}
use gira.Gate.Serve.Invariant.{is_finished}

Step-lost : {l : Limits} {s t : Live} → Step l s t → t.lost ≡ false → s.lost ≡ false
Step-lost (write_fails d ds w q) h = cc
Step-lost (drain_fails d ds w q) h = cc
Step-lost _ h = h

-- The writing goroutine sends what is left, though the channel was never closed.
abbrev HasHung : Live → Type 0
HasHung s =
    (s.writer ≡ draining)
    × (s.queue_open ≡ true)
    × (is_finished s.caller ≡ false)
    × (s.socket_open ≡ true)
    × (s.stored ≡ true)

Step-HasHung : {l : Limits} {s t : Live} → Step l s t → t.lost ≡ false → HasHung s → HasHung t
Step-HasHung (write_fails d ds w q) h hung = cc
Step-HasHung (drain_fails d ds w q) h hung = cc
Step-HasHung (drained w q shut') h (w', is_open, f, o, st) = cc
Step-HasHung (beat w late) h (w', is_open, f, o, st) = cc
Step-HasHung (beat_sent w room) h (w', is_open, f, o, st) = cc
Step-HasHung (shut w e) h (w', is_open, f, o, st) = cc
Step-HasHung (time_out w late) h (w', is_open, f, o, st) = cc
Step-HasHung (finish c r w v) h (w', is_open, f, o, st) = cc
Step-HasHung (leave c) h (w', is_open, f, o, st) = (w', is_open, refl, o, st)
Step-HasHung _ h hung = hung

Steps-HasHung : {l : Limits} {s t : Live} → Steps l s t → t.lost ≡ false → HasHung s → HasHung t
Steps-HasHung here h hung = hung
Steps-HasHung (next r st) h hung = Step-HasHung st h (Steps-HasHung r (Step-lost st h) hung)

-- When the heartbeat of a connection times out, with its channel and its socket open and `serve`
-- not returned, the writing goroutine leaves its `select` without closing the channel. Whatever
-- happens then, as long as no write fails it never returns: the socket stays open, `serve` does not
-- return and the session stays in the server's map.
pub time_out-HasHung :
    (l : Limits) (s : Live)
    → s.writer ≡ selecting
    → s.queue_open ≡ true
    → s.socket_open ≡ true
    → s.stored ≡ true
    → is_finished s.caller ≡ false
    → IsLate l s
    → (u : Live) × Step l s u
      × ((t : Live)
          → Steps l u t
          → t.lost ≡ false
          → (t.writer ≡ draining)
            × (t.queue_open ≡ true)
            × (is_finished t.caller ≡ false)
            × (t.socket_open ≡ true)
            × (t.stored ≡ true))
time_out-HasHung l s w q o st c late = (
  record s { writer = draining },
  time_out w late,
  λ t r h. Steps-HasHung r h (refl, q, c, o, st),
)

-- The writing goroutine waits for room in the channel that it alone empties.
abbrev WaitsForItself : Limits → Live → Type 0
WaitsForItself l s =
    (s.writer ≡ beating) × (l.send_backlog ≤ length s.queue) × (is_finished s.caller ≡ false)

Step-WaitsForItself :
    {l : Limits} {s t : Live} → Step l s t → WaitsForItself l s → WaitsForItself l t
Step-WaitsForItself (write d ds w q) (w', full, c) = cc
Step-WaitsForItself (write_fails d ds w q) (w', full, c) = cc
Step-WaitsForItself (drain d ds w q) (w', full, c) = cc
Step-WaitsForItself (drain_fails d ds w q) (w', full, c) = cc
Step-WaitsForItself (drained w q shut') (w', full, c) = cc
Step-WaitsForItself (beat w late) (w', full, c) = cc
Step-WaitsForItself (beat_sent w room) (w', full, c) = absurd (omega arith)
Step-WaitsForItself (send d is_open room) (w', full, c) = absurd (omega arith)
Step-WaitsForItself (shut w e) (w', full, c) = cc
Step-WaitsForItself (time_out w late) (w', full, c) = cc
Step-WaitsForItself (finish c r w v) (w', full, c') = cc
Step-WaitsForItself (leave c) (w', full, c') = (w', full, refl)
Step-WaitsForItself _ h = h

Steps-WaitsForItself :
    {l : Limits} {s t : Live} → Steps l s t → WaitsForItself l s → WaitsForItself l t
Steps-WaitsForItself here h = h
Steps-WaitsForItself (next r st) h = Step-WaitsForItself st (Steps-WaitsForItself r h)

-- The writing goroutine sends its heartbeat on the channel from which only it receives. When the
-- ticker fires while the channel is full, no heartbeat is late and `serve` has not returned, it
-- never goes on: it stays in that send with the channel full, and `serve` does not return.
pub beat-WaitsForItself :
    (l : Limits) (s : Live)
    → s.writer ≡ selecting
    → ¬ (IsLate l s)
    → l.send_backlog ≤ length s.queue
    → is_finished s.caller ≡ false
    → (u : Live) × Step l s u
      × ((t : Live)
          → Steps l u t
          → (t.writer ≡ beating)
            × (l.send_backlog ≤ length t.queue)
            × (is_finished t.caller ≡ false))
beat-WaitsForItself l s w late full c =
    (record s { writer = beating }, beat w late, λ t r. Steps-WaitsForItself r (refl, full, c))

-- The handler has returned, and the reading goroutine waits for room for a message.
abbrev WaitsForNobody : Limits → Inbound → List Inbound → Bool → Live → Type 0
WaitsForNobody l m ms bad s =
    (s.caller ≡ waiting) × (s.reader ≡ handing (m ∷ ms) bad) × (l.recv_backlog ≤ length s.inbox)

-- Messages are only received.
Step-received : {l : Limits} {s t : Live} → Step l s t → length s.received ≤ length t.received
Step-received {s = s} (recv m ms q) = omega (arith, length-append s.received (m ∷ []))
Step-received _ = omega arith

Steps-received : {l : Limits} {s t : Live} → Steps l s t → length s.received ≤ length t.received
Steps-received here = omega arith
Steps-received (next r st) = omega (arith, Steps-received r, Step-received st)

Step-WaitsForNobody :
    {l : Limits} {m : Inbound} {ms : List Inbound} {bad : Bool} {s t : Live}
    → Step l s t
    → length t.received ≡ length s.received
    → WaitsForNobody l m ms bad s
    → WaitsForNobody l m ms bad t
Step-WaitsForNobody (read ms' b r o c) k (c', r', full) = cc
Step-WaitsForNobody (read_fails r) k (c', r', full) = cc
Step-WaitsForNobody (read_closed r o c) k (c', r', full) = cc
Step-WaitsForNobody (hand m' ms' b r room) k (c', r', full) = absurd (omega arith)
Step-WaitsForNobody (read_on r) k (c', r', full) = cc
Step-WaitsForNobody (refuse r) k (c', r', full) = cc
Step-WaitsForNobody {s = s} (recv m' ms' q) k (c', r', full) =
    absurd (omega (arith, length-append s.received (m' ∷ [])))
Step-WaitsForNobody (leave c) k (c', r', full) = cc
Step-WaitsForNobody (finish c r w v) k (c', r', full) = cc
Step-WaitsForNobody _ k h = h

Steps-WaitsForNobody :
    {l : Limits} {m : Inbound} {ms : List Inbound} {bad : Bool} {s t : Live}
    → Steps l s t
    → length t.received ≡ length s.received
    → WaitsForNobody l m ms bad s
    → WaitsForNobody l m ms bad t
Steps-WaitsForNobody here k h = h
Steps-WaitsForNobody {s = s} (next {t = u} r st) k h =
    let before : length u.received ≡ length s.received =
      omega (arith, Steps-received r, Step-received st) in
    Step-WaitsForNobody st (omega arith) (Steps-WaitsForNobody r before h)

-- When the handler returns while the channel of messages is full and the reading goroutine has one
-- more to hand on, then as long as nobody receives a message the reading goroutine never returns,
-- whatever else happens to the connection, and so neither does serve.
pub leave-WaitsForNobody :
    (l : Limits) (s : Live) (m : Inbound) (ms : List Inbound) (bad : Bool)
    → s.caller ≡ handling
    → s.reader ≡ handing (m ∷ ms) bad
    → l.recv_backlog ≤ length s.inbox
    → (u : Live) × Step l s u
      × ((t : Live)
          → Steps l u t
          → length t.received ≡ length s.received
          → (t.caller ≡ waiting)
            × (t.reader ≡ handing (m ∷ ms) bad)
            × (l.recv_backlog ≤ length t.inbox))
leave-WaitsForNobody l s m ms bad c r full = (
  record s { closed = true; cancelled = true; caller = waiting },
  leave c,
  λ t steps unread. Steps-WaitsForNobody steps unread (refl, r, full),
)
