-- ===== src/Gate/Serve/Tests.antt =====
-- Runs of an open connection, and its theorems at them.
use gira.Prelude.{ℕ, ◌≤◌, ◌≡◌, refl, Bool, true, false, List, [], ◌∷◌, ◌++◌, length, arith}
use gira.Gate.Packet
use gira.Gate.Conn.{Inbound}
use gira.Gate.Serve.{
  Limits, Live, Step, Steps, reading, handing, beating, draining, waiting, opened, here, next,
  read_on, send, write, leave, heartbeat_packet,
}
use gira.Gate.Serve.Invariant.{reader_over, writer_over, is_finished}
use gira.Gate.Serve.Drain.{opened-accounts, winds_down, ended}
use gira.Gate.Serve.Stuck.{time_out-HasHung, beat-WaitsForItself, leave-WaitsForNobody}

heartbeat_frame : Packet.encode Packet.heartbeat [] ≡ Packet.bytes heartbeat_packet
unfolding Packet.encode
heartbeat_frame = refl

-- Two frames and one message fit, and the heartbeat is every 30 seconds.
abbrev small : Limits
small = record { send_backlog = 2; recv_backlog = 1; heartbeat = 30 }

abbrev first_frame : List ℕ
first_frame = 3 ∷ 0 ∷ 0 ∷ 0 ∷ []

abbrev second_frame : List ℕ
second_frame = 5 ∷ 0 ∷ 0 ∷ 0 ∷ []

abbrev question : Inbound
question = record { route = 97 ∷ []; payload = 1 ∷ []; req_id = 7 }

-- Two frames are sent, one is written, and the handler returns.
abbrev returning : Live
returning = record (opened [] false 100) {
  closed = true;
  cancelled = true;
  reader = reading;
  caller = waiting;
  queue = second_frame ∷ [];
  written = first_frame ∷ [];
  accepted = first_frame ∷ second_frame ∷ [];
}

returning-Steps : Steps small (opened [] false 100) returning
returning-Steps =
    next
      (next
        (next (next (next here (read_on refl)) (send first_frame refl (omega arith)))
          (send second_frame refl (omega arith)))
        (write first_frame (second_frame ∷ []) refl refl))
      (leave refl)

opened-accounts_example :
    (returning.lost ≡ false → returning.written ++ returning.queue ≡ returning.accepted)
    × (returning.lost ≡ false
        → returning.socket_open ≡ false
        → returning.written ≡ returning.accepted)
    × (returning.received ++ returning.inbox ≡ returning.handed)
    × ((m : Inbound) (more : List Inbound) (b : Bool)
        → returning.reader ≡ handing (m ∷ more) b
        → returning.inbox_open ≡ true)
    × (returning.writer ≡ beating → returning.queue_open ≡ true)
    × (returning.stored ≡ false
        → (reader_over returning.reader ≡ true) × (writer_over returning.writer ≡ true))
opened-accounts_example = opened-accounts small [] false 100 returning returning-Steps

winds_down_example : Steps small returning (ended returning)
winds_down_example = winds_down small [] false 100 returning returning-Steps refl refl refl refl

-- No packet for more than a minute.
abbrev silent : Live
silent = record (opened [] false 100) { now = 161 }

time_out-HasHung_example :
    (u : Live) × Step small silent u
    × ((t : Live)
        → Steps small u t
        → t.lost ≡ false
        → (t.writer ≡ draining)
          × (t.queue_open ≡ true)
          × (is_finished t.caller ≡ false)
          × (t.socket_open ≡ true)
          × (t.stored ≡ true))
time_out-HasHung_example = time_out-HasHung small silent refl refl refl refl refl (omega arith)

-- As many frames as the channel holds.
abbrev full : Live
full = record (opened [] false 100) {
  queue = first_frame ∷ second_frame ∷ [];
  accepted = first_frame ∷ second_frame ∷ [];
}

beat-WaitsForItself_example :
    (u : Live) × Step small full u
    × ((t : Live)
        → Steps small u t
        → (t.writer ≡ beating) × (2 ≤ length t.queue) × (is_finished t.caller ≡ false))
beat-WaitsForItself_example =
    beat-WaitsForItself small full refl (λ late. omega arith) (omega arith) refl

-- One message waits and another one is to be handed on.
abbrev unread : Live
unread = record (opened [] false 100) {
  reader = handing (question ∷ []) false;
  inbox = question ∷ [];
  handed = question ∷ [];
}

leave-WaitsForNobody_example :
    (u : Live) × Step small unread u
    × ((t : Live)
        → Steps small u t
        → length t.received ≡ 0
        → (t.caller ≡ waiting) × (t.reader ≡ handing (question ∷ []) false) × (1 ≤ length t.inbox))
leave-WaitsForNobody_example =
    leave-WaitsForNobody small unread question [] false refl refl (omega arith)
