-- ===== src/Gate/Serve/Invariant.antt =====
-- What holds in every state of an open connection. (gate/conn.go)
use gira.Prelude.{
  ℕ, ◌≡◌, refl, sym, ap, ◌∙◌, Bool, true, false, List, [], ◌∷◌, ◌++◌, append_assoc, arith,
}
use gira.Gate.Conn.{Inbound}
use gira.Gate.Serve.{
  Limits, Live, Step, Steps, Reader, Writer, Caller, returned, draining, stopped, waiting, finished,
  read, read_fails, read_closed, hand, read_on, refuse, write, write_fails, time_out, beat,
  beat_sent, shut, drain, drain_fails, drained, send, recv, close, cancel, leave, finish, here,
  next, opened,
}

abbrev pub reader_over : Reader → Bool
reader_over returned = true
reader_over _ = false

-- The queue was shut, or a write failed, or the heartbeat was missed.
abbrev pub writer_over : Writer → Bool
writer_over stopped = true
writer_over _ = false

abbrev pub may_be_shut : Writer → Bool
may_be_shut draining = true
may_be_shut stopped = true
may_be_shut _ = false

abbrev pub is_finished : Caller → Bool
is_finished finished = true
is_finished _ = false

pub record Inv (s : Live) : Type 0 where
  -- No frame overtakes another, and while no write has failed none is lost.
  pub in_order : s.lost ≡ false → s.written ++ s.queue ≡ s.accepted
  pub messages : s.received ++ s.inbox ≡ s.handed
  -- Nobody sends on a closed channel: only `Conn.send`, which recovers, meets one.
  pub shut_by_writer : s.queue_open ≡ false → may_be_shut s.writer ≡ true
  pub closed_by_reader : s.inbox_open ≡ false → reader_over s.reader ≡ true
  -- The socket is open as long as the writing goroutine runs, which returns with nothing left.
  pub socket : s.socket_open ≡ false → writer_over s.writer ≡ true
  pub all_written :
      s.lost ≡ false → writer_over s.writer ≡ true → (s.queue ≡ []) × (s.queue_open ≡ false)
  -- The handler has returned only when the context is cancelled.
  pub left : s.caller ≡ waiting → s.cancelled ≡ true
  -- The session is in the server's map until `serve` returns, and then nothing runs.
  pub kept : s.stored ≡ false → is_finished s.caller ≡ true
  pub over :
      is_finished s.caller ≡ true → (reader_over s.reader ≡ true) × (writer_over s.writer ≡ true)

pub Inv-opened : (ms : List Inbound) (bad : Bool) (now : ℕ) → Inv (opened ms bad now)
Inv-opened ms bad now = ground arith

move_head : {A : Type 0} (xs ys : List A) (a : A) → (xs ++ (a ∷ [])) ++ ys ≡ xs ++ (a ∷ ys)
move_head xs ys a = append_assoc xs (a ∷ []) ys

grow : {A : Type 0} (xs ys zs ws : List A) → xs ++ ys ≡ zs → xs ++ (ys ++ ws) ≡ zs ++ ws
grow xs ys zs ws e = sym (append_assoc xs ys ws) ∙ ap (λ l. l ++ ws) e

take_head :
    {A : Type 0} (xs ys zs queue : List A) (a : A)
    → queue ≡ a ∷ ys
    → xs ++ queue ≡ zs
    → (xs ++ (a ∷ [])) ++ ys ≡ zs
take_head xs ys zs queue a q e = move_head xs ys a ∙ ap (λ l. xs ++ l) (sym q) ∙ e

module _ {l : Limits} {s : Live} (inv : Inv s) where
  Step-in_order : {t : Live} → Step l s t → t.lost ≡ false → t.written ++ t.queue ≡ t.accepted
  Step-in_order (write d ds w q) h = take_head s.written ds s.accepted s.queue d q (inv.in_order h)
  Step-in_order (drain d ds w q) h = take_head s.written ds s.accepted s.queue d q (inv.in_order h)
  Step-in_order (write_fails d ds w q) h = cc
  Step-in_order (drain_fails d ds w q) h = cc
  Step-in_order (beat_sent w room) h = grow s.written s.queue s.accepted _ (inv.in_order h)
  Step-in_order (send d is_open room) h = grow s.written s.queue s.accepted _ (inv.in_order h)
  Step-in_order _ h = inv.in_order h

  Step-messages : {t : Live} → Step l s t → t.received ++ t.inbox ≡ t.handed
  Step-messages (hand m ms bad r room) = grow s.received s.inbox s.handed _ inv.messages
  Step-messages (recv m ms q) = take_head s.received ms s.handed s.inbox m q inv.messages
  Step-messages _ = inv.messages

  Step-shut_by_writer : {t : Live} → Step l s t → t.queue_open ≡ false → may_be_shut t.writer ≡ true
  Step-shut_by_writer (beat w late) h = ground (arith, inv.shut_by_writer h)
  Step-shut_by_writer (beat_sent w room) h = ground (arith, inv.shut_by_writer h)
  Step-shut_by_writer (write_fails d ds w q) h = refl
  Step-shut_by_writer (time_out w late) h = refl
  Step-shut_by_writer (shut w e) h = refl
  Step-shut_by_writer (drain_fails d ds w q) h = refl
  Step-shut_by_writer (drained w q shut') h = refl
  Step-shut_by_writer _ h = inv.shut_by_writer h

  Step-closed_by_reader :
      {t : Live} → Step l s t → t.inbox_open ≡ false → reader_over t.reader ≡ true
  Step-closed_by_reader (read ms bad r o c) h = ground (arith, inv.closed_by_reader h)
  Step-closed_by_reader (read_fails r) h = refl
  Step-closed_by_reader (read_closed r o c) h = refl
  Step-closed_by_reader (hand m ms bad r room) h = ground (arith, inv.closed_by_reader h)
  Step-closed_by_reader (read_on r) h = ground (arith, inv.closed_by_reader h)
  Step-closed_by_reader (refuse r) h = refl
  Step-closed_by_reader _ h = inv.closed_by_reader h

  Step-socket : {t : Live} → Step l s t → t.socket_open ≡ false → writer_over t.writer ≡ true
  Step-socket (write_fails d ds w q) h = ground (arith, inv.socket h)
  Step-socket (time_out w late) h = ground (arith, inv.socket h)
  Step-socket (beat w late) h = ground (arith, inv.socket h)
  Step-socket (beat_sent w room) h = ground (arith, inv.socket h)
  Step-socket (shut w e) h = ground (arith, inv.socket h)
  Step-socket (drain_fails d ds w q) h = refl
  Step-socket (drained w q shut') h = refl
  Step-socket _ h = inv.socket h

  Step-all_written :
      {t : Live}
      → Step l s t
      → t.lost ≡ false
      → writer_over t.writer ≡ true
      → (t.queue ≡ []) × (t.queue_open ≡ false)
  Step-all_written (write d ds w q) h o = ground (arith, inv.all_written h)
  Step-all_written (drain d ds w q) h o = ground (arith, inv.all_written h)
  Step-all_written (write_fails d ds w q) h o = cc
  Step-all_written (time_out w late) h o = cc
  Step-all_written (beat w late) h o = cc
  Step-all_written (beat_sent w room) h o = cc
  Step-all_written (shut w e) h o = cc
  Step-all_written (drain_fails d ds w q) h o = cc
  Step-all_written (drained w q shut') h o = (q, shut')
  Step-all_written (send d is_open room) h o = ground (arith, inv.all_written h o)
  Step-all_written _ h o = inv.all_written h o

  Step-kept : {t : Live} → Step l s t → t.stored ≡ false → is_finished t.caller ≡ true
  Step-kept (leave c) h = ground (arith, inv.kept h)
  Step-kept (finish c r w v) h = refl
  Step-kept _ h = inv.kept h

  Step-reader_over :
      {t : Live}
      → Step l s t
      → is_finished t.caller ≡ true
      → (reader_over t.reader ≡ true) × (writer_over t.writer ≡ true)
  Step-reader_over (read ms bad r o c) h = ground (arith, inv.over h)
  Step-reader_over (read_fails r) h = ground (arith, inv.over h)
  Step-reader_over (read_closed r o c) h = ground (arith, inv.over h)
  Step-reader_over (hand m ms bad r room) h = ground (arith, inv.over h)
  Step-reader_over (read_on r) h = ground (arith, inv.over h)
  Step-reader_over (refuse r) h = ground (arith, inv.over h)
  Step-reader_over (write_fails d ds w q) h = ground (arith, inv.over h)
  Step-reader_over (time_out w late) h = ground (arith, inv.over h)
  Step-reader_over (beat w late) h = ground (arith, inv.over h)
  Step-reader_over (beat_sent w room) h = ground (arith, inv.over h)
  Step-reader_over (shut w e) h = ground (arith, inv.over h)
  Step-reader_over (drain_fails d ds w q) h = ground (arith, inv.over h)
  Step-reader_over (drained w q shut') h = ground (arith, inv.over h)
  Step-reader_over (leave c) h = cc
  Step-reader_over (finish c r w v) h = ground arith
  Step-reader_over _ h = inv.over h

  Step-left : {t : Live} → Step l s t → t.caller ≡ waiting → t.cancelled ≡ true
  Step-left (leave c) h = refl
  Step-left (finish c r w v) h = cc
  Step-left close h = refl
  Step-left cancel h = refl
  Step-left _ h = inv.left h

  pub Step-Inv : {t : Live} → Step l s t → Inv t
  Step-Inv st = record {
    in_order = Step-in_order st;
    messages = Step-messages st;
    shut_by_writer = Step-shut_by_writer st;
    closed_by_reader = Step-closed_by_reader st;
    socket = Step-socket st;
    all_written = Step-all_written st;
    left = Step-left st;
    kept = Step-kept st;
    over = Step-reader_over st;
  }

pub Steps-Inv : {l : Limits} {s t : Live} → Inv s → Steps l s t → Inv t
Steps-Inv inv here = inv
Steps-Inv inv (next r st) = Step-Inv (Steps-Inv inv r) st
