-- ===== src/Gate/Serve.antt =====
-- gate/conn.go, `serve` behind the handshake: the reading and the writing goroutine, the one that
-- waits for the context, and the caller that runs the handler, interleaved in any order. Channels
-- have their capacity, which is at least 1, so a send waits for room. What a read brings is left
-- open here; Conn/Receive says what becomes of it. The ticker may fire at any time.
pub mod Invariant
pub mod Drain
pub mod Stuck
mod Tests
use gira.Prelude.{ℕ, suc, ◌+◌, ◌*◌, ◌<◌, ◌≡◌, ◌⊎◌, Bool, true, false, List, [], ◌∷◌, ◌++◌, length}
use gira.Gate.Conn.{Inbound}

-- What `init` of gate/server.go makes of `packet.Encode(packet.Heartbeat, nil)`.
abbrev pub heartbeat_packet : List ℕ
heartbeat_packet = 4 ∷ 0 ∷ 0 ∷ 0 ∷ []

-- `sendBacklog`, `recvBacklog` and `heartbeat` of the server.
pub record Limits : Type 0 where
  pub send_backlog : ℕ
  pub recv_backlog : ℕ
  pub heartbeat : ℕ

-- Where the reading goroutine stands: in `conn.Read`; with messages to hand on, and whether an error
-- comes behind them; or returned.
pub data Reader : Type 0 where
  reading : Reader
  handing : List Inbound → Bool → Reader
  returned : Reader

-- Where the writing goroutine stands: in the `select`; in `self.chSend <- heartbeat_packet`; in the
-- loop that sends what is left; or returned.
pub data Writer : Type 0 where
  selecting beating draining stopped : Writer

-- The caller: in the handler, in `errGroup.Wait()`, or returned.
pub data Caller : Type 0 where
  handling waiting finished : Caller

-- `queue` is `chSend` and `inbox` is `chMessage`. `failed` says that a goroutine has returned an
-- error, which ends `errCtx`. The last three fields record what happened: the frames and messages
-- that the channels took, and whether a write failed.
pub record Live : Type 0 where
  pub closed : Bool
  pub cancelled : Bool
  pub failed : Bool
  pub socket_open : Bool
  pub queue : List (List ℕ)
  pub queue_open : Bool
  pub inbox : List Inbound
  pub inbox_open : Bool
  pub written : List (List ℕ)
  pub received : List Inbound
  pub reader : Reader
  pub writer : Writer
  pub watcher_returned : Bool
  pub caller : Caller
  pub stored : Bool
  pub last_at : ℕ
  pub now : ℕ
  pub accepted : List (List ℕ)
  pub handed : List Inbound
  pub lost : Bool

-- `errCtx.Done()`
abbrev pub Ended : Live → Type 0
Ended s = (s.cancelled ≡ true) ⊎ (s.failed ≡ true)

-- `lastAt < now - 2 * heartbeat`
abbrev pub IsLate : Limits → Live → Type 0
IsLate l s = s.last_at + 2 * l.heartbeat < s.now

abbrev pub return_reader : Live → Bool → Live
return_reader s failed = record s { reader = returned; inbox_open = false; failed = failed }

-- The writing goroutine closes the socket when it returns, and always returns an error.
abbrev pub stop_writer : Live → Live
stop_writer s = record s { writer = stopped; socket_open = false; failed = true }

-- One step of a goroutine, of a caller of the session's methods, or of the clock.
pub data Step (l : Limits) (s : Live) : Live → Type 0 where
  -- The reading goroutine.
  read :
      (ms : List Inbound) (bad : Bool)
      → s.reader ≡ reading
      → s.socket_open ≡ true
      → s.closed ≡ false
      → Step l s (record s { reader = handing ms bad })
  -- `processPacket` takes the time of every packet, also of one without a message.
  process :
      (ms : List Inbound) (bad : Bool)
      → s.reader ≡ handing ms bad
      → Step l s (record s { last_at = s.now })
  read_fails : s.reader ≡ reading → Step l s (return_reader s true)
  read_closed :
      s.reader ≡ reading
      → s.socket_open ≡ true
      → s.closed ≡ true
      → Step l s (return_reader s s.failed)
  hand :
      (m : Inbound) (ms : List Inbound) (bad : Bool)
      → s.reader ≡ handing (m ∷ ms) bad
      → length s.inbox < l.recv_backlog
      → Step l s (record s {
        reader = handing ms bad;
        inbox = s.inbox ++ (m ∷ []);
        handed = s.handed ++ (m ∷ []);
      })
  read_on : s.reader ≡ handing [] false → Step l s (record s { reader = reading })
  refuse : s.reader ≡ handing [] true → Step l s (return_reader s true)
  -- The `select` of the writing goroutine.
  write :
      (d : List ℕ) (ds : List (List ℕ))
      → s.writer ≡ selecting
      → s.queue ≡ d ∷ ds
      → Step l s (record s { queue = ds; written = s.written ++ (d ∷ []) })
  write_fails :
      (d : List ℕ) (ds : List (List ℕ))
      → s.writer ≡ selecting
      → s.queue ≡ d ∷ ds
      → Step l s (record s { queue = ds; writer = draining; lost = true })
  time_out : s.writer ≡ selecting → IsLate l s → Step l s (record s { writer = draining })
  beat : s.writer ≡ selecting → ¬ (IsLate l s) → Step l s (record s { writer = beating })
  beat_sent :
      s.writer ≡ beating
      → length s.queue < l.send_backlog
      → Step l s (record s {
        writer = selecting;
        queue = s.queue ++ (heartbeat_packet ∷ []);
        accepted = s.accepted ++ (heartbeat_packet ∷ []);
      })
  shut :
      s.writer ≡ selecting → Ended s → Step l s (record s { writer = draining; queue_open = false })
  -- Its second loop.
  drain :
      (d : List ℕ) (ds : List (List ℕ))
      → s.writer ≡ draining
      → s.queue ≡ d ∷ ds
      → Step l s (record s { queue = ds; written = s.written ++ (d ∷ []) })
  drain_fails :
      (d : List ℕ) (ds : List (List ℕ))
      → s.writer ≡ draining
      → s.queue ≡ d ∷ ds
      → Step l s (stop_writer (record s { queue = ds; lost = true }))
  drained : s.writer ≡ draining → s.queue ≡ [] → s.queue_open ≡ false → Step l s (stop_writer s)
  -- The third goroutine.
  watch : Ended s → Step l s (record s { watcher_returned = true; failed = true })
  -- `Conn.send`, and `Conn.Recv` of any goroutine that has the session, before or behind the close.
  send :
      (d : List ℕ)
      → s.queue_open ≡ true
      → length s.queue < l.send_backlog
      → Step l s (record s { queue = s.queue ++ (d ∷ []); accepted = s.accepted ++ (d ∷ []) })
  recv :
      (m : Inbound) (ms : List Inbound)
      → s.inbox ≡ m ∷ ms
      → Step l s (record s { inbox = ms; received = s.received ++ (m ∷ []) })
  -- `Conn.Close`, and the end of the server's context.
  close : Step l s (record s { closed = true; cancelled = true })
  cancel : Step l s (record s { cancelled = true })
  -- The handler returns, and `serve` returns when all three goroutines have.
  leave :
      s.caller ≡ handling
      → Step l s (record s { closed = true; cancelled = true; caller = waiting })
  finish :
      s.caller ≡ waiting
      → s.reader ≡ returned
      → s.writer ≡ stopped
      → s.watcher_returned ≡ true
      → Step l s (record s { caller = finished; stored = false })
  tick : Step l s (record s { now = suc s.now })

pub data Steps (l : Limits) (s : Live) : Live → Type 0 where
  here : Steps l s s
  next : {t u : Live} → Steps l s t → Step l t u → Steps l s u

-- Behind the handshake, with the messages of the packets that came with the acknowledgement.
abbrev pub opened : List Inbound → Bool → ℕ → Live
opened ms bad now = record {
  closed = false;
  cancelled = false;
  failed = false;
  socket_open = true;
  queue = [];
  queue_open = true;
  inbox = [];
  inbox_open = true;
  written = [];
  received = [];
  reader = handing ms bad;
  writer = selecting;
  watcher_returned = false;
  caller = handling;
  stored = true;
  last_at = now;
  now = now;
  accepted = [];
  handed = [];
  lost = false;
}
