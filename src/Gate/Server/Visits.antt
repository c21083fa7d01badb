-- ===== src/Gate/Server/Visits.antt =====
-- gate/server.go and gate/conn.go: the connections that a server takes in, its status, its map of
-- sessions and its counters, with any number of goroutines in any order. A goroutine is at a place
-- between two changes of what they share; what happens in between stands in Gate/Conn and
-- Gate/Serve.
pub mod Invariant
pub mod Sessions
pub mod Stored
pub mod Accounts
pub mod Closing
use gira.Prelude.{
  ℕ, suc, ◌+◌, ◌-◌, ◌%◌, ◌^◌, ◌≡◌, ◌≢◌, ◌⊎◌, Bool, true, false, List, [], ◌∷◌, ◌++◌, if◌then◌else◌,
}
use gira.Prelude.Keys.{store, remove, number_key}

pub data Status : Type 0 where
  start maintaining working closed : Status

-- Where `handleConn` stands for one connection. A number is that of its session, by the order in
-- which they were made, and stands for the pointer to it.
pub data Place : Type 0 where
  -- behind the test of the status; behind the first counter; in `newConn`
  entering counted counted_in : Place
  -- in the handshake; behind it; and behind the first counter of sessions
  shaking opening numbering : ℕ → Place
  -- about to be put into the map; in the map; and there, but out of the counter
  storing serving closing : ℕ → Place
  -- in the last deferred call
  leaving : Place

-- The counters of `Stat`, the map `sessions`, and the package's counter `sid`, which would wrap
-- around. `maintains` are the calls of `Maintain` that are behind their test. `unserved` counts the
-- connections that came to a server without a handler, and `serve_calls` the calls of `Serve`.
pub record Server : Type 0 where
  pub status : Status
  pub session_modifer : ℕ
  pub has_handler : Bool
  pub sid : ℕ
  pub sessions : List (ℕ × ℕ)
  pub active_sessions : ℕ
  pub cumulative_sessions : ℕ
  pub cumulative_connections : ℕ
  pub active_connections : ℕ
  pub handshake_errors : ℕ
  pub unserved : ℕ
  pub visits : List Place
  pub maintains : List Bool
  pub serve_calls : ℕ

-- The id of a session. (`newSession`)
abbrev pub id_of : ℕ → ℕ → ℕ
id_of modifer n = (n + modifer) % 2 ^ 64

abbrev pub store_session : Server → ℕ → Server
store_session s n = record s { sessions = store (id_of s.session_modifer n) n s.sessions }

abbrev pub session_closed : Server → ℕ → Server
session_closed s n = record s { sessions = remove (id_of s.session_modifer n) s.sessions }

-- The next change that a connection makes, and where it is then. `shaken` says whether its
-- handshake succeeds. The two counters that go down are not 0 where they do.
abbrev pub turn : Bool → Server → Place → Server × List Place
turn shaken s entering =
    (record s { cumulative_connections = s.cumulative_connections + 1 }, counted ∷ [])
turn shaken s counted =
    (record s { active_connections = s.active_connections + 1 }, counted_in ∷ [])
turn shaken s counted_in =
    if s.has_handler
    then (record s { sid = s.sid + 1 }, shaking (s.sid + 1) ∷ [])
    else (record s { sid = s.sid + 1; unserved = s.unserved + 1 }, leaving ∷ [])
turn true s (shaking n) = (s, opening n ∷ [])
turn false s (shaking n) = (record s { handshake_errors = s.handshake_errors + 1 }, leaving ∷ [])
turn shaken s (opening n) = (record s { active_sessions = s.active_sessions + 1 }, numbering n ∷ [])
turn shaken s (numbering n) =
    (record s { cumulative_sessions = s.cumulative_sessions + 1 }, storing n ∷ [])
turn shaken s (storing n) = (store_session s n, serving n ∷ [])
turn shaken s (serving n) = (record s { active_sessions = s.active_sessions - 1 }, closing n ∷ [])
turn shaken s (closing n) = (session_closed s n, leaving ∷ [])
turn shaken s leaving = (record s { active_connections = s.active_connections - 1 }, [])

-- The state behind a turn of the connection between `before` and `after`.
abbrev pub turned : Bool → Server → List Place → Place → List Place → Server
turned shaken s before p after = record (turn shaken s p).0 {
  visits = before ++ ((turn shaken s p).1 ++ after);
}

abbrev pub maintained : Bool → Status
maintained true = maintaining
maintained false = working

-- One step of a server that has been told to serve. A connection in its handler may go on at any
-- time here; whether `serve` lets it stands in Gate/Serve.
-- Connections that come while its status is not
-- `working` are closed and change nothing. `Shutdown` closes it in one step, whatever the status is
-- when it is tested: a second one changes nothing.
pub data Step (s : Server) : Server → Type 0 where
  enter : s.status ≡ working → Step s (record s { visits = entering ∷ s.visits })
  turns :
      (shaken : Bool) (before : List Place) (p : Place) (after : List Place)
      → s.visits ≡ before ++ p ∷ after
      → Step s (turned shaken s before p after)
  -- `Maintain`: its test, and its change.
  maintain_begins :
      (m : Bool)
      → (s.status ≡ maintaining) ⊎ (s.status ≡ working)
      → Step s (record s { maintains = m ∷ s.maintains })
  maintain_ends :
      (m : Bool) (before after : List Bool)
      → s.maintains ≡ before ++ m ∷ after
      → Step s (record s { status = maintained m; maintains = before ++ after })
  shuts : Step s (record s { status = closed })
  -- `Serve`, which sets the handler and the status at any time, without a test.
  serves :
      (h : Bool)
      → Step s (record s { status = working; has_handler = h; serve_calls = s.serve_calls + 1 })

pub data Steps (s : Server) : Server → Type 0 where
  here : Steps s s
  next : {t u : Server} → Steps s t → Step t u → Steps s u

-- `Serve` on a new server.
abbrev pub served : ℕ → Bool → Server
served modifer has_handler = record {
  status = working;
  session_modifer = modifer;
  has_handler = has_handler;
  sid = 0;
  sessions = [];
  active_sessions = 0;
  cumulative_sessions = 0;
  cumulative_connections = 0;
  active_connections = 0;
  handshake_errors = 0;
  unserved = 0;
  visits = [];
  maintains = [];
  serve_calls = 1;
}
