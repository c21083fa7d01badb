-- ===== src/Smallgame/Hall.antt =====
-- framework/smallgame/game/hall/session.go: how a hall makes a session for a user, whose lock it takes
-- in the registry, and closes it. Other goroutines do nothing in between. The handler of the game and
-- the hall that holds a lock are parameters; so is what becomes of the commits of the registry.
pub mod Lifecycle
pub mod Takeover
mod Tests
use gira.Prelude.{ℕ, ◌+◌, ◌-◌, Bool, true, false, Option, none, some, List, [], ◌∷◌, if◌then◌else◌}
use gira.Prelude.Keys.{lookup, store, remove, text_key}
use gira.Registry.Players.{Registry, Peer, Answer, Network, lock_local_user, unlock_local_user}
use gira.Registry.Players
use gira.Registry.Players.Kv.{Etcd}

abbrev pub Text : Type 0
Text = List ℕ

-- `has_client` says whether `ClientStream` has set the function that ends the client's stream.
pub record Session : Type 0 where
  pub session_id : ℕ
  pub user_id : Text
  pub member_id : Text
  pub has_client : Bool
  pub is_closed : Bool

pub record Hall (S : Type 0) : Type 0 where
  pub sessions : List (Text × Session)
  pub session_count : ℕ
  pub registry : Registry
  pub etcd : S

pub data Error : Type 0 where
  new_user_failed user_instead instead_failed load_failed session_closed nil_function : Error
  lock_failed : Players.Error → Error

-- `new_user` is the user of a member, `loads` whether the data of the user can be loaded, `instead`
-- the call of UserInstead at a peer, with an error or without.
pub record World (S : Type 0) : Type 0 where
  pub kv : Etcd S
  pub network : Network
  pub now : ℕ
  pub value : Text
  pub new_user : Text → Option Text
  pub loads : Text → Bool
  pub instead : Peer → Text → Hall S → Hall S × Bool

pub record Made (S : Type 0) : Type 0 where
  pub hall : Hall S
  pub session : Option Session
  pub error : Option Error

-- How `Close` ends: it returns an error or none, or the call of a nil function unwinds its caller.
pub data Ending : Type 0 where
  returns : Option Error → Ending
  panics : Ending

pub record Closed (S : Type 0) : Type 0 where
  pub hall : Hall S
  pub session : Session
  pub ending : Ending

-- `sendPacketAndClose` returns no error when `Close` returns, whatever that returns, and the
-- recovered error when it panics.
abbrev pub recovered : Ending → Option Error
recovered (returns error) = none
recovered panics = some nil_function

abbrev pub lock_error : Option Players.Error → Option Error
lock_error none = none
lock_error (some error) = some (lock_failed error)

module _ {S : Type 0} (w : World S) where
  abbrev pub locked : Text → Hall S → Answer × Hall S
  locked user h =
      let done = lock_local_user w.kv w.network w.now w.value user h.registry h.etcd in
      (done.0, record h { registry = done.1; etcd = done.2 })

  -- The answer is only logged.
  abbrev pub unlocked : Text → Hall S → Hall S
  unlocked user h =
      let done = unlock_local_user w.kv w.network user h.registry h.etcd in
      record h { registry = done.1; etcd = done.2 }

  abbrev pub opened : ℕ → Text → Text → Session
  opened session_id member_id user = record {
    session_id = session_id;
    user_id = user;
    member_id = member_id;
    has_client = false;
    is_closed = false;
  }

  abbrev pub stored : Session → Hall S → Hall S
  stored s h = record h {
    sessions = store s.user_id s h.sessions;
    session_count = h.session_count + 1;
  }

  abbrev pub released : Text → Hall S → Hall S
  released user h = record h {
    sessions = remove user h.sessions;
    session_count = h.session_count - 1;
  }

  -- The data is loaded once the session stands in the map.
  abbrev pub loaded : Session → Bool → Hall S → Made S
  loaded s true h = record { hall = h; session = some s; error = none }
  loaded s false h = record {
    hall = unlocked s.user_id (released s.user_id h);
    session = some s;
    error = some load_failed;
  }

  -- `LoadOrStore`, on what the map has under the user.
  abbrev pub load_or_store : Session → Option Session → Hall S → Made S
  load_or_store s (some old) h = record {
    hall = unlocked s.user_id h;
    session = some s;
    error = some user_instead;
  }
  load_or_store s none h = loaded s (w.loads s.user_id) (stored s h)

  abbrev pub checked : Session → Option Session → Hall S → Made S
  checked s (some old) h = record {
    hall = unlocked s.user_id h;
    session = none;
    error = some user_instead;
  }
  checked s none h = load_or_store s (lookup s.user_id h.sessions) h

  abbrev pub with_lock : Session → Hall S → Made S
  with_lock s h = checked s (lookup s.user_id h.sessions) h

  -- The answer to the second lock.
  abbrev pub locked_again : Session → Answer × Hall S → Made S
  locked_again s ((peer, none), h) = with_lock s h
  locked_again s ((peer, some error), h) = record {
    hall = h;
    session = none;
    error = some (lock_failed error);
  }

  abbrev pub behind_instead : Session → Hall S × Bool → Made S
  behind_instead s (h, true) = locked_again s (locked s.user_id h)
  behind_instead s (h, false) = record { hall = h; session = none; error = some instead_failed }

  -- The answer to the first lock.
  abbrev pub locked_first : Session → Answer × Hall S → Made S
  locked_first s ((peer, none), h) = with_lock s h
  locked_first s ((none, some error), h) = record {
    hall = h;
    session = none;
    error = some (lock_failed error);
  }
  locked_first s ((some peer, some error), h) = behind_instead s (w.instead peer s.user_id h)

  abbrev pub for_user : ℕ → Text → Option Text → Hall S → Made S
  for_user session_id member_id none h = record {
    hall = h;
    session = none;
    error = some new_user_failed;
  }
  for_user session_id member_id (some user) h =
      locked_first (opened session_id member_id user) (locked user h)

  -- `newSession`
  unfoldable pub new_session : ℕ → Text → Hall S → Made S
  new_session session_id member_id h = for_user session_id member_id (w.new_user member_id) h

  -- `Close` behind the exchange of its flag: without a function to end the client's stream it panics
  -- before anything is deferred.
  abbrev pub closing : Session → Hall S → Closed S
  closing s h =
      if s.has_client
      then record {
        hall = released s.user_id (unlocked s.user_id h);
        session = record s { is_closed = true };
        ending = returns none;
      }
      else record { hall = h; session = record s { is_closed = true }; ending = panics }

  -- `Close`; panics of the player's logout are recovered.
  unfoldable pub close : Session → Hall S → Closed S
  close s h =
      if s.is_closed
      then record { hall = h; session = s; ending = returns (some session_closed) }
      else closing s h

  -- `hall_service.Instead`, on what the map has under the user. The message to the client finds room,
  -- and what `Close` returns is dropped unless it panics.
  abbrev pub instead_at : Text → Option Session → Hall S → Made S
  instead_at user none h =
      let done = unlock_local_user w.kv w.network user h.registry h.etcd in
      record { hall = unlocked user h; session = none; error = lock_error done.0.1 }
  instead_at user (some s) h =
      let done = close s h in
      record { hall = done.hall; session = some done.session; error = recovered done.ending }

  -- `hall_service.Instead`
  unfoldable pub instead : Text → Hall S → Made S
  unfolding close
  instead user h = instead_at user (lookup user h.sessions) h

-- `ClientStream` sets the function.
abbrev pub with_client : Session → Session
with_client s = record s { has_client = true }
