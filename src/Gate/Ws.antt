-- ===== src/Gate/Ws.antt =====
-- gate/ws/wsconn.go: a websocket connection read as a stream of bytes. What the websocket library's
-- readers give to each read, and which messages come before NextReader fails, are lists.
pub mod Stream
mod Tests
use gira.Prelude.{ℕ, zero, suc, Bool, true, false, Option, none, some, List, [], ◌∷◌, ◌++◌}

abbrev pub Bytes : Type 0
Bytes = List ℕ

-- What a message's reader gives: to each read, without an error, and then, with io.EOF or, where it
-- is broken, with another error.
pub record Reader : Type 0 where
  pub pieces : List Bytes
  pub last : Bytes
  pub broken : Bool

-- `messages` are the readers that NextReader is yet to give, before it fails.
pub record Conn : Type 0 where
  pub reader : Option Reader
  pub messages : List Reader

pub data Error : Type 0 where
  closed read_failed : Error

pub data Result : Type 0 where
  result : Conn → Bytes → Option Error → Result

abbrev pub new_conn : List Reader → Conn
new_conn messages = record { reader = none; messages = messages }

-- A reader behind its end.
abbrev pub ended : Reader
ended = record { pieces = []; last = []; broken = false }

-- Behind io.EOF the next reader is taken; without one, the bytes that were read are not given out.
abbrev pub next : Bytes → List Reader → Result
next bytes [] = result (record { reader = some ended; messages = [] }) [] (some closed)
next bytes (r ∷ rs) = result (record { reader = some r; messages = rs }) bytes none

abbrev pub finish : Bytes → Bool → List Reader → Result
finish bytes true rs =
    result (record { reader = some (record ended { broken = true }); messages = rs }) bytes
      (some read_failed)
finish bytes false rs = next bytes rs

abbrev pub read_from : List Bytes → Bytes → Bool → List Reader → Result
read_from [] last broken rs = finish last broken rs
read_from (p ∷ ps) last broken rs =
    result
      (record {
        reader = some (record { pieces = ps; last = last; broken = broken });
        messages = rs;
      })
      p none

abbrev pub read_of : Option Reader → List Reader → Result
read_of (some r) rs = read_from r.pieces r.last r.broken rs
read_of none [] = result (record { reader = none; messages = [] }) [] (some closed)
read_of none (r ∷ rs) = read_from r.pieces r.last r.broken rs

-- `Read`
unfoldable pub read : Conn → Result
read c = read_of c.reader c.messages
