-- ===== src/Gate/Session.antt =====
-- gate/session.go: a client's session, its user and the values that handlers keep in it. Nobody else
-- has its map here: State and Restore, which share it with their caller, are left out.
mod Tests
use gira.Prelude.{
  ℕ, ◌+◌, ◌%◌, ◌^◌, Bool, true, false, Option, none, some, List, [], ◌∷◌, ltb, if◌then◌else◌,
}
use gira.Prelude.Int.{ℤ, pos, ltb_ℤ}
use gira.Prelude.Keys.{lookup, store, remove, text_key}

-- The dynamic type of an `interface{}` with its value. Floats are opaque bit patterns, and `other`
-- stands for every type that no getter names.
pub data Value : Type 0 where
  int int8 int16 int32 int64 : ℤ → Value
  uint uint8 uint16 uint32 uint64 : ℕ → Value
  float32 float64 : ℕ → Value
  string : List ℕ → Value
  other : ℕ → Value

-- The fields that the session's own operations use; `conn` stands in the model of the connection.
pub record Session : Type 0 where
  pub id : ℕ
  pub uid : ℤ
  pub values : List (List ℕ × Value)
  pub secret : List ℕ
  pub user_data : Option Value

pub data Error : Type 0 where
  illegal_uid : Error

-- `count` is the counter `sid` after it is raised, `modifier` the server's `sessionModifer`.
unfoldable pub new_session : ℕ → ℕ → Session
new_session count modifier = record {
  id = (count + modifier) % 2 ^ 64;
  uid = pos 0;
  values = [];
  secret = [];
  user_data = none;
}

unfoldable pub get_secret : Session → List ℕ
get_secret s = s.secret

unfoldable pub set_secret : Session → List ℕ → Session
set_secret s key = record s { secret = key }

unfoldable pub bind : Session → ℤ → Session × Option Error
bind s uid = if ltb_ℤ uid (pos 1) then (s, some illegal_uid) else (record s { uid = uid }, none)

-- `Remove`
unfoldable pub remove_key : Session → List ℕ → Session
remove_key s key = record s { values = remove key s.values }

-- `Set`
unfoldable pub set_key : Session → List ℕ → Value → Session
set_key s key value = record s { values = store key value s.values }

unfoldable pub set_user_data : Session → Value → Session
set_user_data s value = record s { user_data = some value }

unfoldable pub has_key : Session → List ℕ → Bool
has_key s key = elim (lookup key s.values) [ none ↦ false | some v ↦ true ]

-- The type assertions of the getters.
abbrev pub as_int : Value → Option ℤ
as_int (int v) = some v
as_int _ = none

abbrev pub as_int8 : Value → Option ℤ
as_int8 (int8 v) = some v
as_int8 _ = none

abbrev pub as_int16 : Value → Option ℤ
as_int16 (int16 v) = some v
as_int16 _ = none

abbrev pub as_int32 : Value → Option ℤ
as_int32 (int32 v) = some v
as_int32 _ = none

abbrev pub as_int64 : Value → Option ℤ
as_int64 (int64 v) = some v
as_int64 _ = none

abbrev pub as_uint : Value → Option ℕ
as_uint (uint v) = some v
as_uint _ = none

abbrev pub as_uint8 : Value → Option ℕ
as_uint8 (uint8 v) = some v
as_uint8 _ = none

abbrev pub as_uint16 : Value → Option ℕ
as_uint16 (uint16 v) = some v
as_uint16 _ = none

abbrev pub as_uint32 : Value → Option ℕ
as_uint32 (uint32 v) = some v
as_uint32 _ = none

abbrev pub as_uint64 : Value → Option ℕ
as_uint64 (uint64 v) = some v
as_uint64 _ = none

abbrev pub as_float32 : Value → Option ℕ
as_float32 (float32 v) = some v
as_float32 _ = none

abbrev pub as_float64 : Value → Option ℕ
as_float64 (float64 v) = some v
as_float64 _ = none

abbrev pub as_string : Value → Option (List ℕ)
as_string (string v) = some v
as_string _ = none

-- What all getters do: the value under the key if it has the type, and else the zero of the type.
abbrev pub or_zero : {A : Type 0} → A → Option A → A
or_zero zero none = zero
or_zero zero (some v) = v

abbrev pub getter : {A : Type 0} → (Value → Option A) → A → Session → List ℕ → A
getter as_type zero s key = elim (lookup key s.values) [
  | none ↦ zero
  | some v ↦ or_zero zero (as_type v)
]

abbrev pub get_int : Session → List ℕ → ℤ
get_int = getter as_int (pos 0)

abbrev pub get_int8 : Session → List ℕ → ℤ
get_int8 = getter as_int8 (pos 0)

abbrev pub get_int16 : Session → List ℕ → ℤ
get_int16 = getter as_int16 (pos 0)

abbrev pub get_int32 : Session → List ℕ → ℤ
get_int32 = getter as_int32 (pos 0)

abbrev pub get_int64 : Session → List ℕ → ℤ
get_int64 = getter as_int64 (pos 0)

abbrev pub get_uint : Session → List ℕ → ℕ
get_uint = getter as_uint 0

abbrev pub get_uint8 : Session → List ℕ → ℕ
get_uint8 = getter as_uint8 0

abbrev pub get_uint16 : Session → List ℕ → ℕ
get_uint16 = getter as_uint16 0

abbrev pub get_uint32 : Session → List ℕ → ℕ
get_uint32 = getter as_uint32 0

abbrev pub get_uint64 : Session → List ℕ → ℕ
get_uint64 = getter as_uint64 0

abbrev pub get_float32 : Session → List ℕ → ℕ
get_float32 = getter as_float32 0

abbrev pub get_float64 : Session → List ℕ → ℕ
get_float64 = getter as_float64 0

abbrev pub get_string : Session → List ℕ → List ℕ
get_string = getter as_string []

-- `Value`: `none` is the nil interface.
abbrev pub get_value : Session → List ℕ → Option Value
get_value s key = lookup key s.values

abbrev pub get_user_data : Session → Option Value
get_user_data s = s.user_data

unfoldable pub clear : Session → Session
clear s = record s { uid = pos 0; values = [] }
