-- ===== src/Gate/Message.antt =====
-- gate/message/message.go: the messages that travel in data packets, and the route dictionary.
pub mod Id
pub mod RoundTrip
pub mod Dictionary
pub mod Panics
mod Tests
use mathlib.Core.Bool.{◌||◌}
use mathlib.Core.Logic.{dite}
use mathlib.Core.WellFounded.{Acc}
use native.Mathlib.Decide.{dec_lt}
use Prim.Native.Nat.{bit_and, bit_or}
use gira.Prelude.{
  ℕ, zero, suc, ◌+◌, ◌*◌, ◌/◌, ◌%◌, ◌^◌, ◌<◌, Bool, true, false, Option, none, some, List, [], ◌∷◌,
  ◌++◌, arith, length, take, drop, ltb, eqb, if◌then◌else◌,
}
use gira.Prelude.Keys.{lookup, store, text_key, number_key}
use gira.Prelude.Order.{lt_wf}

-- A Go string is the list of its bytes.
abbrev pub Text : Type 0
Text = List ℕ

abbrev pub request : ℕ
request = 0x00

abbrev pub notify : ℕ
notify = 0x01

abbrev pub response : ℕ
response = 0x02

abbrev pub push : ℕ
push = 0x03

abbrev pub route_compress_mask : ℕ
route_compress_mask = 0x01

abbrev pub head_length : ℕ
head_length = 0x02

-- The two package variables `routes` and `codes`.
pub record Routes : Type 0 where
  pub routes : List (Text × ℕ)
  pub codes : List (ℕ × Text)

pub data Error : Type 0 where
  wrong_message_type invalid_message route_info_not_found wrong_message : Error

pub record Message : Type 0 where
  pub typ : ℕ
  pub id : ℕ
  pub route : Text
  pub body : List ℕ
  pub compressed : Bool

pub data Result {ℓ} (A : Type ℓ) : Type ℓ where
  ok : A → Result A
  fails : Error → Result A
  panic : Result A

abbrev pub routable : ℕ → Bool
routable t = eqb t request || (eqb t notify || eqb t push)

-- The types are bytes, so `t < Request` is never true.
abbrev pub invalid_type : ℕ → Bool
invalid_type t = ltb t request || ltb push t

-- Requests and responses carry an id.
abbrev pub has_id : ℕ → Bool
has_id t = eqb t request || eqb t response

shift_shrinks : (n : ℕ) → 0 < n / 128 → n / 128 < n
shift_shrinks n h = omega arith

-- The loop of `Encode`: seven bits a byte, lowest first, 128 added to all bytes but the last.
unfoldable pub encode_id_loop : (n : ℕ) → Acc ◌<◌ n → List ℕ
unfolding shift_shrinks
encode_id_loop n (Acc.intro _ smaller) =
    dite (dec_lt 0 (n / 128))
      (λ more. (n % 128 + 128) ∷ encode_id_loop (n / 128) (smaller _ (shift_shrinks n more)))
      (λ _. n % 128 ∷ [])

unfoldable pub encode_id : ℕ → List ℕ
unfolding encode_id_loop lt_wf dec_lt
encode_id n = encode_id_loop n (lt_wf.apply n)

-- The route as `Encode` writes it: its code in the dictionary, or its length in one byte and itself.
abbrev pub encode_route : Option ℕ → Text → List ℕ
encode_route (some code) route = code / 256 % 256 ∷ code % 256 ∷ []
encode_route none route = length route % 256 ∷ route

abbrev pub is_some {ℓ} : {A : Type ℓ} → Option A → Bool
is_some none = false
is_some (some a) = true

abbrev pub flag_of : ℕ → Bool → ℕ
flag_of typ compressed =
    let flag = typ * 2 % 256 in if compressed then bit_or flag route_compress_mask else flag

unfoldable pub encode : Routes → Message → Result (List ℕ)
encode d m =
    let code = lookup m.route d.routes in
    if invalid_type m.typ
    then fails wrong_message_type
    else ok (
        flag_of m.typ (is_some code)
        ∷ ((if has_id m.typ then encode_id m.id else [])
            ++ ((if routable m.typ then encode_route code m.route else []) ++ m.body)))

-- The loop of `Decode` over the bytes from `offset` on: the id, and the bytes behind its last byte,
-- or `none` if every byte had its top bit set. uint64 arithmetic wraps, and a shift by 64 or more
-- gives 0.
unfoldable pub id_loop : List ℕ → ℕ → ℕ → ℕ × Option (List ℕ)
id_loop [] shift id = (id, none)
id_loop (b ∷ rest) shift id =
    let id' = (id + b % 128 * 2 ^ shift % 2 ^ 64) % 2 ^ 64 in
    if ltb b 128 then (id', some rest) else id_loop rest (shift + 7) id'

-- Without a last byte `offset` stays where it was.
unfoldable pub decode_id : List ℕ → ℕ × List ℕ
decode_id rest = elim (id_loop rest 0 0).1 [
  | some rest' ↦ ((id_loop rest 0 0).0, rest')
  | none ↦ ((id_loop rest 0 0).0, rest)
]

-- `data[offset:(offset + 2)]` may reach past the message, into what the slice's array holds behind
-- it; the check that follows refuses the message then.
abbrev pub decode_code : Routes → ℕ → ℕ → List ℕ → List ℕ → Result Message
decode_code d typ id (hi ∷ lo ∷ rest) beyond = elim (lookup (hi * 256 + lo) d.codes) [
  | some route ↦ ok (record { typ = typ; id = id; route = route; body = rest; compressed = true })
  | none ↦ fails route_info_not_found
]
decode_code d typ id (hi ∷ []) (lo ∷ beyond) = elim (lookup (hi * 256 + lo) d.codes) [
  | some route ↦ fails wrong_message
  | none ↦ fails route_info_not_found
]
decode_code d typ id (hi ∷ []) [] = panic
decode_code d typ id [] beyond = fails wrong_message

abbrev pub decode_text : ℕ → ℕ → List ℕ → Result Message
decode_text typ id [] = fails wrong_message
decode_text typ id (rl ∷ rest) =
    if ltb (length rest) rl
    then fails wrong_message
    else ok (record {
      typ = typ;
      id = id;
      route = take rl rest;
      body = drop rl rest;
      compressed = false;
    })

-- `offset >= len(data)` is `[]`: nothing is left.
abbrev pub decode_rest : Routes → ℕ → ℕ → ℕ → List ℕ → List ℕ → Result Message
decode_rest d flag typ id [] beyond = fails wrong_message
decode_rest d flag typ id (b ∷ rest) beyond =
    if routable typ
    then (if eqb (bit_and flag route_compress_mask) 1
        then decode_code d typ id (b ∷ rest) beyond
        else decode_text typ id (b ∷ rest))
    else ok (record { typ = typ; id = id; route = []; body = b ∷ rest; compressed = false })

-- `beyond` is what the array of `data` holds behind it.
unfoldable pub decode : Routes → List ℕ → List ℕ → Result Message
decode d [] beyond = fails invalid_message
decode d (flag ∷ []) beyond = fails invalid_message
decode d (flag ∷ b ∷ rest) beyond =
    let typ = flag / 2 % 8 in
    if invalid_type typ
    then fails wrong_message_type
    else (if has_id typ
        then decode_rest d flag typ (decode_id (b ∷ rest)).0 (decode_id (b ∷ rest)).1 beyond
        else decode_rest d flag typ 0 (b ∷ rest) beyond)

-- `SetDictionary` over the entries in the order of the range; `trim` is `strings.TrimSpace`. The
-- duplication checks only log.
unfoldable pub set_dictionary : (Text → Text) → List (Text × ℕ) → Routes → Routes
set_dictionary trim [] d = d
set_dictionary trim ((route, code) ∷ dict) d =
    set_dictionary trim dict (record {
      routes = store (trim route) code d.routes;
      codes = store code (trim route) d.codes;
    })
