-- ===== src/Gate/Packet.antt =====
-- gate/packet/packet.go and gate/packet/codec.go: the framing of the byte stream. A packet on the
-- wire is one byte of type, three bytes of length, highest first, and the data.
pub mod Wire
pub mod Stream
pub mod Chunks
pub mod Delivery
pub mod Reading
mod Tests
use gira.Prelude.{
  ℕ, zero, suc, ◌+◌, ◌*◌, ◌/◌, ◌%◌, Bool, ◌||◌, Option, none, some, List, [], ◌∷◌, ◌++◌, length,
  take, drop, get_or, ltb, if◌then◌else◌,
}

abbrev pub head_length : ℕ
head_length = 4

abbrev pub max_packet_size : ℕ
max_packet_size = 64 * 1024

-- The packet types; `data_type` is the constant `Data`.
abbrev pub handshake : ℕ
handshake = 0x01

abbrev pub handshake_ack : ℕ
handshake_ack = 0x02

abbrev pub data_type : ℕ
data_type = 0x03

abbrev pub heartbeat : ℕ
heartbeat = 0x04

abbrev pub kick : ℕ
kick = 0x05

abbrev pub server_down : ℕ
server_down = 0x06

abbrev pub server_maintain : ℕ
server_maintain = 0x07

abbrev pub user_instead : ℕ
user_instead = 0x08

abbrev pub server_suspend : ℕ
server_suspend = 0x09

abbrev pub server_resume : ℕ
server_resume = 0x0a

abbrev pub type_min : ℕ
type_min = handshake

abbrev pub type_max : ℕ
type_max = server_resume

pub data Error : Type 0 where
  wrong_packet_type packet_size_exceed : Error

pub record Packet : Type 0 where
  pub typ : ℕ
  pub size : ℕ
  pub body : List ℕ

-- `size` is `none` where the Go field is -1: no header has been read.
pub record Decoder : Type 0 where
  pub buf : List ℕ
  pub size : Option ℕ
  pub typ : ℕ

unfoldable pub new_decoder : Decoder
new_decoder = record { buf = []; size = none; typ = 0 }

-- `result = result<<8 + int(v)` for each byte.
abbrev pub bytes_to_int_loop : ℕ → List ℕ → ℕ
bytes_to_int_loop result [] = result
bytes_to_int_loop result (v ∷ b) = bytes_to_int_loop (result * 256 + v) b

unfoldable pub bytes_to_int : List ℕ → ℕ
bytes_to_int b = bytes_to_int_loop 0 b

-- `& 0xFF` is the remainder by 256.
unfoldable pub int_to_bytes : ℕ → List ℕ
int_to_bytes n = n / 65536 % 256 ∷ n / 256 % 256 ∷ n % 256 ∷ []

abbrev pub bad_type : ℕ → Bool
bad_type typ = ltb typ type_min || ltb type_max typ

-- `none` is a nil error. The callers have checked that `head_length` bytes are there. A wrong type
-- leaves `size` as it was; a size that is too large is stored all the same.
unfoldable pub forward : Decoder → Decoder × Option Error
unfolding bytes_to_int
forward c =
    let header = take head_length c.buf in
    let typ = get_or header 0 0 in
    let size = bytes_to_int (drop 1 header) in
    let rest = drop head_length c.buf in
    if bad_type typ then (record c { buf = rest; typ = typ }, some wrong_packet_type) else (
      record { buf = rest; size = some size; typ = typ },
      if ltb max_packet_size size then some packet_size_exceed else none,
    )

-- What `Decode` comes to. `panic` is the slice error of `buf.Next(-1)`, and `stuck` is no Go
-- outcome: the loop ran out of fuel.
pub data Outcome : Type 0 where
  packets : List Packet → Outcome
  fails : Error → Outcome
  panic stuck : Outcome

-- The loop `for c.size <= c.buf.Len()`, with the packets collected so far.
unfoldable pub decode_loop : ℕ → Decoder → List Packet → Decoder × Outcome
decode_loop zero c found = (c, stuck)
decode_loop (suc fuel) c found = elim c.size [
  | none ↦ (c, panic)
  | some size ↦
      if ltb (length c.buf) size
      then (c, packets found)
      else let found' =
          found ++ (record { typ = c.typ; size = size; body = take size c.buf } ∷ []) in
        let c' = record c { buf = drop size c.buf } in
        if ltb (length c'.buf) head_length
        then (record c' { size = none }, packets found')
        else elim (forward c').1 [
          | some e ↦ ((forward c').0, fails e)
          | none ↦ decode_loop fuel (forward c').0 found'
        ]
]

-- Each further round of the loop takes a header, so one round for each byte is enough.
unfoldable pub decode : Decoder → List ℕ → Decoder × Outcome
decode c input =
    let c' = record c { buf = c.buf ++ input } in
    let fuel = suc (length c'.buf) in
    if ltb (length c'.buf) head_length then (c', packets []) else elim c'.size [
      | some size ↦ decode_loop fuel c' []
      | none ↦ elim (forward c').1 [
        | some e ↦ ((forward c').0, fails e)
        | none ↦ decode_loop fuel (forward c').0 []
      ]
    ]

pub data Encoded : Type 0 where
  bytes : List ℕ → Encoded
  refused : Error → Encoded

unfoldable pub encode : ℕ → List ℕ → Encoded
unfolding int_to_bytes
encode typ input =
    if bad_type typ
    then refused wrong_packet_type
    else bytes (typ ∷ int_to_bytes (length input) ++ input)
