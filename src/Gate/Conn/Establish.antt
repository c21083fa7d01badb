-- ===== src/Gate/Conn/Establish.antt =====
-- gate/conn.go: the two reads of the handshake, and `serve` up to the start of the goroutines. When
-- the time for the handshake is over the socket is closed, so the next read is a failed one.
pub mod Accepted
pub mod Stalled
pub mod Opened
use gira.Prelude.{
  ℕ, ◌+◌, Bool, true, false, not, ◌||◌, Option, none, some, List, [], ◌∷◌, ◌++◌, eqb, if◌then◌else◌,
}
use gira.Prelude.Keys.{text_eqb}
use gira.Gate.Packet.{Packet, packets, stuck, decode, handshake, handshake_ack, bytes, refused}
use gira.Gate.Packet
use gira.Gate.Session.{set_secret}
use gira.Gate.Conn.{
  Conn, Env, Error, handshaking, working, closed, handshake_ack_error, invalid_packet,
  invalid_handler, read_fail, write_fail, json_fail, rsa_fail, validator_fail, packet_error,
}
use gira.Gate.Conn.Receive.{Read, arrived, failed}

-- The secret of a session whose server has an RSA key; `none` is an error of the decryption.
abbrev pub with_secret : Env → Conn → List ℕ → Option Conn
with_secret w c token =
    if text_eqb w.rsa_private_key [] then some c else elim (w.rsa_decrypt token w.rsa_private_key) [
      | none ↦ none
      | some key ↦ some (record c { session = set_secret c.session key })
    ]

-- Write the reply.
abbrev pub write_reply : Env → Conn → List ℕ → Conn × Option Error
write_reply w c reply = elim (Packet.encode handshake reply) [
  | refused e ↦ (c, some (packet_error e))
  | bytes out ↦
      if w.write_succeeds out
      then (record c { written = c.written ++ (out ∷ []) }, none)
      else (c, some write_fail)
]

-- What `recvHandshake` does with the one packet of the handshake.
unfoldable pub answer_handshake : Env → Conn → Packet → Conn × Option Error
unfolding set_secret
answer_handshake w c p =
    if eqb p.typ handshake
    then elim (w.token_of p.body) [
      | none ↦ (c, some json_fail)
      | some token ↦ elim (with_secret w c token) [
        | none ↦ (c, some rsa_fail)
        | some c' ↦ elim (w.validator p.body) [
          | some code ↦ (c', some (validator_fail code))
          | none ↦ elim (w.reply_of c'.session.id) [
            | none ↦ (c', some json_fail)
            | some reply ↦ write_reply w c' reply
          ]
        ]
      ]
    ]
    else (c, some invalid_packet)

-- How a part of the handshake ends: done, with the packets behind it and the reads to come; waiting
-- for a read; with an error; or in a panic.
pub data Shake : Type 0 where
  done : List Packet → List Read → Shake
  waiting crash : Shake
  refuses : Error → Shake

abbrev pub shake_of : List Read → Conn × Option Error → Conn × Shake
shake_of reads (c, none) = (c, done [] reads)
shake_of reads (c, some e) = (c, refuses e)

unfoldable pub recv_handshake : Env → Conn → List Read → Conn × Shake
recv_handshake w c [] = (c, waiting)
recv_handshake w c (failed ∷ reads) = (c, refuses read_fail)
recv_handshake w c (arrived input ∷ reads) =
    let c' = record c { decoder = (decode c.decoder input).0 } in
    elim (decode c.decoder input).1 [
      | packets ps ↦ elim ps [
        | [] ↦ recv_handshake w c' reads
        | p ∷ more ↦ elim more [
          | [] ↦ shake_of reads (answer_handshake w c' p)
          | q ∷ others ↦ (c', refuses handshake_ack_error)
        ]
      ]
      | Packet.Outcome.fails e ↦ (c', refuses (packet_error e))
      | Packet.Outcome.panic ↦ (c', crash)
      | stuck ↦ (c', crash)
    ]

unfoldable pub recv_handshake_ack : Conn → List Read → Conn × Shake
recv_handshake_ack c [] = (c, waiting)
recv_handshake_ack c (failed ∷ reads) = (c, refuses read_fail)
recv_handshake_ack c (arrived input ∷ reads) =
    let c' = record c { decoder = (decode c.decoder input).0 } in
    elim (decode c.decoder input).1 [
      | packets ps ↦ elim ps [
        | [] ↦ recv_handshake_ack c' reads
        | p ∷ more ↦
            if eqb p.typ handshake_ack
            then (record c' { status = working }, done more reads)
            else (c', refuses invalid_packet)
      ]
      | Packet.Outcome.fails e ↦ (c', refuses (packet_error e))
      | Packet.Outcome.panic ↦ (c', crash)
      | stuck ↦ (c', crash)
    ]

-- The deferred calls of `serve`: the status, the socket, and the context if there is one.
abbrev pub leave : Bool → Conn → Conn
leave with_context c = record c {
  status = closed;
  socket_open = false;
  cancelled = c.cancelled || with_context;
}

-- Behind the second read.
abbrev pub third_part : ℕ → Conn × Shake → (Conn × ℕ) × Shake
third_part errors second = elim second.1 [
  | waiting ↦ ((second.0, errors), waiting)
  | crash ↦ ((second.0, errors), crash)
  | refuses e ↦ ((leave true second.0, errors + 1), refuses e)
  | done left rest ↦ ((record second.0 { status = working }, errors), done left rest)
]

-- `serve` up to the goroutines, with the server's count of handshakes that failed. A crash ends the
-- program, and while it waits `serve` has not returned.
unfoldable pub establish : Env → Conn → ℕ → List Read → (Conn × ℕ) × Shake
establish w c errors reads =
    if not w.has_handler
    then ((leave false c, errors), refuses invalid_handler)
    else let first = recv_handshake w c reads in
      elim first.1 [
        | waiting ↦ ((first.0, errors), waiting)
        | crash ↦ ((first.0, errors), crash)
        | refuses e ↦ ((leave true first.0, errors + 1), refuses e)
        | done ps more ↦
            third_part errors (recv_handshake_ack (record first.0 { status = handshaking }) more)
      ]
