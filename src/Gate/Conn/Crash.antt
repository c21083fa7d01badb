-- ===== src/Gate/Conn/Crash.antt =====
-- A packet that crashes the server. (gate/conn.go, gate/message/message.go)
use Prim.Native.Nat.{bit_and}
use gira.Prelude.{ℕ, ◌≡◌, ◌/◌, ◌%◌, refl, [], ◌∷◌}
use gira.Gate.Packet.{data_type}
use gira.Gate.Message.{
  Routes, Result, notify, push, decode, decode_id, decode_code, decode_text, decode_rest, routable,
  has_id, invalid_type, route_compress_mask,
}
use gira.Gate.Message
use gira.Gate.Conn.{Conn, Env}
use gira.Gate.Conn.Receive.{process_packet, crash}

truncated_code :
    (d : Routes) (flag b : ℕ)
    → flag / 2 % 8 ≡ notify
    → bit_and flag route_compress_mask ≡ 1
    → decode d (flag ∷ b ∷ []) [] ≡ Message.Result.panic
unfolding decode
truncated_code d flag b n c = rw (n, c) refl

-- A data packet with the two bytes of a notify whose flag says that its route is a code, and whose
-- code has one byte, crashes the server if the array of the decoder's buffer ends with the packet:
-- `Decode` panics, and nothing recovers.
pub process_packet-truncated_code :
    (w : Env) (c : Conn) (flag b : ℕ)
    → flag / 2 % 8 ≡ notify
    → bit_and flag route_compress_mask ≡ 1
    → w.beyond ≡ []
    → process_packet w c (record { typ = data_type; size = 2; body = flag ∷ b ∷ [] })
      ≡ (record c { last_at = w.now }, crash)
unfolding process_packet
process_packet-truncated_code w c flag b n m e = rw (e, truncated_code w.routes flag b n m) refl
