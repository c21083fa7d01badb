-- ===== src/Lib.antt =====
-- gira, a framework for game servers: what its gateway does with bytes, packets, messages, sessions,
-- connections and the halls behind it, and how its registry finds services and locks users.
--
-- The parts and how they interact. A client opens a TCP or websocket connection to the gateway.
-- The byte stream is a sequence of packets (gate/packet), read by a Decoder that keeps what has
-- not made up a packet yet. The first packets are the handshake, which may set a secret; then data
-- packets carry messages (gate/message) with a route and an id, whose payload is encrypted
-- (gate/crypto) if the session has a secret. A connection (gate/conn.go) runs a reading and a
-- writing goroutine around the handler, with a channel each, and belongs to a session
-- (gate/session.go). gate/client is the other end.
--
-- Which file models which part:
--   Gate/Packet, its state Decoder and its operations decode (Decoder.Decode), forward, encode
--     (Encode): gate/packet/packet.go and gate/packet/codec.go. decode_loop runs on fuel, one round
--     for each byte in the buffer and one more; each round takes a header, so this is enough, and
--     the theorems show that the loop never runs out.
--   Gate/Message, with encode, decode and set_dictionary over the two maps of Routes:
--     gate/message/message.go. The id loop recurs on the accessibility of the id.
--   Gate/Crypto, with des_encrypt and des_decrypt over a cipher that is a parameter:
--     gate/crypto/crypto.go.
--   Gate/Session, a record with the operations of the type Session but State and Restore, which share
--     the map with their caller: gate/session.go.
--   Gate/Conn, with a record for the type Conn: gate/conn.go. Conn/Send proves what the sends put on
--     the wire; Conn/Receive models the reading goroutine (processPacket, processMessage, the loop,
--     Recv) over a list of reads, and Conn/Inbox and Conn/Delivery prove what it hands on;
--     Conn/Establish models recvHandshake, recvHandshakeAck and serve up to the goroutines.
--   Gate/Serve, the goroutines of serve interleaved, as a step relation on the type Live, with the
--     capacities of the two channels, the contexts and the clock, where any goroutine may send and
--     receive: gate/conn.go.
--   Gate/Server, the settings and the address of a server; Server/Visits has the connections that it
--     takes in, as a step relation on its status, counters and map of sessions, where each connection
--     stands at a place of handleConn, and Serve, Maintain and Shutdown come at any time:
--     gate/server.go, and the same changes in gate/conn.go. There a connection may always leave its
--     handler; Gate/Serve has what it waits for.
--   Gate/Client, the client behind its dialling; Client/Traffic has its requests and its reading
--     goroutine: gate/client/client.go.
--   Gate/Ws, a websocket connection read as a stream of bytes: gate/ws/wsconn.go.
--   Smallgame/Upstream, the halls that the gateway of the smallgame framework knows, and its choice of
--     one (SelectPeer): framework/smallgame/gateway/server/upstream.go.
--   Smallgame/Login, the way of a client's first message to a hall: ServeClientStream of
--     framework/smallgame/gateway/server/server.go.
--   Smallgame/Relay, a client's session at that gateway, its pending messages and its two goroutines:
--     framework/smallgame/gateway/server/session.go.
--   Smallgame/Hall, how a hall makes and closes the session of a user, over the locks of the registry:
--     framework/smallgame/game/hall/session.go; Hall/Takeover has two halls over one etcd, with Instead
--     of hall.go and UserInstead of server.go beside it.
--   Registry/Trie, the word trie that finds services by prefix, as nodes with children; Trie/Index has
--     the map from words to paths that it stands for: registry/service.go.
--   Registry/Players, the locks of users over etcd, whose operations and laws are the records of
--     Players/Kv; Players/Nodes interleaves nodes, with commits that fail before or behind their
--     effect: registry/player.go.
-- Prelude has what the parts share: tests on numbers, lists over native numbers, maps as association
-- lists with comparable keys.
--
-- Bounds. Bytes, lengths and ids are natural numbers; where the code cuts them to 8, 24 or 64 bits
-- the definitions take the remainder. The counter of sessions is not cut: theorems that need it say
-- that fewer than 2^64 have been made. Strings are lists of bytes.
--
-- What is not modelled: sockets, JSON, DES, RSA, etcd, the validator, the time and random tokens are
-- parameters of the definitions that use them. Log calls, String methods and the options that only
-- set a field of the client are left out. In Gate/Conn and Gate/Client a channel is the list of what was sent and
-- a send never blocks; Gate/Serve has the blocking. The listeners, the rest of the
-- smallgame framework and the code generators are not modelled. Of the registry, the views of peers
-- and services are not modelled, nor the printing and parsing of etcd keys: the keys of Players/Kv are
-- told apart by their parts, which is right for names without a slash.
pub mod Prelude
pub mod Gate
pub mod Smallgame
pub mod Registry
