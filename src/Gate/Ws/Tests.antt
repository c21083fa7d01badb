-- ===== src/Gate/Ws/Tests.antt =====
-- Reads of a websocket connection, and the theorem at concrete messages. (gate/ws/wsconn.go)
use gira.Prelude.{◌≡◌, refl, false, some, List, [], ◌∷◌}
use gira.Gate.Ws.{Reader, closed, new_conn}
use gira.Gate.Ws.Stream.{drain, reads_of, received, drain-received}

abbrev messages : List Reader
messages =
    record { pieces = (1 ∷ 2 ∷ []) ∷ (3 ∷ []) ∷ []; last = 4 ∷ []; broken = false }
    ∷ record { pieces = (5 ∷ []) ∷ []; last = 6 ∷ []; broken = false }
    ∷ []

received-messages : received messages ≡ (1 ∷ 2 ∷ 3 ∷ 4 ∷ 5 ∷ [], some closed)
unfolding received
received-messages = refl

drain-received_example : drain (reads_of messages) (new_conn messages) ≡ received messages
drain-received_example = drain-received messages
