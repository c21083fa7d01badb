-- ===== src/Smallgame/Relay/Order.antt =====
-- Nothing that a client sends is lost, doubled or put out of order.
-- (framework/smallgame/gateway/server/session.go)
use gira.Prelude.{
  ℕ, ◌+◌, ◌≤◌, ◌≡◌, refl, sym, ap, ◌∙◌, List, [], ◌∷◌, ◌++◌, map, append-nil, append_assoc, arith,
}
use mathlib.Core.List.{map-append}
use gira.Gate.Conn.{Inbound}
use gira.Smallgame.Relay.{
  ClientSession, Request, Stream, takes, missing, fails, tried, request_of, process_client_message,
  flush, send_or_wait, behind, settled, new_session, on_message, rounds, forward,
}

-- The session asks in its own name, and what was sent with what waits is this list.
abbrev Holds : (Inbound → Request) → ClientSession → List Request → Type 0
Holds f s all = (request_of s ≡ f) × (s.sent ++ map f s.pending_messages ≡ all)

module _ (stream : ℕ → Stream) (f : Inbound → Request) where
  flush-Holds :
      (s : ClientSession) (ps : List Inbound)
      → request_of s ≡ f
      → Holds f (flush stream s ps) (s.sent ++ map f ps)
  unfolding flush process_client_message
  flush-Holds s [] own = (own, refl)
  flush-Holds s (p ∷ ps) own = go (flush-Holds (tried takes s p).0 ps own) (stream s.sends)
    where
      go :
          Holds f
            (flush stream (tried takes s p).0 ps)
            ((s.sent ++ (request_of s p ∷ [])) ++ map f ps)
          → (x : Stream)
          → Holds f
              (settled (λ t. flush stream t ps) (p ∷ ps) (tried x s p))
              (s.sent ++ map f (p ∷ ps))
      go (kept, order) takes = (
        kept,
        order
            ∙ ap (λ g. (s.sent ++ (g p ∷ [])) ++ map f ps) own
            ∙ append_assoc s.sent (f p ∷ []) (map f ps),
      )
      go h missing = (own, refl)
      go h fails = (own, refl)

  send_or_wait-Holds :
      (s : ClientSession) (m : Inbound)
      → s.pending_messages ≡ []
      → request_of s ≡ f
      → Holds f (send_or_wait stream s m) (s.sent ++ (f m ∷ []))
  unfolding send_or_wait process_client_message
  send_or_wait-Holds s m idle own = go (stream s.sends)
    where
      go :
          (x : Stream)
          → Holds f
              (settled (λ t. t) (s.pending_messages ++ (m ∷ [])) (tried x s m))
              (s.sent ++ (f m ∷ []))
      go takes = (
        own,
        ap (λ ps. (s.sent ++ (request_of s m ∷ [])) ++ map f ps) idle
            ∙ append-nil (s.sent ++ (request_of s m ∷ []))
            ∙ ap (λ g. s.sent ++ (g m ∷ [])) own,
      )
      go missing = (own, ap (λ ps. s.sent ++ map f (ps ++ (m ∷ []))) idle)
      go fails = (own, ap (λ ps. s.sent ++ map f (ps ++ (m ∷ []))) idle)

  behind-Holds :
      (s : ClientSession) (m : Inbound) (ps : List Inbound) (all : List Request)
      → s.pending_messages ≡ ps
      → Holds f s all
      → Holds f (behind ps stream s m) (all ++ (f m ∷ []))
  behind-Holds s m [] all e h =
      let sent_all : s.sent ≡ all =
        sym (append-nil s.sent) ∙ ap (λ ps. s.sent ++ map f ps) (sym e) ∙ h.1 in
      let (kept, order) = send_or_wait-Holds s m e h.0 in
      (kept, order ∙ ap (λ xs. xs ++ (f m ∷ [])) sent_all)
  behind-Holds s m (p ∷ ps) all e h = (
    h.0,
    ap (λ xs. s.sent ++ xs) (map-append f s.pending_messages (m ∷ []))
        ∙ sym (append_assoc s.sent (map f s.pending_messages) (f m ∷ []))
        ∙ ap (λ xs. xs ++ (f m ∷ [])) h.1,
  )

  on_message-Holds :
      (s : ClientSession) (m : Inbound) (all : List Request)
      → Holds f s all
      → Holds f (on_message stream s m) (all ++ (f m ∷ []))
  unfolding on_message
  on_message-Holds s m all h =
      let t = flush stream s s.pending_messages in
      let (kept, order) = flush-Holds s s.pending_messages h.0 in
      behind-Holds t m t.pending_messages all refl (kept, order ∙ h.1)

  rounds-Holds :
      (s : ClientSession) (ms : List Inbound) (all : List Request)
      → Holds f s all
      → Holds f (rounds stream s ms) (all ++ map f ms)
  rounds-Holds s [] all h = (h.0, h.1 ∙ sym (append-nil all))
  rounds-Holds s (m ∷ ms) all h =
      let (kept, order) =
        rounds-Holds (on_message stream s m) ms (all ++ (f m ∷ [])) (on_message-Holds s m all h) in
      (kept, order ∙ append_assoc all (f m ∷ []) (map f ms))

-- Whatever the hall's streams do to each send, what a client session has sent to halls, followed by
-- what is pending, is what the client sent, in order, with the session's member and id: nothing is
-- lost, doubled or overtaken.
pub forward-in_order :
    (stream : ℕ → Stream) (session_id : ℕ) (member_id : List ℕ) (first : Inbound)
    (ms : List Inbound)
    → let s = new_session session_id member_id in
      let t = forward stream s first ms in
      t.sent ++ map (request_of s) t.pending_messages ≡ map (request_of s) (first ∷ ms)
unfolding forward new_session
forward-in_order stream session_id member_id first ms =
    let s = new_session session_id member_id in
    (rounds-Holds stream (request_of s) (send_or_wait stream s first) ms (request_of s first ∷ [])
      (send_or_wait-Holds stream (request_of s) s first refl refl)).1

-- A stream that takes every message from some send on.
module _ (stream : ℕ → Stream) where
  flush-empties :
      (s : ClientSession) (ps : List Inbound)
      → ((n : ℕ) → s.sends ≤ n → stream n ≡ takes)
      → (flush stream s ps).pending_messages ≡ []
  unfolding flush process_client_message
  flush-empties s [] well = refl
  flush-empties s (p ∷ ps) well =
      go (flush-empties (tried takes s p).0 ps (λ n l. well n (omega arith))) (stream s.sends)
        (well s.sends (omega arith))
    where
      go :
          (flush stream (tried takes s p).0 ps).pending_messages ≡ []
          → (x : Stream) → x ≡ takes
          → (settled (λ t. flush stream t ps) (p ∷ ps) (tried x s p)).pending_messages ≡ []
      go h takes e = h
      go h missing e = cc
      go h fails e = cc

  flush-sends : (s : ClientSession) (ps : List Inbound) → s.sends ≤ (flush stream s ps).sends
  unfolding flush process_client_message
  flush-sends s [] = omega arith
  flush-sends s (p ∷ ps) = go (flush-sends (tried takes s p).0 ps) (stream s.sends)
    where
      go :
          s.sends + 1 ≤ (flush stream (tried takes s p).0 ps).sends
          → (x : Stream) → s.sends ≤ (settled (λ t. flush stream t ps) (p ∷ ps) (tried x s p)).sends
      go h takes = omega (arith, h)
      go h missing = omega arith
      go h fails = omega arith

behind-empties :
    (stream : ℕ → Stream) (t : ClientSession) (m : Inbound) (ps : List Inbound)
    → t.pending_messages ≡ ps
    → ps ≡ []
    → stream t.sends ≡ takes
    → (behind ps stream t m).pending_messages ≡ []
unfolding send_or_wait process_client_message
behind-empties stream t m (p ∷ ps) e empty w = cc
behind-empties stream t m [] e empty w = go (stream t.sends) w
  where
    go :
        (x : Stream)
        → x ≡ takes
        → (settled (λ u. u) (t.pending_messages ++ (m ∷ [])) (tried x t m)).pending_messages ≡ []
    go takes q = e
    go missing q = cc
    go fails q = cc

-- From when the hall's stream takes every message, the next message of the client empties the
-- pending ones: the hall gets them in order, and then this message.
pub on_message-delivers :
    (stream : ℕ → Stream) (s : ClientSession) (m : Inbound)
    → ((n : ℕ) → s.sends ≤ n → stream n ≡ takes)
    → ((on_message stream s m).pending_messages ≡ [])
      × ((on_message stream s m).sent
          ≡ s.sent ++ map (request_of s) s.pending_messages ++ (request_of s m ∷ []))
unfolding on_message
on_message-delivers stream s m well =
    let t = flush stream s s.pending_messages in
    let idle : t.pending_messages ≡ [] = flush-empties stream s s.pending_messages well in
    let later : stream t.sends ≡ takes = well t.sends (flush-sends stream s s.pending_messages) in
    let (kept, order) =
      on_message-Holds stream (request_of s) s m (s.sent ++ map (request_of s) s.pending_messages)
        (refl, refl) in
    let empty : (on_message stream s m).pending_messages ≡ [] =
      behind-empties stream t m t.pending_messages refl idle later in
    (
      empty,
      sym (append-nil (on_message stream s m).sent)
          ∙ ap (λ ps. (on_message stream s m).sent ++ map (request_of s) ps) (sym empty)
          ∙ order,
    )
