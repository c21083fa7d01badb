-- ===== src/Gate/Conn/Delivery.antt =====
-- The reading goroutine over a whole stream of packets. (gate/conn.go)
use gira.Prelude.{
  ℕ, ◌≡◌, refl, sym, ap, ◌∙◌, true, false, List, [], ◌∷◌, ◌++◌, append_assoc, All, joined, map,
  All-append_left, All-append_right, subst,
}
use gira.Gate.Packet.{Packet, packets, decode}
use gira.Gate.Packet.Wire.{IsByte}
use gira.Gate.Packet.Reading.{Reading, Drained, decode-Reading, decode-Drained}
use gira.Gate.Session.{Session}
use gira.Gate.Conn.{Env, Conn, Inbound, is_closed}
use gira.Gate.Conn.Receive.{
  Step, goes_on, Read, arrived, process_packet, process_packets, read_loop,
}
use gira.Gate.Conn.Inbox.{
  Carries, after, HandedOn, HandedOn-refl, HandedOn-trans, HandedOn-after, HandedOn-decoder,
  process_packet-Carries,
}

-- What follows the handling of a packet, and of the packets of a read.
abbrev behind_packet : Env → List Packet → Conn × Step → Conn × Step
behind_packet w ps r = elim r.1 [ goes_on ↦ process_packets w r.0 ps | other ↦ r ]

abbrev behind_read : Env → List Read → Conn × Step → Conn × Step
behind_read w reads r = elim r.1 [ goes_on ↦ read_loop w r.0 reads | other ↦ r ]

process_packets-next :
    (w : Env) (c c' : Conn) (p : Packet) (ps : List Packet)
    → process_packet w c p ≡ (c', goes_on)
    → process_packets w c (p ∷ ps) ≡ process_packets w c' ps
unfolding process_packets
process_packets-next w c c' p ps e = ap (behind_packet w ps) e

-- One round of the reading loop that goes on.
read_loop-next :
    (w : Env) (c c' : Conn) (input : List ℕ) (ps : List Packet) (reads : List Read)
    → is_closed c.status ≡ false
    → (decode c.decoder input).1 ≡ packets ps
    → process_packets w (record c { decoder = (decode c.decoder input).0 }) ps ≡ (c', goes_on)
    → read_loop w c (arrived input ∷ reads) ≡ read_loop w c' reads
unfolding read_loop
read_loop-next w c c' input ps reads open_still given done =
    rw (open_still, given, read_loop) (ap (behind_read w reads) done)

-- The messages that the packets carry, in order.
abbrev pub carried : (Packet → List Inbound) → List Packet → List Inbound
carried expect [] = []
carried expect (p ∷ ps) = expect p ++ carried expect ps

-- The packets carry these messages to a connection with this secret.
abbrev pub AllCarry : Env → (Packet → List Inbound) → List ℕ → List Packet → Type 0
AllCarry w expect secret = All (λ q. Carries w secret q (expect q))

module _ (w : Env) (has : w.has_handler ≡ true) (expect : Packet → List Inbound) where
  carried-append :
      (ps qs : List Packet) → carried expect (ps ++ qs) ≡ carried expect ps ++ carried expect qs
  carried-append [] qs = refl
  carried-append (p ∷ ps) qs = rw (carried-append ps qs, append_assoc)

  process_packets-Carries :
      (c : Conn) (ps : List Packet)
      → All (λ p. Carries w c.session.secret p (expect p)) ps
      → (c' : Conn) × (process_packets w c ps ≡ (c', goes_on))
        × HandedOn c c' (carried expect ps)
        × (c'.decoder ≡ c.decoder)
  process_packets-Carries c [] all =
      (c, (unfold process_packets in refl), HandedOn-refl c c refl, refl)
  process_packets-Carries c (p ∷ ps) all =
      let here = process_packet-Carries w c p (expect p) has all.0 in
      let next = after w c (expect p) in
      let (c', rest, handed, dec) = process_packets-Carries next ps all.1 in
      (
        c',
        process_packets-next w c next p ps here ∙ rest,
        HandedOn-trans c next c' (expect p) (carried expect ps) (HandedOn-after w c (expect p))
            handed,
        dec,
      )

  -- One read of a stream.
  read_once :
      (c : Conn) (chunk future : List ℕ) (qs : List Packet) (reads : List Read)
      → is_closed c.status ≡ false
      → Reading c.decoder (chunk ++ future) qs
      → AllCarry w expect c.session.secret qs
      → (c' : Conn) × (ps rest : List Packet) × (read_loop w c (arrived chunk ∷ reads)
          ≡ read_loop w c' reads)
        × (qs ≡ ps ++ rest)
        × HandedOn c c' (carried expect ps)
        × Reading c'.decoder future rest
        × AllCarry w expect c'.session.secret rest
        × (is_closed c'.status ≡ false)
        × (future ≡ [] → Drained c'.decoder rest)
  read_once c chunk future qs reads open_still r all =
      let (ps, rest, given, split, r') = decode-Reading c.decoder chunk future qs r in
      let mid = record c { decoder = (decode c.decoder chunk).0 } in
      let all' = subst (AllCarry w expect c.session.secret) split all in
      let (c1, done, handed, dec) =
        process_packets-Carries mid ps
          (All-append_left (λ q. Carries w c.session.secret q (expect q)) ps rest all') in
      let drained : future ≡ [] → Drained (decode c.decoder chunk).0 rest = λ e.
        decode-Drained c.decoder chunk ps rest r.ready
          (All-append_left IsByte chunk future r.all_bytes) given
          (subst (λ f. Reading (decode c.decoder chunk).0 f rest) e r') in
      (
        c1,
        ps,
        rest,
        read_loop-next w c c1 chunk ps reads open_still given done,
        split,
        HandedOn-trans c mid c1 [] (carried expect ps) (HandedOn-decoder c mid.decoder) handed,
        subst (λ d. Reading d future rest) (sym dec) r',
        subst (λ (x : Session). AllCarry w expect x.secret rest) (sym handed.session)
            (All-append_right (λ q. Carries w c.session.secret q (expect q)) ps rest all'),
        ap is_closed handed.status ∙ open_still,
        λ e. subst (λ d. Drained d rest) (sym dec) (drained e),
      )

  -- A client sends valid packets that are heartbeats, or requests and notifies encoded and under
  -- the secret, to a connection that is not closed and whose server has a handler, and all their
  -- bytes arrive in any pieces, at least one. Then the reading goroutine goes on without an error,
  -- and has handed to the middlewares and to the handler exactly the messages of some first packets
  -- of these, in order: route, payload, and the id of a request or 0. The packets behind them,
  -- complete or not, are pending in the decoder, and there are none of them or fewer than four
  -- bytes in its buffer. Nothing is written or sent, and the session and the status stay.
  pub read_loop-delivers :
      (chunk : List ℕ) (chunks : List (List ℕ)) (c : Conn) (qs : List Packet)
      → is_closed c.status ≡ false
      → Reading c.decoder (chunk ++ joined chunks) qs
      → AllCarry w expect c.session.secret qs
      → (c' : Conn) × (ps rest : List Packet) × (read_loop w c (map arrived (chunk ∷ chunks))
          ≡ (c', goes_on))
        × (qs ≡ ps ++ rest)
        × HandedOn c c' (carried expect ps)
        × Reading c'.decoder [] rest
        × Drained c'.decoder rest
  read_loop-delivers chunk [] c qs open_still r all =
      let (c1, ps, rest, next, split, handed, r', all', open', drained) =
        read_once c chunk [] qs [] open_still r all in
      (c1, ps, rest, next ∙ (unfold read_loop in refl), split, handed, r', drained refl)
  read_loop-delivers chunk (chunk' ∷ chunks) c qs open_still r all =
      let (c1, ps, rest, next, split, handed, r', all', open', drained) =
        read_once c chunk (joined (chunk' ∷ chunks)) qs (map arrived (chunk' ∷ chunks)) open_still r
          all in
      let (c2, ps', rest', next', split', handed', r2, drained') =
        read_loop-delivers chunk' chunks c1 rest open' r' all' in
      (
        c2,
        ps ++ ps',
        rest',
        next ∙ next',
        split ∙ ap (λ (x : List Packet). ps ++ x) split' ∙ sym (append_assoc ps ps' rest'),
        subst (HandedOn c c2) (sym (carried-append ps ps'))
            (HandedOn-trans c c1 c2 (carried expect ps) (carried expect ps') handed handed'),
        r2,
        drained',
      )
