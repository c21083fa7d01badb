-- ===== src/Gate/Message/RoundTrip.antt =====
-- What `Decode` reads back of what `Encode` wrote. (gate/message/message.go)
use Prim.Native.Nat.{bit_and}
use gira.Prelude.{
  ℕ, zero, suc, ◌+◌, ◌*◌, ◌/◌, ◌%◌, ◌^◌, ◌<◌, ◌≤◌, ◌≡◌, refl, ap, ◌∙◌, Bool, true, false, ◌&&◌,
  Option, none, some, List, [], ◌∷◌, ◌++◌, arith, length, length-append, take-length_append,
  drop-length_append, ltb, eqb, if◌then◌else◌,
}
use gira.Prelude.Keys.{lookup, text_key, number_key}
use gira.Gate.Message.{
  Text, Routes, Message, Result, ok, fails, response, push, routable, has_id, invalid_type, is_some,
  flag_of, encode, encode_id, encode_route, decode, decode_id, decode_rest, decode_code,
  decode_text, wrong_message_type, route_info_not_found, wrong_message,
}
use gira.Gate.Message.Id.{decode_id-encode_id, length-encode_id_pos}

-- A message that survives the wire: a known type, an id that is a uint64, a route that is in the
-- dictionary under its own code or is shorter than 256 bytes, and, for a response, some data.
pub record IsSendable (d : Routes) (m : Message) : Type 0 where
  pub known : m.typ ≤ push
  pub id_fits : m.id < 2 ^ 64
  pub route_fits : lookup m.route d.routes ≡ none → length m.route < 256
  pub code_fits :
      (c : ℕ) → lookup m.route d.routes ≡ some c → (c < 65536) × (lookup c d.codes ≡ some m.route)
  pub has_data : m.typ ≡ response → 0 < length m.body

-- What arrives: the id only of a request or a response, and no route of a response.
unfoldable pub received : Routes → Message → Message
received d m = record {
  typ = m.typ;
  id = if has_id m.typ then m.id else 0;
  route = if routable m.typ then m.route else [];
  body = m.body;
  compressed = routable m.typ && is_some (lookup m.route d.routes);
}

-- `decode` at a message with at least one byte behind its flag.
decode_behind_flag :
    (d : Routes) (flag : ℕ) (xs beyond : List ℕ)
    → 0 < length xs
    → decode d (flag ∷ xs) beyond ≡ (
        if invalid_type (flag / 2 % 8)
        then fails wrong_message_type
        else (if has_id (flag / 2 % 8)
            then decode_rest d flag (flag / 2 % 8) (decode_id xs).0 (decode_id xs).1 beyond
            else decode_rest d flag (flag / 2 % 8) 0 xs beyond))
unfolding decode
decode_behind_flag d flag [] beyond h = absurd (omega arith)
decode_behind_flag d flag (b ∷ rest) beyond h = refl

code_digits : (c : ℕ) → c < 65536 → c / 256 % 256 * 256 + c % 256 ≡ c
code_digits c h = omega arith

decode_code-encode :
    (d : Routes) (typ id c : ℕ) (route : Text) (body beyond : List ℕ)
    → c < 65536
    → lookup c d.codes ≡ some route
    → decode_code d typ id (encode_route (some c) route ++ body) beyond
      ≡ ok (record { typ = typ; id = id; route = route; body = body; compressed = true })
decode_code-encode d typ id c route body beyond h e =
    ap
      (λ (o : Option Text).
        let r : Result Message = elim o [
          | some route' ↦
              ok (record { typ = typ; id = id; route = route'; body = body; compressed = true })
          | none ↦ fails route_info_not_found
        ] in
        r)
      (ap (λ (k : ℕ). lookup k d.codes) (code_digits c h) ∙ e)

decode_text-encode :
    (typ id : ℕ) (route : Text) (body : List ℕ)
    → length route < 256
    → decode_text typ id (encode_route none route ++ body)
      ≡ ok (record { typ = typ; id = id; route = route; body = body; compressed = false })
decode_text-encode typ id route body h =
    let small : length route % 256 ≡ length route = omega arith in
    let fits : ltb (length (route ++ body)) (length route) ≡ false =
      ground (arith, length-append route body) in
    rw (small, fits, take-length_append route body, drop-length_append route body)

-- The route and the data, read back behind the id.
decode_rest-encode :
    (d : Routes) (flag typ id : ℕ) (code : Option ℕ) (route : Text) (body beyond : List ℕ)
    → routable typ ≡ true
    → eqb (bit_and flag 1) 1 ≡ is_some code
    → (code ≡ none → length route < 256)
    → ((c : ℕ) → code ≡ some c → (c < 65536) × (lookup c d.codes ≡ some route))
    → decode_rest d flag typ id (encode_route code route ++ body) beyond
      ≡ ok (record { typ = typ; id = id; route = route; body = body; compressed = is_some code })
decode_rest-encode d flag typ id none route body beyond r f short coded =
    rw (r, f) (decode_text-encode typ id route body (short refl))
decode_rest-encode d flag typ id (some c) route body beyond r f short coded =
    rw (r, f) (decode_code-encode d typ id c route body beyond (coded c refl).0 (coded c refl).1)

-- A message with an id.
with_id :
    (d : Routes) (flag typ id : ℕ) (rest beyond : List ℕ)
    → flag / 2 % 8 ≡ typ
    → invalid_type typ ≡ false
    → has_id typ ≡ true
    → id < 2 ^ 64
    → decode d (flag ∷ (encode_id id ++ rest)) beyond ≡ decode_rest d flag typ id rest beyond
with_id d flag typ id rest beyond t v i h =
    decode_behind_flag d flag (encode_id id ++ rest) beyond (length-encode_id_pos id rest)
    ∙ rw (t, v, i, decode_id-encode_id id rest h)

without_id :
    (d : Routes) (flag typ : ℕ) (rest beyond : List ℕ)
    → flag / 2 % 8 ≡ typ
    → invalid_type typ ≡ false
    → has_id typ ≡ false
    → 0 < length rest
    → decode d (flag ∷ rest) beyond ≡ decode_rest d flag typ 0 rest beyond
without_id d flag typ rest beyond t v i h = decode_behind_flag d flag rest beyond h ∙ rw (t, v, i)

-- The type and the compression bit, read back from the flag.
flag-typ : (typ : ℕ) (b : Bool) → typ ≤ push → flag_of typ b / 2 % 8 ≡ typ
flag-typ zero true h = refl
flag-typ zero false h = refl
flag-typ (suc zero) true h = refl
flag-typ (suc zero) false h = refl
flag-typ (suc (suc zero)) true h = refl
flag-typ (suc (suc zero)) false h = refl
flag-typ (suc (suc (suc zero))) true h = refl
flag-typ (suc (suc (suc zero))) false h = refl
flag-typ (suc (suc (suc (suc n)))) b h = absurd (omega arith)

flag-bit : (typ : ℕ) (b : Bool) → typ ≤ push → eqb (bit_and (flag_of typ b) 1) 1 ≡ b
flag-bit zero true h = refl
flag-bit zero false h = refl
flag-bit (suc zero) true h = refl
flag-bit (suc zero) false h = refl
flag-bit (suc (suc zero)) true h = refl
flag-bit (suc (suc zero)) false h = refl
flag-bit (suc (suc (suc zero))) true h = refl
flag-bit (suc (suc (suc zero))) false h = refl
flag-bit (suc (suc (suc (suc n)))) b h = absurd (omega arith)

length-encode_route_pos :
    (code : Option ℕ) (route : Text) (rest : List ℕ) → 0 < length (encode_route code route ++ rest)
length-encode_route_pos none route rest = omega arith
length-encode_route_pos (some c) route rest = omega arith

response_rest :
    (d : Routes) (flag id : ℕ) (body beyond : List ℕ)
    → 0 < length body
    → decode_rest d flag response id body beyond
      ≡ ok (record { typ = response; id = id; route = []; body = body; compressed = false })
response_rest d flag id [] beyond h = absurd (omega arith)
response_rest d flag id (b ∷ rest) beyond h = refl

-- The bytes that `encode` writes, and what `decode` makes of them, by the type.
decode-encode_at :
    (d : Routes) (typ id : ℕ) (route : Text) (body beyond : List ℕ) (compressed : Bool)
    → let m : Message = record {
      typ = typ;
      id = id;
      route = route;
      body = body;
      compressed = compressed;
    } in
      IsSendable d m
      → (bs : List ℕ) × (encode d m ≡ ok bs) × (decode d bs beyond ≡ ok (received d m))
unfolding encode received
decode-encode_at d zero id route body beyond b s =
    let code = lookup route d.routes in
    (
      _,
      refl,
      with_id d _ 0 id (encode_route code route ++ body) beyond
            (flag-typ 0 (is_some code) (omega arith)) refl refl s.id_fits
          ∙ decode_rest-encode d _ 0 id code route body beyond refl
              (flag-bit 0 (is_some code) (omega arith)) s.route_fits s.code_fits,
    )
decode-encode_at d (suc zero) id route body beyond b s =
    let code = lookup route d.routes in
    (
      _,
      refl,
      without_id d _ 1 (encode_route code route ++ body) beyond
            (flag-typ 1 (is_some code) (omega arith)) refl refl
            (length-encode_route_pos code route body)
          ∙ decode_rest-encode d _ 1 0 code route body beyond refl
              (flag-bit 1 (is_some code) (omega arith)) s.route_fits s.code_fits,
    )
decode-encode_at d (suc (suc zero)) id route body beyond b s =
    let code = lookup route d.routes in
    (
      _,
      refl,
      with_id d _ 2 id body beyond (flag-typ 2 (is_some code) (omega arith)) refl refl s.id_fits
          ∙ response_rest d (flag_of 2 (is_some code)) id body beyond (s.has_data refl),
    )
decode-encode_at d (suc (suc (suc zero))) id route body beyond b s =
    let code = lookup route d.routes in
    (
      _,
      refl,
      without_id d _ 3 (encode_route code route ++ body) beyond
            (flag-typ 3 (is_some code) (omega arith)) refl refl
            (length-encode_route_pos code route body)
          ∙ decode_rest-encode d _ 3 0 code route body beyond refl
              (flag-bit 3 (is_some code) (omega arith)) s.route_fits s.code_fits,
    )
decode-encode_at d (suc (suc (suc (suc n)))) id route body beyond b s =
    absurd (omega (arith, s.known))

-- `Encode` succeeds on a message with a known type, an id that is a uint64, a route in the
-- dictionary under its own code or shorter than 256 bytes, and some data if it is a response.
-- `Decode` reads back from its bytes, whatever the array holds behind them, the type, the data, the
-- id of a request or response (0 for the others), the route of any but a response, and whether the
-- dictionary had the route of one that carries a route.
pub decode-encode :
    (d : Routes) (m : Message) (beyond : List ℕ)
    → IsSendable d m
    → (bs : List ℕ) × (encode d m ≡ ok bs) × (decode d bs beyond ≡ ok (received d m))
decode-encode d m beyond s = decode-encode_at d m.typ m.id m.route m.body beyond m.compressed s

-- A response with no data and an id that is a uint64 is encoded, and `Decode` refuses the bytes as
-- a wrong message.
pub empty_response_refused :
    (d : Routes) (m : Message) (beyond : List ℕ)
    → m.typ ≡ response
    → m.body ≡ []
    → m.id < 2 ^ 64
    → (bs : List ℕ) × (encode d m ≡ ok bs) × (decode d bs beyond ≡ fails wrong_message)
empty_response_refused d m beyond t e h = go m.typ m.body t e
  where
    go :
        (typ : ℕ) (body : List ℕ)
        → typ ≡ response
        → body ≡ []
        → (bs : List ℕ) × (encode d (record m { typ = typ; body = body }) ≡ ok bs)
          × (decode d bs beyond ≡ fails wrong_message)
    go typ body t e =
        rw (t, e)
          (
            flag_of 2 (is_some (lookup m.route d.routes)) ∷ (encode_id m.id ++ []),
            (unfold encode in refl),
            with_id d _ 2 m.id [] beyond
                (flag-typ 2 (is_some (lookup m.route d.routes)) (omega arith)) refl refl h,
          )
