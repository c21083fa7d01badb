-- ===== src/Gate/Message/Tests.antt =====
-- Concrete runs of the message codec, and its theorems at concrete inputs.
use gira.Prelude.{ℕ, ◌≡◌, refl, false, List, [], ◌∷◌, arith}
use gira.Prelude.Keys.{lookup, store, text_key, number_key}
use gira.Gate.Message.{
  Text, Routes, Message, ok, fails, panic, wrong_message, encode, encode_id, decode, decode_id,
  id_loop, set_dictionary,
}
use gira.Gate.Message.RoundTrip.{IsSendable, received, decode-encode, empty_response_refused}
use gira.Gate.Message.Dictionary.{IsConsistent, set_dictionary-IsConsistent}

abbrev no_routes : Routes
no_routes = record { routes = []; codes = [] }

abbrev trim : Text → Text
trim r = r

-- "a" under 7 and "b" under 300.
abbrev entries : List (Text × ℕ)
entries = (97 ∷ [], 7) ∷ (98 ∷ [], 300) ∷ []

abbrev two_routes : Routes
two_routes = set_dictionary trim entries no_routes

id_300 : encode_id 300 ≡ 172 ∷ 2 ∷ []
unfolding encode_id
id_300 = refl

-- Without a last byte the id is the sum, and nothing is taken off.
id_open : decode_id (129 ∷ 130 ∷ []) ≡ (257, 129 ∷ 130 ∷ [])
unfolding decode_id id_loop
id_open = refl

abbrev ask : Message
ask = record { typ = 0; id = 300; route = 98 ∷ []; body = 1 ∷ 2 ∷ []; compressed = false }

-- A request whose route is in the dictionary.
ask_bytes : encode two_routes ask ≡ ok (1 ∷ 172 ∷ 2 ∷ 1 ∷ 44 ∷ 1 ∷ 2 ∷ [])
unfolding encode encode_id set_dictionary lookup store
ask_bytes = refl

ask-IsSendable : IsSendable two_routes ask
unfolding set_dictionary lookup store
ask-IsSendable = record {
  known = omega arith;
  id_fits = omega arith;
  route_fits = λ e. cc;
  code_fits = λ c e. ground arith;
  has_data = λ e. absurd (omega arith);
}

decode-encode_example :
    (bs : List ℕ) × (encode two_routes ask ≡ ok bs)
    × (decode two_routes bs (9 ∷ []) ≡ ok (received two_routes ask))
decode-encode_example = decode-encode two_routes ask (9 ∷ []) ask-IsSendable

abbrev empty_answer : Message
empty_answer = record { typ = 2; id = 5; route = []; body = []; compressed = false }

empty_response_refused_example :
    (bs : List ℕ) × (encode no_routes empty_answer ≡ ok bs)
    × (decode no_routes bs [] ≡ fails wrong_message)
empty_response_refused_example =
    empty_response_refused no_routes empty_answer [] refl refl (omega arith)

set_dictionary-IsConsistent_example : IsConsistent two_routes
unfolding lookup
set_dictionary-IsConsistent_example =
    set_dictionary-IsConsistent trim entries no_routes (λ r c e. cc)
      (((λ e. absurd (omega arith)), tt), (tt, tt)) (refl, (refl, tt))

-- A notify with one byte of a code.
cut_off : decode (record { routes = []; codes = [] }) (3 ∷ 7 ∷ []) [] ≡ panic
unfolding decode
cut_off = refl

abbrev nothing_behind : List ℕ
nothing_behind = []
