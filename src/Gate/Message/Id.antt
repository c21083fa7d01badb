-- ===== src/Gate/Message/Id.antt =====
-- The variable-length id of requests and responses. (gate/message/message.go)
use mathlib.Core.Logic.{dite}
use mathlib.Core.WellFounded.{Acc}
use native.Mathlib.Decide.{dec_lt}
use native.Mathlib.Nat.{div-add-mod}
use native.Mathlib.Numerals.{towards_suc}
use gira.Prelude.{
  ℕ, ◌+◌, ◌*◌, ◌/◌, ◌%◌, ◌^◌, ◌<◌, ◌≡◌, ap, ◌∙◌, Option, none, some, List, [], ◌∷◌, ◌++◌, arith,
  length,
}
use gira.Prelude.Order.{lt_wf}
use gira.Gate.Message.{encode_id_loop, encode_id, id_loop, decode_id}

shift_seven : (s : ℕ) → 2 ^ (s + 7) ≡ 128 * 2 ^ s
shift_seven s = simp towards_suc (omega arith)

-- The lowest seven bits and the others, at the weight `p`.
seven_bits : (n p : ℕ) → n % 128 * p + n / 128 * (128 * p) ≡ n * p
seven_bits n p = omega (arith, ap (λ (t : ℕ). t * p) (div-add-mod n 128))

id_loop_last :
    (b shift acc : ℕ) (rest : List ℕ)
    → b < 128
    → acc + b * 2 ^ shift < 2 ^ 64
    → id_loop (b ∷ rest) shift acc ≡ (acc + b * 2 ^ shift, some rest)
unfolding id_loop
id_loop_last b shift acc rest h fits = ground arith

id_loop_more :
    (b shift acc : ℕ) (rest : List ℕ)
    → b < 128
    → acc + b * 2 ^ shift < 2 ^ 64
    → id_loop ((b + 128) ∷ rest) shift acc ≡ id_loop rest (shift + 7) (acc + b * 2 ^ shift)
unfolding id_loop
id_loop_more b shift acc rest h fits = ground arith

-- The two cases of the encoder's loop, with what the rest of it writes.
id_loop-cases :
    (n : ℕ) (d : Dec (0 < n / 128)) (others : 0 < n / 128 → List ℕ) (shift acc : ℕ) (rest : List ℕ)
    → acc + n * 2 ^ shift < 2 ^ 64
    → ((h : 0 < n / 128)
        → acc + n % 128 * 2 ^ shift + n / 128 * 2 ^ (shift + 7) < 2 ^ 64
        → id_loop (others h ++ rest) (shift + 7) (acc + n % 128 * 2 ^ shift)
          ≡ (acc + n % 128 * 2 ^ shift + n / 128 * 2 ^ (shift + 7), some rest))
    → id_loop (dite d (λ h. (n % 128 + 128) ∷ others h) (λ _. n % 128 ∷ []) ++ rest) shift acc
      ≡ (acc + n * 2 ^ shift, some rest)
id_loop-cases n (yes more) others shift acc rest fits ih =
    let split : acc + n % 128 * 2 ^ shift + n / 128 * 2 ^ (shift + 7) ≡ acc + n * 2 ^ shift =
      omega (arith, seven_bits n (2 ^ shift), ap (λ (t : ℕ). n / 128 * t) (shift_seven shift)) in
    id_loop_more (n % 128) shift acc (others more ++ rest) (omega arith) (omega arith)
    ∙ ih more (omega arith)
    ∙ ap (λ (t : ℕ). (t, some rest)) split
id_loop-cases n (no last) others shift acc rest fits ih =
    let small : n % 128 ≡ n = omega arith in
    id_loop_last (n % 128) shift acc rest (omega arith) (rw small fits)
    ∙ ap (λ (t : ℕ). (acc + t * 2 ^ shift, some rest)) small

id_loop-encode_id_loop :
    (n : ℕ) (w : Acc ◌<◌ n) (shift acc : ℕ) (rest : List ℕ)
    → acc + n * 2 ^ shift < 2 ^ 64
    → id_loop (encode_id_loop n w ++ rest) shift acc ≡ (acc + n * 2 ^ shift, some rest)
unfolding encode_id_loop
id_loop-encode_id_loop n (Acc.intro _ smaller) shift acc rest fits =
    id_loop-cases n (dec_lt 0 (n / 128)) _ shift acc rest fits (λ h fits'.
      id_loop-encode_id_loop (n / 128) (smaller (n / 128) _) (shift + 7) (acc + n % 128 * 2 ^ shift)
        rest fits')

id_loop-encode_id :
    (n : ℕ) (rest : List ℕ) → n < 2 ^ 64 → id_loop (encode_id n ++ rest) 0 0 ≡ (n, some rest)
unfolding encode_id
id_loop-encode_id n rest h =
    id_loop-encode_id_loop n (lt_wf.apply n) 0 0 rest (omega arith)
    ∙ ap (λ (t : ℕ). (t, some rest)) (let e : 0 + n * 2 ^ 0 ≡ n = omega arith in e)

-- Every uint64 id that `Encode` writes is read back by `Decode`'s id loop, which leaves the bytes
-- behind it.
pub decode_id-encode_id :
    (n : ℕ) (rest : List ℕ) → n < 2 ^ 64 → decode_id (encode_id n ++ rest) ≡ (n, rest)
unfolding decode_id
decode_id-encode_id n rest h =
    ap
      (λ (r : ℕ × Option (List ℕ)).
        let out : ℕ × List ℕ = elim r.1 [
          | some rest' ↦ (r.0, rest')
          | none ↦ (r.0, encode_id n ++ rest)
        ] in
        out)
      (id_loop-encode_id n rest h)

nonempty-cases :
    (n : ℕ) (d : Dec (0 < n / 128)) (others : 0 < n / 128 → List ℕ) (rest : List ℕ)
    → 0 < length (dite d (λ h. (n % 128 + 128) ∷ others h) (λ _. n % 128 ∷ []) ++ rest)
nonempty-cases n (yes h) others rest = omega arith
nonempty-cases n (no h) others rest = omega arith

nonempty_loop : (n : ℕ) (w : Acc ◌<◌ n) (rest : List ℕ) → 0 < length (encode_id_loop n w ++ rest)
unfolding encode_id_loop
nonempty_loop n (Acc.intro _ smaller) rest = nonempty-cases n (dec_lt 0 (n / 128)) _ rest

-- An id takes at least one byte.
pub length-encode_id_pos : (n : ℕ) (rest : List ℕ) → 0 < length (encode_id n ++ rest)
unfolding encode_id
length-encode_id_pos n rest = nonempty_loop n (lt_wf.apply n) rest
