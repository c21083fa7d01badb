-- ===== src/Gate/Message/Panics.antt =====
-- When `Decode` panics. (gate/message/message.go)
use gira.Prelude.{
  ℕ, ◌≡◌, ◌≢◌, ◌*◌, ◌+◌, ◌/◌, ◌%◌, refl, List, [], ◌∷◌, eqb, ltb, length, Bool-cases, Option-cases,
  inl, inr,
}
use gira.Prelude.Keys.{lookup, number_key}
use Prim.Native.Nat.{bit_and}
use gira.Gate.Message.{
  Routes, panic, decode, decode_id, decode_code, decode_text, decode_rest, routable, has_id,
  invalid_type, route_compress_mask,
}

decode_code-returns :
    (d : Routes) (typ id x : ℕ) (rest xs : List ℕ) → decode_code d typ id rest (x ∷ xs) ≢ panic
decode_code-returns d typ id x [] xs = λ h. cc
decode_code-returns d typ id x (hi ∷ []) xs = elim (Option-cases (lookup (hi * 256 + x) d.codes)) [
  | inl q ↦ rw (decode_code, q) (λ h. cc)
  | inr (r, q) ↦ rw (decode_code, q) (λ h. cc)
]
decode_code-returns d typ id x (hi ∷ lo ∷ rest) xs =
    elim (Option-cases (lookup (hi * 256 + lo) d.codes)) [
      | inl q ↦ rw (decode_code, q) (λ h. cc)
      | inr (r, q) ↦ rw (decode_code, q) (λ h. cc)
    ]

decode_text-returns : (typ id : ℕ) (rest : List ℕ) → decode_text typ id rest ≢ panic
decode_text-returns typ id [] = λ h. cc
decode_text-returns typ id (rl ∷ rest) = elim (Bool-cases (ltb (length rest) rl)) [
  | inl q ↦ rw (q) (λ h. cc)
  | inr q ↦ rw (q) (λ h. cc)
]

decode_rest-returns :
    (d : Routes) (flag typ id x : ℕ) (rest xs : List ℕ)
    → decode_rest d flag typ id rest (x ∷ xs) ≢ panic
decode_rest-returns d flag typ id x [] xs = λ h. cc
decode_rest-returns d flag typ id x (b ∷ rest) xs = elim (Bool-cases (routable typ)) [
  | inl r ↦ rw (r) (elim (Bool-cases (eqb (bit_and flag route_compress_mask) 1)) [
    | inl q ↦ rw (q) (decode_code-returns d typ id x (b ∷ rest) xs)
    | inr q ↦ rw (q) (decode_text-returns typ id (b ∷ rest))
  ])
  | inr r ↦ rw (r) (λ h. cc)
]

decode-returns : (d : Routes) (x : ℕ) (bs xs : List ℕ) → decode d bs (x ∷ xs) ≢ panic
unfolding decode
decode-returns d x [] xs = λ h. cc
decode-returns d x (flag ∷ []) xs = λ h. cc
decode-returns d x (flag ∷ b ∷ rest) xs = elim (Bool-cases (invalid_type (flag / 2 % 8))) [
  | inl q ↦ rw (q) (λ h. cc)
  | inr q ↦ rw (q) (elim (Bool-cases (has_id (flag / 2 % 8))) [
    | inl r ↦ rw (r) (
        decode_rest-returns d flag (flag / 2 % 8) (decode_id (b ∷ rest)).0 x
          (decode_id (b ∷ rest)).1 xs)
    | inr r ↦ rw (r) (decode_rest-returns d flag (flag / 2 % 8) 0 x (b ∷ rest) xs)
  ])
]

-- If `Decode` panics, the array of its bytes ends with the last of them: with anything behind the
-- message in the array it returns, whatever the bytes and the dictionary are.
pub decode_panics : (d : Routes) (bs beyond : List ℕ) → decode d bs beyond ≡ panic → beyond ≡ []
decode_panics d bs [] h = refl
decode_panics d bs (x ∷ beyond) h = elim (decode-returns d x bs beyond h) [ ]
