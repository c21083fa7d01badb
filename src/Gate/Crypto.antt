-- ===== src/Gate/Crypto.antt =====
-- gate/crypto/crypto.go: the ECB encryption of payloads. DES itself is the standard library's: a
-- cipher is a parameter.
pub mod Padding
pub mod Sample
mod Tests
use gira.Prelude.{
  ℕ, zero, suc, ◌-◌, ◌/◌, ◌%◌, ◌+◌, ◌<◌, ◌≡◌, Option, none, some, List, [], ◌∷◌, ◌++◌, length, take,
  drop, replicate, ltb, eqb, if◌then◌else◌,
}

-- What `des.NewCipher` gives: `cipher.Block`.
pub record Cipher : Type 0 where
  pub block_size : ℕ
  pub encrypt : List ℕ → List ℕ
  pub decrypt : List ℕ → List ℕ

-- Documented behaviour of `cipher.Block`: a block is encrypted to a block, and back.
pub record IsCipher (c : Cipher) : Type 0 where
  pub size_pos : 0 < c.block_size
  pub size_byte : c.block_size < 256
  pub length-encrypt : (b : List ℕ) → length b ≡ c.block_size → length (c.encrypt b) ≡ c.block_size
  pub decrypt-encrypt : (b : List ℕ) → length b ≡ c.block_size → c.decrypt (c.encrypt b) ≡ b

pub data Error : Type 0 where
  key_size not_multiple not_full_blocks : Error

pub data Result : Type 0 where
  ok : List ℕ → Result
  fails : Error → Result
  panic : Result

unfoldable pub pkcs5_padding : List ℕ → ℕ → List ℕ
pkcs5_padding input block_size =
    let padding = block_size - length input % block_size in
    input ++ replicate padding (padding % 256)

abbrev pub last? : List ℕ → Option ℕ
last? [] = none
last? (b ∷ []) = some b
last? (b ∷ c ∷ rest) = last? (c ∷ rest)

-- `plainData[length-1]` and the slice below 0 are panics.
unfoldable pub pkcs5_unpadding : List ℕ → Option (List ℕ)
pkcs5_unpadding input = elim (last? input) [
  | none ↦ none
  | some unpadding ↦
      if ltb (length input) unpadding then none else some (take (length input - unpadding) input)
]

-- `for len(data) > 0`, on whole blocks: one round for each of them.
unfoldable pub crypt_loop : (List ℕ → List ℕ) → ℕ → ℕ → List ℕ → List ℕ
crypt_loop f bs zero input = []
crypt_loop f bs (suc rounds) input = f (take bs input) ++ crypt_loop f bs rounds (drop bs input)

-- `new_cipher` is `des.NewCipher`: `none` is its error, for a key of the wrong size.
unfoldable pub des_encrypt : (List ℕ → Option Cipher) → List ℕ → List ℕ → Result
des_encrypt new_cipher input key = elim (new_cipher key) [
  | none ↦ fails key_size
  | some block ↦
      let bs = block.block_size in
      let padded = pkcs5_padding input bs in
      if eqb (length padded % bs) 0
      then ok (crypt_loop block.encrypt bs (length padded / bs) padded)
      else fails not_multiple
]

abbrev pub or_panic : Option (List ℕ) → Result
or_panic none = panic
or_panic (some out) = ok out

unfoldable pub des_decrypt : (List ℕ → Option Cipher) → List ℕ → List ℕ → Result
des_decrypt new_cipher input key = elim (new_cipher key) [
  | none ↦ fails key_size
  | some block ↦
      let bs = block.block_size in
      if eqb (length input % bs) 0
      then or_panic (pkcs5_unpadding (crypt_loop block.decrypt bs (length input / bs) input))
      else fails not_full_blocks
]
