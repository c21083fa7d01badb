-- ===== src/Gate/Crypto/Sample.antt =====
-- A cipher that behaves as `cipher.Block` is documented to, for the tests.
use gira.Prelude.{
  ℕ, suc, ◌+◌, ◌-◌, ◌≡◌, refl, ap, Option, none, some, List, [], ◌∷◌, map, length, eqb, arith,
  if◌then◌else◌,
}
use gira.Gate.Crypto.{Cipher, IsCipher}

-- Each number of a block is moved by one.
abbrev pub moved : Cipher
moved = record { block_size = 8; encrypt = map (λ x. x + 1); decrypt = map (λ x. x - 1) }

length-map_suc : (b : List ℕ) → length (map (λ x. x + 1) b) ≡ length b
length-map_suc [] = refl
length-map_suc (x ∷ b) = ap suc (length-map_suc b)

map_back : (b : List ℕ) → map (λ x. x - 1) (map (λ x. x + 1) b) ≡ b
map_back [] = refl
map_back (x ∷ b) = ground (arith, map_back b)

pub moved-IsCipher : IsCipher moved
moved-IsCipher = record {
  size_pos = omega arith;
  size_byte = omega arith;
  length-encrypt = λ b e. omega (arith, length-map_suc b, e);
  decrypt-encrypt = λ b e. map_back b;
}

-- Keys of eight bytes are accepted.
abbrev pub new_moved : List ℕ → Option Cipher
new_moved key = if eqb (length key) 8 then some moved else none

abbrev pub key8 : List ℕ
key8 = 1 ∷ 2 ∷ 3 ∷ 4 ∷ 5 ∷ 6 ∷ 7 ∷ 8 ∷ []
