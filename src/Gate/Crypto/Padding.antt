-- ===== src/Gate/Crypto/Padding.antt =====
-- Padding, and payloads that are encrypted and decrypted again. (gate/crypto/crypto.go)
use native.Mathlib.Nat.{div-add-mod, mul-mod_left, mul-div_left}
use gira.Prelude.{
  ℕ, zero, suc, ◌-◌, ◌/◌, ◌%◌, ◌*◌, ◌+◌, ◌<◌, ◌≡◌, refl, ap, ◌∙◌, false, true, Option, some, List,
  [], ◌∷◌, ◌++◌, length, take, drop, take-append-drop, length-append, length-take, length-drop,
  length-replicate, take_exact, drop_exact, replicate, ltb, eqb, arith,
}
use gira.Gate.Crypto.{
  Cipher, IsCipher, ok, panic, pkcs5_padding, pkcs5_unpadding, last?, crypt_loop, des_encrypt,
  des_decrypt,
}

last?-append_replicate : (xs : List ℕ) (n b : ℕ) → last? (xs ++ replicate (suc n) b) ≡ some b
last?-append_replicate [] zero b = refl
last?-append_replicate [] (suc n) b = last?-append_replicate [] n b
last?-append_replicate (x ∷ []) zero b = refl
last?-append_replicate (x ∷ []) (suc n) b = last?-append_replicate [] (suc n) b
last?-append_replicate (x ∷ y ∷ xs) n b = last?-append_replicate (y ∷ xs) n b

unpadding_at :
    (input : List ℕ) (p q : ℕ)
    → p ≡ suc q
    → p < 256
    → pkcs5_unpadding (input ++ replicate p (p % 256)) ≡ some input
unfolding pkcs5_unpadding
unpadding_at input p q e h =
    let out = input ++ replicate p (p % 256) in
    let small : p % 256 ≡ p = omega arith in
    let last : last? out ≡ some p =
      ap (λ (k : ℕ). last? (input ++ replicate k (p % 256))) e
      ∙ last?-append_replicate input q (p % 256)
      ∙ ap some small in
    let size : length out ≡ length input + p =
      omega (arith, length-append input (replicate p (p % 256)), length-replicate p (p % 256)) in
    let fits : ltb (length out) p ≡ false = ground (arith, size) in
    let front : take (length out - p) out ≡ input =
      take_exact (length out - p) input (replicate p (p % 256)) (omega arith) in
    rw (last, pkcs5_unpadding) (rw (fits, front))

-- What `PKCS5Padding` makes of a text for a block size from 1 to 255, `PKCS5UnPadding` turns back
-- into the text.
pub pkcs5_unpadding-padding :
    (input : List ℕ) (bs : ℕ)
    → 0 < bs
    → bs < 256
    → pkcs5_unpadding (pkcs5_padding input bs) ≡ some input
unfolding pkcs5_padding
pkcs5_unpadding-padding input bs lo hi =
    let r : length input % bs < bs = omega arith in
    unpadding_at input (bs - length input % bs) (bs - length input % bs - 1) (omega arith)
      (omega arith)

-- The number of whole blocks of a padded text.
abbrev pub blocks : List ℕ → ℕ → ℕ
blocks input bs = length input / bs + 1

pub length-pkcs5_padding :
    (input : List ℕ) (bs : ℕ) → 0 < bs → length (pkcs5_padding input bs) ≡ blocks input bs * bs
unfolding pkcs5_padding
length-pkcs5_padding input bs lo =
    let p = bs - length input % bs in
    let r : length input % bs < bs = omega arith in
    grind (
      arith,
      div-add-mod (length input) bs,
      length-append input (replicate p (p % 256)),
      length-replicate p (p % 256),
    )

-- Whole blocks, encrypted one by one and decrypted one by one.
crypt_loop-decrypt_encrypt :
    (c : Cipher)
    → IsCipher c
    → (n : ℕ) (input : List ℕ) → length input ≡ n * c.block_size
    → (crypt_loop c.decrypt c.block_size n (crypt_loop c.encrypt c.block_size n input) ≡ input)
      × (length (crypt_loop c.encrypt c.block_size n input) ≡ length input)
unfolding crypt_loop
crypt_loop-decrypt_encrypt c h zero [] e = (refl, refl)
crypt_loop-decrypt_encrypt c h zero (b ∷ rest) e = absurd (omega arith)
crypt_loop-decrypt_encrypt c h (suc n) input e =
    let bs = c.block_size in
    let first = take bs input in
    let others = drop bs input in
    let more = crypt_loop c.encrypt bs n others in
    let l1 : length first ≡ bs = grind (arith, length-take bs input) in
    let l2 : length (c.encrypt first) ≡ bs = h.length-encrypt first l1 in
    let ih = crypt_loop-decrypt_encrypt c h n others (grind (arith, length-drop bs input)) in
    (
      rw
          (
            take_exact bs (c.encrypt first) more l2,
            drop_exact bs (c.encrypt first) more l2,
            h.decrypt-encrypt first l1,
            ih.0,
          )
          (take-append-drop bs input),
      grind (arith, length-append (c.encrypt first) more, ih.1, length-drop bs input),
    )

-- The calls on a cipher that `new_cipher` gives.
whole_blocks : (n bs : ℕ) → 0 < bs → (eqb (n * bs % bs) 0 ≡ true) × (n * bs / bs ≡ n)
whole_blocks n bs h = (rw (mul-mod_left n bs), mul-div_left n h)

-- For a key that gives a cipher with a block size from 1 to 255, what `DesEncrypt` makes of a
-- payload, `DesDecrypt` turns back into the payload, and neither call fails.
pub des_decrypt-encrypt :
    (new_cipher : List ℕ → Option Cipher) (c : Cipher) (key input : List ℕ)
    → new_cipher key ≡ some c
    → IsCipher c
    → (out : List ℕ) × (des_encrypt new_cipher input key ≡ ok out)
      × (des_decrypt new_cipher out key ≡ ok input)
unfolding des_encrypt des_decrypt
des_decrypt-encrypt new_cipher c key input e h =
    let bs = c.block_size in
    let padded = pkcs5_padding input bs in
    let n = blocks input bs in
    let len : length padded ≡ n * bs = length-pkcs5_padding input bs h.size_pos in
    let whole = whole_blocks n bs h.size_pos in
    let out = crypt_loop c.encrypt bs n padded in
    let back = crypt_loop-decrypt_encrypt c h n padded len in
    (
      out,
      rw (e, des_encrypt) (rw (len, whole.0, whole.1)),
      rw (e, des_decrypt)
          (rw (
            back.1,
            len,
            whole.0,
            whole.1,
            back.0,
            pkcs5_unpadding-padding input bs h.size_pos h.size_byte,
          )),
    )

-- Under a key that gives a cipher, decrypting nothing panics: `PKCS5UnPadding` reads the last byte
-- of an empty slice.
pub des_decrypt_empty :
    (new_cipher : List ℕ → Option Cipher) (c : Cipher) (key : List ℕ)
    → new_cipher key ≡ some c
    → IsCipher c
    → des_decrypt new_cipher [] key ≡ panic
unfolding des_decrypt pkcs5_unpadding crypt_loop
des_decrypt_empty new_cipher c key e h =
    let zero_mod : 0 % c.block_size ≡ 0 = omega (arith, h.size_pos) in
    let zero_div : 0 / c.block_size ≡ 0 = omega (arith, h.size_pos) in
    rw (e, des_decrypt) (rw (zero_mod, zero_div))
