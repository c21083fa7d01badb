-- ===== src/Gate/Crypto/Tests.antt =====
-- Concrete runs of the encryption, and its theorems at the sample cipher.
use gira.Prelude.{ℕ, ◌≡◌, refl, List, [], ◌∷◌}
use gira.Gate.Crypto.{ok, pkcs5_padding, des_encrypt, des_decrypt}
use gira.Gate.Crypto.Padding.{des_decrypt-encrypt}
use gira.Gate.Crypto.Sample.{moved, moved-IsCipher, new_moved, key8}

padded_three : pkcs5_padding (1 ∷ 2 ∷ 3 ∷ []) 8 ≡ 1 ∷ 2 ∷ 3 ∷ 5 ∷ 5 ∷ 5 ∷ 5 ∷ 5 ∷ []
unfolding pkcs5_padding
padded_three = refl

des_decrypt-encrypt_example :
    (out : List ℕ) × (des_encrypt new_moved (9 ∷ []) key8 ≡ ok out)
    × (des_decrypt new_moved out key8 ≡ ok (9 ∷ []))
des_decrypt-encrypt_example = des_decrypt-encrypt new_moved moved key8 (9 ∷ []) refl moved-IsCipher
