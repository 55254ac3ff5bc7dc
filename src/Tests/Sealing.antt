-- ===== src/Tests/Sealing.antt =====
-- A toy cipher that puts its nonce in front of the text.
use Prim.Native.Char.{Char}
use text.Mathlib.TextBridge.{to_list, of_list, to_list-of_list, of_list-to_list}
use apisix_developer_portal.Common.{some, [], ◌∷◌, ◌≡◌, refl, ap}
use apisix_developer_portal.Crypto.Sealing.{Aead, Base64, encrypt, decrypt, decrypt-encrypt}

abbrev plain_text : Base64 Char
plain_text = record {
  encode = of_list;
  decode = λ s. some (to_list s);
  decode-encode = λ raw. ap some (to_list-of_list raw);
}

abbrev plain_aead : Aead Char
plain_aead = record {
  nonce_size = 2;
  seal = λ nonce plain. to_list plain;
  unseal = λ nonce sealed. some (of_list sealed);
  unseal-seal = λ nonce plain size. ap some (of_list-to_list plain);
}

decrypt-encrypt_example :
    decrypt plain_text plain_aead (encrypt plain_text plain_aead ("n" ∷ "1" ∷ []) "key")
    ≡ some "key"
decrypt-encrypt_example = decrypt-encrypt plain_text plain_aead ("n" ∷ "1" ∷ []) "key" refl
