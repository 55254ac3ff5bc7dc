-- ===== src/Crypto/Sealing.antt =====
-- internal/crypto/aesgcm.go: credentials are sealed with AES-256-GCM. The block cipher, base64 and
-- the random bytes are of Go's standard library: they are parameters, with the laws that their
-- documentation gives, and so is the type of bytes.
use Prim.Native.String
use text.Mathlib.TextLemmas.{nil-append, cons-append}
use apisix_developer_portal.Common.{
  ℕ, String, false, Option, none, some, List, ◌++◌, ◌≡◌, ◌≢◌, refl, sym, ap, subst, ◌∙◌, ◌==◌, ltb,
  if◌then◌else◌, length, arith,
}
use apisix_developer_portal.Common.Slices.{take, drop, take-append, drop-append, length-append}
use apisix_developer_portal.Common.Texts.{strip_prefix}
use apisix_developer_portal.Crypto.{Cipher}

-- `cipher.AEAD` without associated data.
pub record Aead (Byte : Type 0) : Type 0 where
  pub nonce_size : ℕ
  pub seal : List Byte → String → List Byte
  pub unseal : List Byte → List Byte → Option String
  pub unseal-seal :
      (nonce : List Byte) (plain : String)
      → length nonce ≡ nonce_size
      → unseal nonce (seal nonce plain) ≡ some plain

-- `base64.StdEncoding`
pub record Base64 (Byte : Type 0) : Type 0 where
  pub encode : List Byte → String
  pub decode : String → Option (List Byte)
  pub decode-encode : (raw : List Byte) → decode (encode raw) ≡ some raw

-- `aes.NewCipher` with `cipher.NewGCM`, for a key, if they take it.
abbrev pub NewAead : Type 0 → Type 0
NewAead Byte = List Byte → Option (Aead Byte)

-- `New`
unfoldable pub new_aead : {Byte : Type 0} → Base64 Byte → NewAead Byte → String → Option (Aead Byte)
new_aead b new_gcm key = elim (b.decode key) [
  | none ↦ none
  | some raw ↦ if length raw == 32 then new_gcm raw else none
]

module _ {Byte : Type 0} (b : Base64 Byte) (aead : Aead Byte) where
  -- `Encrypt`, with the nonce that is drawn.
  unfoldable pub encrypt : List Byte → String → String
  encrypt nonce plain = String.◌++◌ "v1:" (b.encode (nonce ++ aead.seal nonce plain))

  -- `Decrypt` behind the decoding.
  unfoldable pub open_raw : Option (List Byte) → Option String
  open_raw none = none
  open_raw (some raw) =
      if ltb (length raw) aead.nonce_size
      then none
      else aead.unseal (take aead.nonce_size raw) (drop aead.nonce_size raw)

  unfoldable pub open_after : Option String → Option String
  open_after none = none
  open_after (some b64) = open_raw (b.decode b64)

  unfoldable pub decrypt : String → Option String
  decrypt enc = open_after (strip_prefix "v1:" enc)

  tag_first :
      (s : String) → String.◌++◌ "v1:" s ≡ String.◌∷◌ "v" (String.◌∷◌ "1" (String.◌∷◌ ":" s))
  tag_first s =
      cons-append "v" "1:" s
      ∙ ap (String.◌∷◌ "v") (
          cons-append "1" ":" s
          ∙ ap (String.◌∷◌ "1") (cons-append ":" "" s ∙ ap (String.◌∷◌ ":") (nil-append s)))

  after_tag :
      (s : String)
      → strip_prefix "v1:" (String.◌∷◌ "v" (String.◌∷◌ "1" (String.◌∷◌ ":" s))) ≡ some s
  unfolding strip_prefix
  after_tag s = refl

  tagged : (s : String) → strip_prefix "v1:" (String.◌++◌ "v1:" s) ≡ some s
  tagged s = ap (strip_prefix "v1:") (tag_first s) ∙ after_tag s

  decrypt_tagged : (b64 : String) → decrypt (String.◌++◌ "v1:" b64) ≡ open_raw (b.decode b64)
  unfolding decrypt open_after
  decrypt_tagged b64 = ap open_after (tagged b64)

  -- What is sealed with a nonce of the right size is opened again, whatever the text is.
  pub decrypt-encrypt :
      (nonce : List Byte) (plain : String)
      → length nonce ≡ aead.nonce_size
      → decrypt (encrypt nonce plain) ≡ some plain
  unfolding decrypt encrypt open_raw
  decrypt-encrypt nonce plain size =
      let cut : take aead.nonce_size (nonce ++ aead.seal nonce plain) ≡ nonce =
        subst (λ n. take n (nonce ++ aead.seal nonce plain) ≡ nonce) size
          (take-append nonce (aead.seal nonce plain)) in
      let rest : drop aead.nonce_size (nonce ++ aead.seal nonce plain) ≡ aead.seal nonce plain =
        subst (λ n. drop n (nonce ++ aead.seal nonce plain) ≡ aead.seal nonce plain) size
          (drop-append nonce (aead.seal nonce plain)) in
      let long : ltb (length (nonce ++ aead.seal nonce plain)) aead.nonce_size ≡ false =
        let sum = length-append nonce (aead.seal nonce plain) in ground arith in
      decrypt_tagged (b.encode (nonce ++ aead.seal nonce plain))
      ∙ ap open_raw (b.decode-encode (nonce ++ aead.seal nonce plain))
      ∙ rw (long, cut, rest) (aead.unseal-seal nonce plain size)

  pub sealed_text : (nonce : List Byte) (plain : String) → encrypt nonce plain ≢ ""
  unfolding encrypt
  sealed_text nonce plain e =
      let k = sym (tag_first (b.encode (nonce ++ aead.seal nonce plain))) ∙ e in cc

  -- The cipher that the services use, for a source of nonces.
  abbrev pub sealing :
      (nonces : ℕ → List Byte) → ((n : ℕ) → length (nonces n) ≡ aead.nonce_size) → Cipher
  sealing nonces sized = record {
    encrypt = λ n plain. encrypt (nonces n) plain;
    decrypt = decrypt;
    decrypt-encrypt = λ n plain. decrypt-encrypt (nonces n) plain (sized n);
    encrypt-ne-nil = λ n plain. sealed_text (nonces n) plain;
  }
