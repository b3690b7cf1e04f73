-- ===== src/Session/Crypto.antt =====
-- The OpenSSL wrapper (`class Crypto`) and the base64 library as parameters.
use asinc_roulette.Base.{◌+◌, ◌<◌, ◌^◌, ◌≡◌, length, Option, some, false, contains, nat_eq}
use asinc_roulette.Session.Vectors.{Bytes, Vector, total}

-- `none` is `FAILURE`. The vector of the public-key cipher is the text, the key and the vector
-- that `rsaEncrypt` puts out.
pub record Crypto (C : Type 0) : Type 0 where
  pub rsa_encrypt : C → Bytes → Option Vector
  pub rsa_decrypt : C → Vector → Option Bytes
  pub aes_encrypt : C → Bytes → Option Bytes
  pub aes_decrypt : C → Bytes → Option Bytes
  pub aes_key : C → Bytes
  pub aes_iv : C → Bytes
  pub set_aes_key : C → Bytes → C
  pub set_aes_iv : C → Bytes → C
  pub remote_public_key : C → Option Bytes
  pub set_remote_public_key : C → Bytes → C
  pub base64_encode : Bytes → Bytes
  pub base64_decode : Bytes → Bytes

-- The documented behaviour: decoding undoes encoding.
pub record IsBase64 {C : Type 0} (crypto : Crypto C) : Type 0 where
  pub decode-encode : (b : Bytes) → crypto.base64_decode (crypto.base64_encode b) ≡ b

-- The characters of base64 are letters, digits and three signs: there is no line feed among them.
pub record IsText {C : Type 0} (crypto : Crypto C) : Type 0 where
  pub no_return : (b : Bytes) → contains b'\r' (crypto.base64_encode b) ≡ false

-- What `sender` encrypts under the public key, `receiver` decrypts with the private key that
-- belongs to it. OpenSSL counts bytes in an `int`.
pub record KnowsKey {C : Type 0} (crypto : Crypto C) (sender receiver : C) : Type 0 where
  pub rsa :
      (b : Bytes)
      → length b < 2 ^ 31
      → (v : Vector) × (crypto.rsa_encrypt sender b ≡ some v)
        × (crypto.rsa_decrypt receiver v ≡ some b)
        × (0 < total v)
        × (24 + total v < 2 ^ 64)

-- What one side encrypts with its symmetric key, another side with the same key decrypts.
pub record IsCipher {C : Type 0} (crypto : Crypto C) : Type 0 where
  pub aes :
      (a c : C) (b : Bytes)
      → length b < 2 ^ 31
      → crypto.aes_key a ≡ crypto.aes_key c
      → crypto.aes_iv a ≡ crypto.aes_iv c
      → (e : Bytes) × (crypto.aes_encrypt a b ≡ some e) × (crypto.aes_decrypt c e ≡ some b)
  pub key :
      (c : C) (k iv : Bytes) → crypto.aes_key (crypto.set_aes_iv (crypto.set_aes_key c k) iv) ≡ k
  pub iv :
      (c : C) (k iv : Bytes) → crypto.aes_iv (crypto.set_aes_iv (crypto.set_aes_key c k) iv) ≡ iv

-- Who is given the public key of a side can send to it.
pub record IsKeyPair {C : Type 0} (crypto : Crypto C) : Type 0 where
  pub exchange :
      (a b : C) (key : Bytes)
      → crypto.remote_public_key b ≡ some key
      → KnowsKey crypto (crypto.set_remote_public_key a key) b
