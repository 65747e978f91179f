-- ===== src/Crypto/Provider.antt =====
-- crates/cordelia-crypto/src/lib.rs: `Aes256GcmProvider`. The cipher, scrypt and base64 are third-party
-- code, the record `Primitives`; the bytes that the random generator fills in are an argument.
use cordelia_core.Prelude.{
  ℕ, zero, suc, ◌-◌, String, ◌⊎◌, inl, inr, Bool, true, false, Option, none, some, List, [], ◌∷◌,
  ◌++◌, length, take, if◌then◌else◌, ◌==◌, nat_eq,
}
use cordelia_core.Protocol.Messages.{Bytes}

pub data CryptoError : Type 0 where
  encryption_failed : String → CryptoError
  decryption_failed : CryptoError
  unsupported_version : ℕ → CryptoError
  key_derivation_failed : String → CryptoError
  base64_error : String → CryptoError
  identity_error : String → CryptoError
  io_error : String → CryptoError

pub data CryptoResult (A : Type 0) : Type 0 where
  ok : A → CryptoResult A
  err : CryptoError → CryptoResult A

-- The operator `?`.
abbrev pub and_then : {A B : Type 0} → CryptoResult A → (A → CryptoResult B) → CryptoResult B
and_then (ok a) f = f a
and_then (err e) f = err e

-- `ok_or`
abbrev pub ok_or : {A : Type 0} → CryptoError → Option A → CryptoResult A
ok_or e none = err e
ok_or e (some a) = ok a

-- `scrypt` takes log N, r, p and the key's length. Errors of scrypt and base64 are texts.
pub record Primitives : Type 1 where
  pub Key : Type 0
  pub scrypt : ℕ → ℕ → ℕ → ℕ → Bytes → Bytes → String ⊎ Bytes
  pub new_key : Bytes → Option Key
  pub is_nonce : Bytes → Bool
  pub seal_append_tag : Key → Bytes → Bytes → Option Bytes
  pub open_in_place : Key → Bytes → Bytes → Option Bytes
  pub encode : Bytes → String
  pub decode : String → CryptoResult Bytes

abbrev pub tag_len : ℕ
tag_len = 16

pub record EncryptedPayload : Type 0 where
  pub encrypted : Bool
  pub version : ℕ
  pub iv : String
  pub auth_tag : String
  pub ciphertext : String

-- `&in_out[n..]`
abbrev pub drop : {A : Type 0} → ℕ → List A → List A
drop zero xs = xs
drop (suc n) [] = []
drop (suc n) (x ∷ xs) = drop n xs

pub record Aes256GcmProvider (Key : Type 0) : Type 0 where
  pub key : Option Key

module _ (prim : Primitives) where
  open prim use {Key, scrypt, new_key, is_nonce, seal_append_tag, open_in_place, encode, decode}

  abbrev pub new : Aes256GcmProvider Key
  new = record { key = none }

  unfoldable pub derive_key : Bytes → Bytes → CryptoResult Bytes
  derive_key passphrase salt = elim (scrypt 14 8 1 32 passphrase salt) [
    | inl e ↦ err (key_derivation_failed e)
    | inr key ↦ ok key
  ]

  -- A failure leaves the provider as it was.
  unfoldable pub unlock_with_key :
      Bytes → Aes256GcmProvider Key → CryptoResult (Aes256GcmProvider Key)
  unlock_with_key key_bytes provider = elim (new_key key_bytes) [
    | none ↦ err (encryption_failed "invalid key")
    | some k ↦ ok (record { key = some k })
  ]

  unfoldable pub unlock :
      Bytes → Bytes → Aes256GcmProvider Key → CryptoResult (Aes256GcmProvider Key)
  unfolding unlock_with_key derive_key
  unlock passphrase salt provider =
      and_then (derive_key passphrase salt) (λ key_bytes. unlock_with_key key_bytes provider)

  abbrev pub is_unlocked : Aes256GcmProvider Key → Bool
  is_unlocked provider = elim provider.key [ none ↦ false | some k ↦ true ]

  -- What ring returns ends with the tag, so that it is never shorter.
  abbrev pub payload_of : Bytes → Bytes → EncryptedPayload
  payload_of iv_bytes in_out =
      let tag_start = length in_out - tag_len in
      record {
        encrypted = true;
        version = 1;
        iv = encode iv_bytes;
        auth_tag = encode (drop tag_start in_out);
        ciphertext = encode (take tag_start in_out);
      }

  -- `random` is what the generator fills in, if it does.
  unfoldable pub encrypt :
      Option Bytes → Bytes → Aes256GcmProvider Key → CryptoResult EncryptedPayload
  encrypt random plaintext provider =
      and_then (ok_or (encryption_failed "not unlocked") provider.key) (λ key.
        and_then (ok_or (encryption_failed "RNG failure") random) (λ iv_bytes.
          if is_nonce iv_bytes
          then and_then
              (ok_or (encryption_failed "seal failed") (seal_append_tag key iv_bytes plaintext))
              (λ in_out. ok (payload_of iv_bytes in_out))
          else err (encryption_failed "nonce error")))

  unfoldable pub decrypt : EncryptedPayload → Aes256GcmProvider Key → CryptoResult Bytes
  decrypt payload provider =
      if payload.version == 1
      then and_then (ok_or (encryption_failed "not unlocked") provider.key) (λ key.
        and_then (decode payload.iv) (λ iv_bytes. and_then (decode payload.auth_tag) (λ auth_tag.
          and_then (decode payload.ciphertext) (λ ciphertext.
            if is_nonce iv_bytes
            then ok_or decryption_failed (open_in_place key iv_bytes (ciphertext ++ auth_tag))
            else err decryption_failed))))
      else err (unsupported_version payload.version)
