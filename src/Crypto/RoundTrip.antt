-- ===== src/Crypto/RoundTrip.antt =====
-- crates/cordelia-crypto/src/lib.rs: what is encrypted is decrypted.
use cordelia_core.Prelude.{
  ℕ, zero, suc, ◌-◌, true, some, List, [], ◌∷◌, ◌≡◌, refl, ap, ◌++◌, length, take, nat_eq,
  ℕ_discrete,
}
use cordelia_core.Protocol.Messages.{Bytes}
use cordelia_core.Crypto.Provider.{
  ok, Primitives, tag_len, EncryptedPayload, drop, payload_of, encrypt, decrypt,
}

take-drop : {A : Type 0} (n : ℕ) (xs : List A) → take n xs ++ drop n xs ≡ xs
take-drop zero xs = refl
take-drop (suc n) [] = refl
take-drop (suc n) (x ∷ xs) = ap (λ ys. x ∷ ys) (take-drop n xs)

-- What is relied on: base64 decodes what it encodes, and the cipher opens what it sealed.
module _ (prim : Primitives) (decode_encode : (b : Bytes) → prim.decode (prim.encode b) ≡ ok b)
    (open_seal : (k : prim.Key) (nonce plain sealed : Bytes)
      → prim.seal_append_tag k nonce plain ≡ some sealed
      → prim.open_in_place k nonce sealed ≡ some plain) where
  -- With base64 that decodes what it encodes and a cipher that opens what it sealed: if the provider
  -- is unlocked, the generator fills in a nonce, and the cipher seals the plaintext, then encryption
  -- returns a payload, and decryption returns the plaintext from it.
  pub decrypt-encrypt :
      (key : prim.Key) (iv_bytes plaintext in_out : Bytes)
      → prim.is_nonce iv_bytes ≡ true
      → prim.seal_append_tag key iv_bytes plaintext ≡ some in_out
      → (payload : EncryptedPayload) × (encrypt prim
            (some iv_bytes)
            plaintext
            (record { key = some key })
          ≡ ok payload)
        × (decrypt prim payload (record { key = some key }) ≡ ok plaintext)
  unfolding encrypt decrypt ℕ_discrete
  decrypt-encrypt key iv_bytes plaintext in_out nonce seal = (
    payload_of prim iv_bytes in_out,
    rw (nonce, seal) refl,
    rw
        (
          decode_encode iv_bytes,
          decode_encode (drop (length in_out - tag_len) in_out),
          decode_encode (take (length in_out - tag_len) in_out),
          nonce,
          take-drop (length in_out - tag_len) in_out,
          open_seal key iv_bytes plaintext in_out seal,
        )
        refl,
  )
