-- ===== src/Crypto/Tests.antt =====
-- crates/cordelia-crypto/src/lib.rs: a run with a toy cipher, and the theorem at it.
use Prim.Native.Char.{char}
use cordelia_core.Prelude.{
  ℕ, zero, suc, String, inr, Option, none, some, [], ◌∷◌, ◌≡◌, refl, ap, sym, ◌++◌, ◌==◌, length,
  nat_eq, ℕ_discrete,
}
use cordelia_core.Protocol.Messages.{Bytes}
use cordelia_core.Crypto.Provider.{ok, Primitives, EncryptedPayload, drop, encrypt, decrypt}
use cordelia_core.Crypto.RoundTrip.{decrypt-encrypt}

-- A byte is a row of U+0000 that ends with U+0001.
abbrev encode_byte : ℕ → String → String
encode_byte zero s = String.◌∷◌ (char 1 tt) s
encode_byte (suc n) s = String.◌∷◌ (char 0 tt) (encode_byte n s)

abbrev encode_unary : Bytes → String
encode_unary [] = String.[]
encode_unary (b ∷ bs) = encode_byte b (encode_unary bs)

abbrev one_more : Bytes → Bytes
one_more [] = []
one_more (b ∷ bs) = suc b ∷ bs

abbrev decode_unary : String → Bytes
decode_unary String.[] = []
decode_unary (String.◌∷◌ (char zero p) s) = one_more (decode_unary s)
decode_unary (String.◌∷◌ (char (suc n) p) s) = 0 ∷ decode_unary s

decode-encode_byte : (n : ℕ) (s : String) → decode_unary (encode_byte n s) ≡ n ∷ decode_unary s
decode-encode_byte zero s = refl
decode-encode_byte (suc n) s = ap one_more (decode-encode_byte n s)

decode-encode_unary : (bs : Bytes) → decode_unary (encode_unary bs) ≡ bs
decode-encode_unary [] = refl
decode-encode_unary (b ∷ bs) =
    rw (decode-encode_byte b (encode_unary bs), decode-encode_unary bs) refl

abbrev tag : Bytes
tag = 1 ∷ 2 ∷ 3 ∷ 4 ∷ 5 ∷ 6 ∷ 7 ∷ 8 ∷ 9 ∷ 10 ∷ 11 ∷ 12 ∷ 13 ∷ 14 ∷ 15 ∷ 16 ∷ []

-- The tag stands before the text, which stays as it is.
abbrev toy : Primitives
toy = record {
  Key = ℕ;
  scrypt = λ log_n r p len passphrase salt. inr (passphrase ++ salt);
  new_key = λ bytes. some (length bytes);
  is_nonce = λ bytes. length bytes == 12;
  seal_append_tag = λ key nonce plain. some (tag ++ plain);
  open_in_place = λ key nonce sealed. some (drop 16 sealed);
  encode = encode_unary;
  decode = λ text. ok (decode_unary text);
}

abbrev opened_of : Option Bytes → Option Bytes
opened_of none = none
opened_of (some sealed) = some (drop 16 sealed)

abbrev nonce : Bytes
nonce = 0 ∷ 1 ∷ 2 ∷ 3 ∷ 4 ∷ 5 ∷ 6 ∷ 7 ∷ 8 ∷ 9 ∷ 10 ∷ 11 ∷ []

decrypt-encrypt_example :
    (payload : EncryptedPayload) × (encrypt toy
        (some nonce)
        (72 ∷ 105 ∷ [])
        (record { key = some 7 })
      ≡ ok payload)
    × (decrypt toy payload (record { key = some 7 }) ≡ ok (72 ∷ 105 ∷ []))
unfolding ℕ_discrete
decrypt-encrypt_example =
    decrypt-encrypt toy (λ bs. ap ok (decode-encode_unary bs))
      (λ key n plain sealed e. sym (ap opened_of e)) 7 nonce (72 ∷ 105 ∷ []) (tag ++ 72 ∷ 105 ∷ [])
      refl refl
