-- ===== src/Crypto/Examples.antt =====
-- A library whose cipher changes nothing, and whose encoding puts a byte in front.
use vm_orbit.Base.{
  ℕ, zero, suc, ◌≡◌, refl, sym, ap, ◌∙◌, Option, none, some, [], ◌∷◌, ◌++◌, ◌==◌, nat_eq, string_eq,
  length,
}
use vm_orbit.Base.{some_inj}
use vm_orbit.Crypto.{
  Bytes, Library, development_key, load_key, sealed_with, encrypt_secret, decrypt_secret,
}
use vm_orbit.Crypto.RoundTrip.{decrypt_secret-encrypt_secret}

abbrev tail : Bytes → Option Bytes
tail [] = none
tail (b ∷ bs) = some bs

abbrev zeros : ℕ → Bytes
zeros zero = []
zeros (suc n) = 0 ∷ zeros n

length-zeros : (n : ℕ) → length (zeros n) ≡ n
length-zeros zero = refl
length-zeros (suc n) = ap suc (length-zeros n)

abbrev plain_library : Library
plain_library = record {
  is_key = λ key. length key == 32;
  seal = λ key nonce plain. plain;
  open_sealed = λ key nonce sealed. some sealed;
  encode = λ bs. 66 ∷ bs;
  decode = tail;
  decode_hex = λ text. some text;
  random = λ n. some (zeros n);
  open_sealed-seal = λ key nonce plain. refl;
  decode-encode = λ bs. refl;
  encode_filled = λ b bs. refl;
  random_length = λ n bs e. ap length (sym (some_inj e)) ∙ length-zeros n;
}

decrypt_secret-encrypt_secret_example :
    decrypt_secret plain_library development_key (66 ∷ (zeros 12 ++ (112 ∷ 119 ∷ [])))
    ≡ some (112 ∷ 119 ∷ [])
unfolding encrypt_secret sealed_with
decrypt_secret-encrypt_secret_example =
    decrypt_secret-encrypt_secret plain_library development_key (112 ∷ 119 ∷ [])
      (66 ∷ (zeros 12 ++ (112 ∷ 119 ∷ []))) refl

-- Without the environment variable the key is the development one, of 32 bytes.
development : (load_key plain_library [] ≡ some development_key) × (length development_key ≡ 32)
unfolding load_key
development = (refl, refl)
