-- ===== src/Crypto/RoundTrip.antt =====
-- What was encrypted decrypts to the same text.
use vm_orbit.Base.{
  ℕ, zero, suc, ◌<◌, ◌≡◌, refl, sym, ap, ◌∙◌, inl, inr, true, false, some, [], ◌∷◌, ◌++◌, arith,
  ltb, Bool-cases, Option-cases, if_false, nat_eq, string_eq, length, length-append,
}
use vm_orbit.Base.{some_inj}
use vm_orbit.Crypto.{
  Bytes, is_empty, take_bytes, drop_bytes, Library, nonce_size, sealed_with, encrypt_secret, opened,
  decrypt_secret, re_encrypted, re_encrypt_secret,
}

take_bytes-append : (n : ℕ) (xs ys : Bytes) → length xs ≡ n → take_bytes n (xs ++ ys) ≡ xs
take_bytes-append zero [] ys e = refl
take_bytes-append zero (x ∷ xs) ys e = absurd (ground arith)
take_bytes-append (suc n) [] ys e = absurd (ground arith)
take_bytes-append (suc n) (x ∷ xs) ys e =
    ap (λ zs. x ∷ zs) (take_bytes-append n xs ys (ground arith))

drop_bytes-append : (n : ℕ) (xs ys : Bytes) → length xs ≡ n → drop_bytes n (xs ++ ys) ≡ ys
drop_bytes-append zero [] ys e = refl
drop_bytes-append zero (x ∷ xs) ys e = absurd (ground arith)
drop_bytes-append (suc n) [] ys e = absurd (ground arith)
drop_bytes-append (suc n) (x ∷ xs) ys e = drop_bytes-append n xs ys (ground arith)

module _ (L : Library) where
  encode_nonempty : (bs : Bytes) → 0 < length bs → is_empty (L.encode bs) ≡ false
  encode_nonempty [] h = absurd (ground arith)
  encode_nonempty (b ∷ bs) h = L.encode_filled b bs

  opened_sealed :
      (key nonce plain : Bytes)
      → L.is_key key ≡ true
      → length nonce ≡ nonce_size
      → decrypt_secret L key (L.encode (nonce ++ L.seal key nonce plain)) ≡ some plain
  unfolding decrypt_secret opened
  opened_sealed key nonce plain k n =
      let sealed = L.seal key nonce plain in
      let bs = nonce ++ sealed in
      if_false (is_empty (L.encode bs)) _ _
        (encode_nonempty bs (ground (arith, length-append nonce sealed)))
      ∙ rw (L.decode-encode bs, k)
          (if_false (ltb (length bs) nonce_size) _ _ (ground (arith, length-append nonce sealed))
            ∙ rw
                (
                  take_bytes-append nonce_size nonce sealed n,
                  drop_bytes-append nonce_size nonce sealed n,
                  L.open_sealed-seal key nonce plain,
                )
                refl)

  -- What a secret was encrypted to decrypts, with the same key, to that secret.
  pub decrypt_secret-encrypt_secret :
      (key plain encoded : Bytes)
      → encrypt_secret L key plain ≡ some encoded
      → decrypt_secret L key encoded ≡ some plain
  unfolding encrypt_secret sealed_with decrypt_secret
  decrypt_secret-encrypt_secret key [] encoded done =
      ap (decrypt_secret L key) (sym (some_inj done))
  decrypt_secret-encrypt_secret key (p ∷ ps) encoded done = elim (Bool-cases (L.is_key key)) [
    | inr k ↦ absurd (ground (arith, rw k at done))
    | inl k ↦ elim (Option-cases (L.random nonce_size)) [
      | inl r ↦ absurd (ground (arith, rw (k, r) at done))
      | inr (nonce, r) ↦
          ap (decrypt_secret L key) (sym (some_inj (rw (k, r) at done)))
          ∙ opened_sealed key nonce (p ∷ ps) k (L.random_length nonce_size nonce r)
    ]
  ]

  -- A secret that is encrypted again under a new key, after the old key's decryption, decrypts under the
  -- new key to what it was.
  decrypt_secret-re_encrypt_secret :
      (old key plain encoded again : Bytes)
      → encrypt_secret L old plain ≡ some encoded
      → re_encrypt_secret L key (decrypt_secret L old) encoded ≡ some again
      → decrypt_secret L key again ≡ some plain
  unfolding re_encrypt_secret re_encrypted
  decrypt_secret-re_encrypt_secret old key plain encoded again first done =
      decrypt_secret-encrypt_secret key plain again
        (rw (decrypt_secret-encrypt_secret old plain encoded first) at done)
