-- ===== src/Crypto.antt =====
-- internal/crypto/secrets.go: how a stored secret is encrypted and decrypted. AES-GCM, base64, the hex
-- decoder and the source of random bytes are Go's libraries, and a parameter with what they document.
-- A Go string is its bytes, and bytes are numbers. The sync.Once around the key is left out: the environment variable is
-- read once.
pub mod RoundTrip
mod Examples
use vm_orbit.Base.{
  ℕ, zero, suc, ◌≡◌, Bool, true, false, not, Option, none, some, List, [], ◌∷◌, ◌++◌, ltb,
  if◌then◌else◌, ◌==◌, nat_eq, string_eq, length,
}

abbrev pub Bytes : Type 0
Bytes = List ℕ

abbrev pub is_empty : Bytes → Bool
is_empty [] = true
is_empty (b ∷ bs) = false

-- "vmOrbit-secret-key-32bytes-pad!!"
abbrev pub development_key : Bytes
development_key =
    118 ∷ 109 ∷ 79 ∷ 114 ∷ 98 ∷ 105 ∷ 116 ∷ 45 ∷ 115 ∷ 101 ∷ 99 ∷ 114 ∷ 101 ∷ 116 ∷ 45 ∷ 107 ∷ 101
    ∷ 121 ∷ 45 ∷ 51 ∷ 50 ∷ 98 ∷ 121 ∷ 116 ∷ 101 ∷ 115 ∷ 45 ∷ 112 ∷ 97 ∷ 100 ∷ 33 ∷ 33 ∷ []

abbrev pub take_bytes : ℕ → Bytes → Bytes
take_bytes zero bs = []
take_bytes (suc n) [] = []
take_bytes (suc n) (b ∷ bs) = b ∷ take_bytes n bs

abbrev pub drop_bytes : ℕ → Bytes → Bytes
drop_bytes zero bs = bs
drop_bytes (suc n) [] = []
drop_bytes (suc n) (b ∷ bs) = drop_bytes n bs

-- `seal key nonce` encrypts, and Seal appends that to its first argument. A cipher is made of a key
-- of 16, 24 or 32 bytes. `random n` is the next random bytes, or none when reading them fails.
pub record Library : Type 0 where
  pub is_key : Bytes → Bool
  pub seal : Bytes → Bytes → Bytes → Bytes
  pub open_sealed : Bytes → Bytes → Bytes → Option Bytes
  pub encode : Bytes → Bytes
  pub decode : Bytes → Option Bytes
  pub decode_hex : Bytes → Option Bytes
  pub random : ℕ → Option Bytes
  pub open_sealed-seal :
      (key nonce plain : Bytes) → open_sealed key nonce (seal key nonce plain) ≡ some plain
  pub decode-encode : (bs : Bytes) → decode (encode bs) ≡ some bs
  pub encode_filled : (b : ℕ) (bs : Bytes) → is_empty (encode (b ∷ bs)) ≡ false
  pub random_length : (n : ℕ) (bs : Bytes) → random n ≡ some bs → length bs ≡ n

abbrev pub nonce_size : ℕ
nonce_size = 12

abbrev pub key_of_length : Option Bytes → Option Bytes
key_of_length none = none
key_of_length (some bs) = if length bs == 32 then some bs else none

-- loadKey, from the environment variable; `none` is the panic.
module _ (L : Library) where
  unfoldable pub load_key : Bytes → Option Bytes
  load_key raw = if is_empty raw then some development_key else key_of_length (L.decode_hex raw)

  unfoldable pub is_development_key : Bytes → Bool
  is_development_key raw = is_empty raw

  unfoldable pub sealed_with : Bytes → Bytes → Option Bytes → Option Bytes
  sealed_with key plain none = none
  sealed_with key plain (some nonce) = some (L.encode (nonce ++ L.seal key nonce plain))

  -- `none` is an error.
  unfoldable pub encrypt_secret : Bytes → Bytes → Option Bytes
  encrypt_secret key plain =
      if is_empty plain
      then some []
      else if L.is_key key
      then sealed_with key plain (L.random nonce_size)
      else none

  unfoldable pub opened : Bytes → Option Bytes → Option Bytes
  opened key none = none
  opened key (some bs) =
      if not (L.is_key key)
      then none
      else if ltb (length bs) nonce_size
      then none
      else L.open_sealed key (take_bytes nonce_size bs) (drop_bytes nonce_size bs)

  unfoldable pub decrypt_secret : Bytes → Bytes → Option Bytes
  decrypt_secret key encoded = if is_empty encoded then some [] else opened key (L.decode encoded)

  unfoldable pub re_encrypted : Bytes → Option Bytes → Option Bytes
  re_encrypted key none = none
  re_encrypted key (some plain) = encrypt_secret key plain

  unfoldable pub re_encrypt_secret : Bytes → (Bytes → Option Bytes) → Bytes → Option Bytes
  re_encrypt_secret key decrypt_with_old_key encoded =
      re_encrypted key (decrypt_with_old_key encoded)
