-- ===== src/Shared/Crypto.antt =====
-- shared/src/crypto.rs: host names from keys, and the challenge that proves a key.
-- `ring`, `base-x` and `hex` are not part of the repository: `CryptoCrates` is what is used of them.
pub mod Keys
use craftip_crosscompiletest.Shared.Config.{key_server_suffix}
use craftip_crosscompiletest.Prelude.{
  ℕ, List, ◌++◌, Option, none, some, Bool, true, Outcome, ok, err, panic, length, take, ltb, ◌==◌,
  if◌then◌else◌, ◌≡◌, bytes_of,
}
use craftip_crosscompiletest.Shared.Utf8.{RustString}
use craftip_crosscompiletest.Shared.Proxy.{ServerPublicKey}

pub record CryptoCrates : Type 0 where
  pub sha256 : List ℕ → List ℕ
  pub base36_encode : List ℕ → RustString
  pub base36_decode : RustString → Option (List ℕ)
  pub hex_encode : List ℕ → RustString
  pub hex_decode : RustString → Option (List ℕ)
  -- Ed25519 on a PKCS#8 key pair; `from_pkcs8` accepts the bytes of a key pair only.
  pub is_key_pair : List ℕ → Bool
  pub sign_with : List ℕ → List ℕ → List ℕ
  pub public_key_of : List ℕ → List ℕ
  pub verify_with : (key message signature : List ℕ) → Bool
  -- Decoding undoes encoding.
  pub base36_decode-encode : (bs : List ℕ) → base36_decode (base36_encode bs) ≡ some bs
  pub hex_decode-encode : (bs : List ℕ) → hex_decode (hex_encode bs) ≡ some bs
  -- A signature by a key pair verifies under its public key.
  pub verify-sign :
      (key message : List ℕ)
      → is_key_pair key ≡ true
      → verify_with (public_key_of key) message (sign_with key message) ≡ true

pub data CryptoError : Type 0 where
  crypto_failed : CryptoError

-- The messages of the `TryFrom` errors.
pub data KeyError : Type 0 where
  invalid_hex_string invalid_base36_string invalid_length : KeyError

pub record ServerPrivateKey : Type 0 where
  pub key : List ℕ

abbrev pub prefix : List ℕ
prefix = bytes_of "CraftIPServerHost"

abbrev pub hostname_length : ℕ
hostname_length = 20

-- `create_challenge`: what is signed.
unfoldable pub create_challenge : List ℕ → List ℕ
create_challenge challenge = prefix ++ challenge

-- `create_challange`: 64 random bytes, or the failure of the random generator.
unfoldable pub create_challange : Option (List ℕ) → Outcome CryptoError (List ℕ)
create_challange none = err crypto_failed
create_challange (some random) = ok random

abbrev pub private_of : Option (List ℕ) → Outcome KeyError ServerPrivateKey
private_of none = err invalid_hex_string
private_of (some bs) = if length bs == 83 then ok (record { key = bs }) else err invalid_length

abbrev pub public_of : Option (List ℕ) → Outcome KeyError ServerPublicKey
public_of none = err invalid_base36_string
public_of (some bs) = if length bs == 32 then ok (record { key = bs }) else err invalid_length

-- `ServerPrivateKey::default`, on what the generator of key pairs gives; `copy_from_slice` panics on
-- another length.
unfoldable pub default_key : Option (List ℕ) → Outcome CryptoError ServerPrivateKey
default_key none = panic
default_key (some pkcs8) = if length pkcs8 == 83 then ok (record { key = pkcs8 }) else panic

module _ (crypto : CryptoCrates) where
  open crypto use {
    sha256, base36_encode, base36_decode, hex_encode, hex_decode, is_key_pair, sign_with,
    public_key_of, verify_with,
  }

  -- `ServerPrivateKey::try_from` and `fmt`
  unfoldable pub parse_private : RustString → Outcome KeyError ServerPrivateKey
  parse_private value = private_of (hex_decode value)

  unfoldable pub show_private : ServerPrivateKey → RustString
  show_private k = hex_encode k.key

  -- `ServerPublicKey::try_from` and `fmt`
  unfoldable pub parse_public : RustString → Outcome KeyError ServerPublicKey
  parse_public value = public_of (base36_decode value)

  unfoldable pub show_public : ServerPublicKey → RustString
  show_public k = base36_encode k.key

  -- `from_pkcs8(..).unwrap()`
  abbrev pub with_key_pair : {A : Type 0} → ServerPrivateKey → A → Outcome CryptoError A
  with_key_pair k a = if is_key_pair k.key then ok a else panic

  unfoldable pub sign : ServerPrivateKey → List ℕ → Outcome CryptoError (List ℕ)
  sign k challenge = with_key_pair k (sign_with k.key (create_challenge challenge))

  unfoldable pub get_public_key : ServerPrivateKey → Outcome CryptoError ServerPublicKey
  get_public_key k = with_key_pair k (record { key = public_key_of k.key })

  unfoldable pub verify : ServerPublicKey → List ℕ → List ℕ → Bool
  verify k challenge signature = verify_with k.key (create_challenge challenge) signature

  -- `checksum[0..HOSTNAME_LENGTH]` panics on a shorter text.
  unfoldable pub get_host : ServerPublicKey → Outcome CryptoError RustString
  get_host k =
      let checksum = base36_encode (sha256 (prefix ++ k.key)) in
      if ltb (length checksum) hostname_length then panic else ok (take hostname_length checksum)

  abbrev pub with_suffix : Outcome CryptoError RustString → Outcome CryptoError RustString
  with_suffix (ok host) = ok (host ++ key_server_suffix)
  with_suffix (err e) = err e
  with_suffix panic = panic

  unfoldable pub get_hostname : ServerPublicKey → Outcome CryptoError RustString
  get_hostname k = with_suffix (get_host k)
