-- ===== src/Shared/Crypto/Keys.antt =====
-- The texts of the keys of shared/src/crypto.rs: printed and parsed again.
use craftip_crosscompiletest.Prelude.{[], ℕ, ◌≡◌, ◌↔◌, List, Option, none, some, ok, length, arith}
use craftip_crosscompiletest.Shared.Proxy.{ServerPublicKey}
use craftip_crosscompiletest.Shared.Crypto.{
  CryptoCrates, ServerPrivateKey, private_of, public_of, parse_private, show_private, parse_public,
  show_public, default_key,
}

private_of-length : (bs : List ℕ) → length bs ≡ 83 → private_of (some bs) ≡ ok (record { key = bs })
private_of-length bs h = ground (arith, h)

public_of-length : (bs : List ℕ) → length bs ≡ 32 → public_of (some bs) ≡ ok (record { key = bs })
public_of-length bs h = ground (arith, h)

default_key-length :
    (generated : Option (List ℕ)) (k : ServerPrivateKey)
    → default_key generated ≡ ok k
    → length k.key ≡ 83
unfolding default_key
default_key-length none k h = cc
default_key-length (some bs) k h = ground (arith, h)

length-private_of :
    (o : Option (List ℕ)) (k : ServerPrivateKey) → private_of o ≡ ok k → length k.key ≡ 83
length-private_of none k h = cc
length-private_of (some bs) k h = ground (arith, h)

length-public_of :
    (o : Option (List ℕ)) (p : ServerPublicKey) → public_of o ≡ ok p → length p.key ≡ 32
length-public_of none p h = cc
length-public_of (some bs) p h = ground (arith, h)

module _ (crypto : CryptoCrates) where
  -- The text of a private key parses to the key exactly when the key has 83 bytes, and the text of a
  -- public key exactly when it has 32.
  pub keys_roundtrip :
      (k : ServerPrivateKey) (p : ServerPublicKey)
      → ((parse_private crypto (show_private crypto k) ≡ ok k) ↔ (length k.key ≡ 83))
        × ((parse_public crypto (show_public crypto p) ≡ ok p) ↔ (length p.key ≡ 32))
  unfolding parse_private show_private parse_public show_public
  keys_roundtrip k p =
      rw (crypto.hex_decode-encode k.key, crypto.base36_decode-encode p.key)
        (
          (length-private_of (some k.key) k, private_of-length k.key),
          (length-public_of (some p.key) p, public_of-length p.key),
        )

  -- A key that `default` generates can be read again.
  pub default_key-roundtrip :
      (generated : Option (List ℕ)) (k : ServerPrivateKey)
      → default_key generated ≡ ok k
      → parse_private crypto (show_private crypto k) ≡ ok k
  default_key-roundtrip generated k h =
      (keys_roundtrip k (record { key = [] })).0.1 (default_key-length generated k h)
