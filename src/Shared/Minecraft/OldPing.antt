-- ===== src/Shared/Minecraft/OldPing.antt =====
-- The legacy ping of an old Minecraft client, as the protocol writes it, and what `old_ping_pkg` of
-- shared/src/minecraft.rs makes of it.
use craftip_crosscompiletest.Prelude.{
  ◌-◌, ℕ, ◌+◌, ◌*◌, ◌/◌, ◌%◌, ◌^◌, ◌<◌, ◌≡◌, ◌≢◌, refl, ap, ◌∙◌, subst, List, [], ◌∷◌, ◌++◌, some,
  ok, err, length, arith, ◌==◌, append_assoc, length-append, ==_refl, ne→==_false, drop,
}
use craftip_crosscompiletest.Shared.Datatypes.{not_valid}
use craftip_crosscompiletest.Shared.Bytes.{BytesCrate, Read, at}
use craftip_crosscompiletest.Shared.Utf8.{RustString, decode_utf16}
use craftip_crosscompiletest.Shared.Cursor.{◌>>=◌, ◌>>◌, ensure, pure, throw_error_if_smaller}
use craftip_crosscompiletest.Shared.Cursor.Exact.{throw_ok}
use craftip_crosscompiletest.Shared.Cursor.Utf16.{
  be16, units_of, AreUnits, whole, match_bytes_same, get_utf16_string_ok,
}
use craftip_crosscompiletest.Shared.Minecraft.{
  MinecraftHelloPacket, old_minecraft_start, Header, read_old_ping, old_ping_pkg,
}

abbrev pub be32 : ℕ → List ℕ
be32 n = n / 2 ^ 24 ∷ n / 2 ^ 16 % 256 ∷ n / 256 % 256 ∷ n % 256 ∷ []

pub whole_port :
    (port : ℕ)
    → port < 2 ^ 32
    → ((port / 2 ^ 24 * 256 + port / 2 ^ 16 % 256) * 256 + port / 256 % 256) * 256 + port % 256
      ≡ port
whole_port port h = omega (arith, h)

abbrev pub after_start : ℕ → List ℕ → ℕ → List ℕ
after_start version units port =
    be16 (7 + length units * 2)
    ++ (version ∷ (be16 (length units) ++ (units_of units ++ be32 port)))

-- The host name is given by its units in UTF-16.
abbrev pub legacy_ping : ℕ → List ℕ → ℕ → List ℕ
legacy_ping version units port = old_minecraft_start ++ after_start version units port

module _ (bytes : BytesCrate) (version : ℕ) (units : List ℕ) (port : ℕ) (name : RustString)
    (rest : List ℕ) (are_units : AreUnits units) (few : length units < 2 ^ 15 - 3)
    (decodes : decode_utf16 units ≡ some name) (port_fits : port < 2 ^ 32) where
  open bytes use {get_u32, split_to, split_to_lem, get_u8_lem, get_u16_lem, get_u32_lem}

  abbrev n : ℕ
  n = length units

  abbrev before_units : List ℕ
  before_units = (old_minecraft_start ++ be16 (7 + n * 2)) ++ (version ∷ [])

  abbrev before_port : List ℕ
  before_port = (before_units ++ be16 n) ++ units_of units

  abbrev from_name : List ℕ
  from_name = be16 n ++ (units_of units ++ (be32 port ++ rest))

  abbrev from_start : List ℕ
  from_start = be16 (7 + n * 2) ++ (version ∷ from_name)

  abbrev fields_read : Header
  fields_read = record { id = 0; version = version; hostname = name; port = port }

  abbrev read_port : Read Header
  read_port = do
    throw_error_if_smaller bytes 4
    port ← get_u32
    pure (record { id = 0; version = version; hostname = name; port = port })

  read_legacy :
      read_old_ping bytes (at [] (old_minecraft_start ++ from_start))
      ≡ (ensure (7 + length name * 2 == 7 + n * 2) not_valid >> read_port)
          (at before_port (be32 port ++ rest))
  unfolding read_old_ping
  read_legacy = rw (
    match_bytes_same bytes [] (0xfe ∷ 0x01 ∷ []) (drop 2 old_minecraft_start ++ from_start),
    throw_ok bytes (0xfe ∷ 0x01 ∷ []) (drop 2 old_minecraft_start ++ from_start) 32
        (omega (arith, length-append (units_of units) (be32 port ++ rest))),
    match_bytes_same bytes (0xfe ∷ 0x01 ∷ []) (drop 2 old_minecraft_start) from_start,
    get_u16_lem old_minecraft_start (version ∷ from_name) ((7 + n * 2) / 256) ((7 + n * 2) % 256),
    whole (7 + n * 2),
    get_u8_lem (old_minecraft_start ++ be16 (7 + n * 2)) from_name version,
    get_utf16_string_ok bytes before_units units (be32 port ++ rest) name are_units
        (omega (arith, few)) decodes (omega arith),
  )

  read_port_ok :
      read_port (at before_port (be32 port ++ rest))
      ≡ (ok fields_read, at (before_port ++ be32 port) rest)
  read_port_ok = rw (
    throw_ok bytes before_port (be32 port ++ rest) 4 (omega arith),
    get_u32_lem before_port rest (port / 2 ^ 24) (port / 2 ^ 16 % 256) (port / 256 % 256)
        (port % 256),
    whole_port port port_fits,
  )

  from_start_split : old_minecraft_start ++ from_start ≡ legacy_ping version units port ++ rest
  from_start_split = rw (append_assoc (units_of units) (be32 port) rest) refl

  before_port-legacy_ping : before_port ++ be32 port ≡ legacy_ping version units port
  before_port-legacy_ping = refl

  abbrev legacy_hello : MinecraftHelloPacket
  legacy_hello = record {
    packet_length = length (legacy_ping version units port);
    id = 0;
    version = version;
    hostname = name;
    port = port;
    body = legacy_ping version units port;
  }

  taken :
      split_to (length (legacy_ping version units port)) (old_minecraft_start ++ from_start)
      ≡ ok (legacy_ping version units port, rest)
  taken =
      ap (split_to (length (legacy_ping version units port))) from_start_split
      ∙ split_to_lem (legacy_ping version units port) rest

  read_ok :
      length name ≡ n
      → read_old_ping bytes (at [] (old_minecraft_start ++ from_start))
        ≡ (ok fields_read, at (before_port ++ be32 port) rest)
  read_ok e = rw (read_legacy, e, ==_refl (7 + n * 2)) read_port_ok

  pub old_ping_pkg_ok :
      length name ≡ n
      → old_ping_pkg bytes (legacy_ping version units port ++ rest) ≡ (ok legacy_hello, rest)
  unfolding old_ping_pkg
  old_ping_pkg_ok e =
      subst (λ l. old_ping_pkg bytes l ≡ (ok legacy_hello, rest)) from_start_split
        (rw (read_ok e, taken) refl)

  pub old_ping_pkg_refused :
      length name ≢ n
      → old_ping_pkg bytes (legacy_ping version units port ++ rest)
        ≡ (err not_valid, legacy_ping version units port ++ rest)
  unfolding old_ping_pkg
  old_ping_pkg_refused e =
      subst (λ l. old_ping_pkg bytes l ≡ (err not_valid, l)) from_start_split
        (rw (read_legacy, ne→==_false (7 + length name * 2) (7 + n * 2) (omega (arith, e))) refl)
