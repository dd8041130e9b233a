-- ===== src/Shared/Minecraft/OldConnect.antt =====
-- The first packet of an old Minecraft client that joins, as the protocol writes it, and what
-- `old_connect_pkg` of shared/src/minecraft.rs makes of it.
use craftip_crosscompiletest.Prelude.{
  ℕ, ◌/◌, ◌%◌, ◌^◌, ◌<◌, ◌≡◌, refl, ap, ◌∙◌, subst, List, [], ◌∷◌, ◌++◌, some, ok, length, drop,
  arith, append_assoc,
}
use craftip_crosscompiletest.Shared.Bytes.{BytesCrate, at}
use craftip_crosscompiletest.Shared.Utf8.{RustString, decode_utf16}
use craftip_crosscompiletest.Shared.Cursor.Exact.{throw_ok}
use craftip_crosscompiletest.Shared.Cursor.Utf16.{
  be16, units_of, AreUnits, match_bytes_same, get_utf16_string_ok,
}
use craftip_crosscompiletest.Shared.Minecraft.{
  MinecraftHelloPacket, Header, read_old_connect, old_connect_pkg, hello_new,
}
use craftip_crosscompiletest.Shared.Minecraft.Skips.{not_old_ping}
use craftip_crosscompiletest.Shared.Minecraft.OldPing.{be32, whole_port}

-- The names are given by their units in UTF-16.
abbrev pub legacy_connect : ℕ → (username hostname : List ℕ) → ℕ → List ℕ
legacy_connect version username hostname port =
    2 ∷ version ∷ be16 (length username)
    ++ (units_of username ++ (be16 (length hostname) ++ (units_of hostname ++ be32 port)))

module _ (bytes : BytesCrate) (version : ℕ) (username hostname : List ℕ) (port : ℕ)
    (user name : RustString) (rest : List ℕ) (user_units : AreUnits username)
    (host_units : AreUnits hostname) (user_fits : length username < 2 ^ 16)
    (host_fits : length hostname < 2 ^ 16) (user_decodes : decode_utf16 username ≡ some user)
    (host_decodes : decode_utf16 hostname ≡ some name) (port_fits : port < 2 ^ 32) where
  open bytes use {split_to, split_to_lem, get_u8_lem, get_u32_lem}

  abbrev before_host : List ℕ
  before_host = ((2 ∷ version ∷ []) ++ be16 (length username)) ++ units_of username

  abbrev before_port : List ℕ
  before_port = (before_host ++ be16 (length hostname)) ++ units_of hostname

  abbrev from_host : List ℕ
  from_host = be16 (length hostname) ++ (units_of hostname ++ (be32 port ++ rest))

  abbrev from_start : List ℕ
  from_start = 2 ∷ version ∷ be16 (length username) ++ (units_of username ++ from_host)

  abbrev fields_read : Header
  fields_read = record { id = 0; version = version; hostname = name; port = port }

  read_ok :
      read_old_connect bytes (at [] from_start)
      ≡ (ok fields_read, at (before_port ++ be32 port) rest)
  unfolding read_old_connect
  read_ok = rw (
    match_bytes_same bytes [] (2 ∷ [])
        (version ∷ be16 (length username) ++ (units_of username ++ from_host)),
    throw_ok bytes (2 ∷ []) (version ∷ be16 (length username) ++ (units_of username ++ from_host)) 1
        (omega arith),
    get_u8_lem (2 ∷ []) (be16 (length username) ++ (units_of username ++ from_host)) version,
    get_utf16_string_ok bytes (2 ∷ version ∷ []) username from_host user user_units user_fits
        user_decodes (omega arith),
    get_utf16_string_ok bytes before_host hostname (be32 port ++ rest) name host_units host_fits
        host_decodes (omega arith),
    throw_ok bytes before_port (be32 port ++ rest) 4 (omega arith),
    get_u32_lem before_port rest (port / 2 ^ 24) (port / 2 ^ 16 % 256) (port / 256 % 256)
        (port % 256),
    whole_port port port_fits,
  )

  from_start_split : from_start ≡ legacy_connect version username hostname port ++ rest
  from_start_split = simp append_assoc

  before_port-legacy_connect :
      before_port ++ be32 port ≡ legacy_connect version username hostname port
  before_port-legacy_connect = simp append_assoc

  abbrev legacy_hello : MinecraftHelloPacket
  legacy_hello = record {
    packet_length = length (legacy_connect version username hostname port);
    id = 0;
    version = version;
    hostname = name;
    port = port;
    body = legacy_connect version username hostname port;
  }

  taken :
      split_to (length (legacy_connect version username hostname port)) from_start
      ≡ ok (legacy_connect version username hostname port, rest)
  taken =
      ap (split_to (length (legacy_connect version username hostname port))) from_start_split
      ∙ split_to_lem (legacy_connect version username hostname port) rest

  read_whole :
      read_old_connect bytes (at [] from_start)
      ≡ (ok fields_read, at (legacy_connect version username hostname port) rest)
  read_whole = read_ok ∙ ap (λ l. (ok fields_read, at l rest)) before_port-legacy_connect

  pub hello_new-legacy_connect :
      hello_new bytes (legacy_connect version username hostname port ++ rest)
      ≡ (ok legacy_hello, rest)
  unfolding hello_new old_connect_pkg
  hello_new-legacy_connect =
      subst (λ l. hello_new bytes l ≡ (ok legacy_hello, rest)) from_start_split
        (rw (not_old_ping bytes 2 (drop 1 from_start) (omega arith), read_whole, taken) refl)
