-- ===== src/Shared/Minecraft.antt =====
-- shared/src/minecraft.rs: the first packet of a Minecraft client in its three shapes, and the
-- stream behind it. A parser takes the buffer and returns its result with the buffer after it.
pub mod Split
pub mod Skips
pub mod Handshake
pub mod OldPing
pub mod OldConnect
use craftip_crosscompiletest.Prelude.{
  ℕ, ◌+◌, ◌*◌, List, [], ◌∷◌, Outcome, ok, err, panic, length, drop, ◌==◌,
}
use craftip_crosscompiletest.Shared.Datatypes.{PacketError, not_valid, not_matching, as_usize}
use craftip_crosscompiletest.Shared.Bytes.{Cursor, Read, BytesCrate}
use craftip_crosscompiletest.Shared.Utf8.{RustString}
use craftip_crosscompiletest.Shared.Cursor.{
  ◌>>=◌, ◌>>◌, ensure, pure, position, read_varint, throw_error_if_smaller, get_utf8_string,
  get_utf16_string, match_bytes,
}

-- OLD_MINECRAFT_START
abbrev pub old_minecraft_start : List ℕ
old_minecraft_start =
    0xfe ∷ 0x01 ∷ 0xfa ∷ 0x00 ∷ 0x0b ∷ 0x00 ∷ 0x4d ∷ 0x00 ∷ 0x43 ∷ 0x00 ∷ 0x7c ∷ 0x00 ∷ 0x50 ∷ 0x00
    ∷ 0x69 ∷ 0x00 ∷ 0x6e ∷ 0x00 ∷ 0x67 ∷ 0x00 ∷ 0x48 ∷ 0x00 ∷ 0x6f ∷ 0x00 ∷ 0x73 ∷ 0x00 ∷ 0x74 ∷ []

-- The field `data` is `body` here, since `data` is a keyword.
pub record MinecraftHelloPacket : Type 0 where
  pub packet_length : ℕ
  pub id : ℕ
  pub version : ℕ
  pub hostname : RustString
  pub port : ℕ
  pub body : List ℕ

pub record MinecraftDataPacket : Type 0 where
  pub body : List ℕ

abbrev pub Parse : Type 0 → Type 0
Parse A = List ℕ → Outcome PacketError A × List ℕ

-- The header fields that a parser has read when it splits the packet off.
pub record Header : Type 0 where
  pub id : ℕ
  pub version : ℕ
  pub hostname : RustString
  pub port : ℕ

abbrev pub hello : Header → ℕ → List ℕ → MinecraftHelloPacket
hello h n body = record {
  packet_length = n;
  id = h.id;
  version = h.version;
  hostname = h.hostname;
  port = h.port;
  body = body;
}

abbrev pub data_of : Outcome PacketError (List ℕ × List ℕ) → Parse MinecraftDataPacket
data_of (ok (body, rest)) buf = (ok (record { body = body }), rest)
data_of (err e) buf = (err e, buf)
data_of panic buf = (panic, buf)

abbrev pub split_hello :
    Header → ℕ → Outcome PacketError (List ℕ × List ℕ) → Parse MinecraftHelloPacket
split_hello h n (ok (body, rest)) buf = (ok (hello h n body), rest)
split_hello h n (err e) buf = (err e, buf)
split_hello h n panic buf = (panic, buf)

-- `match .. { Err(NotMatching) => {}, result => return result }`
abbrev pub or_next :
    Outcome PacketError MinecraftHelloPacket × List ℕ
    → Parse MinecraftHelloPacket
    → Outcome PacketError MinecraftHelloPacket × List ℕ
or_next (err not_matching, buf) next = next buf
or_next (r, buf) next = (r, buf)

module _ (bytes : BytesCrate) where
  open bytes use {get_u8, get_u16, get_u32, split_to}

  -- The end of each parser: `Ok(MinecraftHelloPacket { .., data: buf.split_to(position) })`.
  abbrev pub finish : Outcome PacketError Header × Cursor → Parse MinecraftHelloPacket
  finish (ok h, c) buf = split_hello h c.position (split_to c.position buf) buf
  finish (err e, c) buf = (err e, buf)
  finish (panic, c) buf = (panic, buf)

  -- `old_ping_pkg` from position 27 on.
  abbrev pub old_ping_fields : Read Header
  old_ping_fields = do
    rest_data ← get_u16
    version ← get_u8
    hostname ← get_utf16_string bytes
    ensure (7 + length hostname * 2 == rest_data) not_valid
    throw_error_if_smaller bytes 4
    port ← get_u32
    pure (record { id = 0; version = version; hostname = hostname; port = port })

  unfoldable pub read_old_ping : Read Header
  read_old_ping = do
    first ← match_bytes bytes (0xfe ∷ 0x01 ∷ [])
    ensure first not_matching
    throw_error_if_smaller bytes 32
    p ← position
    begin ← match_bytes bytes (drop p old_minecraft_start)
    ensure begin not_valid
    old_ping_fields

  unfoldable pub old_ping_pkg : Parse MinecraftHelloPacket
  old_ping_pkg buf = finish (read_old_ping (record { buf = buf; position = 0 })) buf

  unfoldable pub read_old_connect : Read Header
  read_old_connect = do
    first ← match_bytes bytes (0x02 ∷ [])
    ensure first not_matching
    throw_error_if_smaller bytes 1
    version ← get_u8
    username ← get_utf16_string bytes
    hostname ← get_utf16_string bytes
    throw_error_if_smaller bytes 4
    port ← get_u32
    pure (record { id = 0; version = version; hostname = hostname; port = port })

  unfoldable pub old_connect_pkg : Parse MinecraftHelloPacket
  old_connect_pkg buf = finish (read_old_connect (record { buf = buf; position = 0 })) buf

  unfoldable pub read_new_pkg : Read Header
  read_new_pkg = do
    pkg_length ← read_varint
    pkg_id ← read_varint
    ensure (pkg_id == 0) not_matching
    version ← read_varint
    hostname ← get_utf8_string bytes
    throw_error_if_smaller bytes 2
    port ← get_u16
    p ← position
    ensure (p == as_usize pkg_length) not_valid
    pure (record { id = pkg_id; version = version; hostname = hostname; port = port })

  unfoldable pub new_pkg : Parse MinecraftHelloPacket
  new_pkg buf = finish (read_new_pkg (record { buf = buf; position = 0 })) buf

  -- `MinecraftHelloPacket::new`
  unfoldable pub hello_new : Parse MinecraftHelloPacket
  hello_new buf = or_next (old_ping_pkg buf) λ buf.
      or_next (old_connect_pkg buf) λ buf. or_next (new_pkg buf) λ buf. (err not_matching, buf)

  unfoldable pub data_new : Parse MinecraftDataPacket
  data_new buf = data_of (split_to (length buf) buf) buf
