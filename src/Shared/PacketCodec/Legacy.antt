-- ===== src/Shared/PacketCodec/Legacy.antt =====
-- The legacy ping of an old Minecraft client as the first packet of a connection (`PacketCodec` of
-- shared/src/packet_codec.rs).
use craftip_crosscompiletest.Shared.Minecraft.OldConnect.{legacy_connect, hello_new-legacy_connect}
use craftip_crosscompiletest.Prelude.{
  ◌-◌, ℕ, ◌^◌, ◌≤◌, ◌<◌, ◌≡◌, ◌≢◌, refl, List, [], ◌∷◌, ◌++◌, some, none, ok, length, drop, arith,
  All,
}
use craftip_crosscompiletest.Shared.Datatypes.{mc}
use craftip_crosscompiletest.Shared.Bytes.{BytesCrate}
use craftip_crosscompiletest.Shared.Utf8.{RustString, decode_utf16}
use craftip_crosscompiletest.Shared.Utf8.Units.{
  foreign, AsciiUnit, decode_utf16-length, decode_utf16-ascii,
}
use craftip_crosscompiletest.Shared.Cursor.Utf16.{AreUnits}
use craftip_crosscompiletest.Shared.Minecraft.{hello_new}
use craftip_crosscompiletest.Shared.Minecraft.OldPing.{
  legacy_ping, old_ping_pkg_ok, old_ping_pkg_refused,
}
use craftip_crosscompiletest.Shared.SocketPacket.{Bincode, mc_hello, parse_first_package}
use craftip_crosscompiletest.Shared.SocketPacket.Frames.{decode_incomplete}
use craftip_crosscompiletest.Shared.PacketCodec.{codec_new, decode}

ascii-AreUnits : (units : List ℕ) → All AsciiUnit units → AreUnits units
ascii-AreUnits [] h = tt
ascii-AreUnits (u ∷ us) h = (omega (arith, h.0), ascii-AreUnits us h.1)

module _ (bytes : BytesCrate) (bincode : Bincode) (max_length version : ℕ) (units : List ℕ)
    (port : ℕ) (rest : List ℕ) (few : length units < 2 ^ 15 - 3) (port_fits : port < 2 ^ 32) where
  -- A legacy ping whose host name is in ASCII makes the codec a Minecraft codec of its version: the
  -- hello has its version, host name and port, and carries all of its bytes, and what stands behind it
  -- stays in the buffer.
  pub decode-legacy_ping :
      All AsciiUnit units
      → decode bytes bincode (codec_new max_length) (legacy_ping version units port ++ rest) ≡ (
        ok (
            some (
              mc_hello (record {
                packet_length = length (legacy_ping version units port);
                id = 0;
                version = version;
                hostname = units;
                port = port;
                body = legacy_ping version units port;
              }))),
        record { max_length = max_length; protocol = mc version },
        rest,
      )
  unfolding decode parse_first_package codec_new hello_new
  decode-legacy_ping ascii =
      rw
        (old_ping_pkg_ok bytes version units port units rest (ascii-AreUnits units ascii) few
          (decode_utf16-ascii units ascii) port_fits refl)
        refl

  -- A legacy ping whose host name has a letter that is no ASCII is not answered, as long as it and what
  -- follows stay below 65027 bytes: the codec takes its first two bytes for the length of a frame,
  -- and waits for the rest of that frame.
  pub foreign_ping_waits :
      (name : RustString)
      → AreUnits units
      → decode_utf16 units ≡ some name
      → 1 ≤ foreign units
      → length (legacy_ping version units port ++ rest) < 65027
      → decode bytes bincode (codec_new max_length) (legacy_ping version units port ++ rest)
        ≡ (ok none, codec_new max_length, legacy_ping version units port ++ rest)
  unfolding decode parse_first_package codec_new hello_new
  foreign_ping_waits name are_units decodes some_foreign short =
      rw
        (
          old_ping_pkg_refused bytes version units port name rest are_units few decodes port_fits
              longer,
          decode_incomplete bytes bincode 0xfe 0x01
              (drop 2 (legacy_ping version units port ++ rest)) (omega (arith, short)),
        )
        refl
    where
      longer : length name ≢ length units
      longer e = omega (arith, e, decode_utf16-length units name decodes, some_foreign)

-- The first packet of an old Minecraft client that joins, for any version, any port of 32 bits and
-- any names that are valid UTF-16, makes the codec a Minecraft codec of its version: the hello has its
-- version, host name and port, and carries all of its bytes, and what stands behind it stays in the
-- buffer.
pub decode-legacy_connect :
    (bytes : BytesCrate) (bincode : Bincode) (max_length version : ℕ) (username hostname : List ℕ)
    (port : ℕ) (user name : RustString) (rest : List ℕ)
    → AreUnits username
    → AreUnits hostname
    → length username < 2 ^ 16
    → length hostname < 2 ^ 16
    → decode_utf16 username ≡ some user
    → decode_utf16 hostname ≡ some name
    → port < 2 ^ 32
    → decode bytes bincode
        (codec_new max_length)
        (legacy_connect version username hostname port ++ rest)
      ≡ (
        ok (
            some (
              mc_hello (record {
                packet_length = length (legacy_connect version username hostname port);
                id = 0;
                version = version;
                hostname = name;
                port = port;
                body = legacy_connect version username hostname port;
              }))),
        record { max_length = max_length; protocol = mc version },
        rest,
      )
unfolding decode parse_first_package codec_new
decode-legacy_connect bytes bincode max_length version username hostname port user name rest uu hu
      uf hf ud hd pf =
    rw
      (hello_new-legacy_connect bytes version username hostname port user name rest uu hu uf hf ud
        hd pf)
      refl
