-- ===== src/Tests/Handshakes.antt =====
-- Handshakes of current Minecraft clients at the codec of shared/src/packet_codec.rs.
use craftip_crosscompiletest.Shared.Minecraft.OldConnect.{legacy_connect}
use craftip_crosscompiletest.Shared.PacketCodec.Legacy.{decode-legacy_connect}
use craftip_crosscompiletest.Shared.Utf8.{decode_utf16, utf16_from, encode_utf8}
use craftip_crosscompiletest.Shared.Minecraft.OldPing.{legacy_ping}
use craftip_crosscompiletest.Shared.PacketCodec.Legacy.{decode-legacy_ping, foreign_ping_waits}
use craftip_crosscompiletest.Prelude.{
  ◌≡◌, refl, ℕ, List, length, [], ◌∷◌, ◌++◌, some, none, ok, true, arith, bytes_of,
}
use craftip_crosscompiletest.Shared.Utf8.{RustString, is_utf8}
use craftip_crosscompiletest.Shared.Datatypes.{mc}
use craftip_crosscompiletest.Shared.Minecraft.Handshake.{handshake_head, handshake_length}
use craftip_crosscompiletest.Shared.SocketPacket.{mc_hello}
use craftip_crosscompiletest.Shared.PacketCodec.{codec_new, decode}
use craftip_crosscompiletest.Shared.PacketCodec.Hello.{decode-handshake, long_handshake_waits}
use craftip_crosscompiletest.Shared.Datatypes.Varint.{encode_varint, groups}
use craftip_crosscompiletest.Tests.Crates.{bytes, bincode}

abbrev localhost : RustString
localhost = bytes_of "localhost"

localhost_valid : is_utf8 localhost ≡ true
unfolding is_utf8
localhost_valid = refl

localhost_length : handshake_length 761 localhost 25565 ≡ 16
unfolding encode_varint groups
localhost_length = refl

decode-handshake_example :
    decode bytes bincode (codec_new 8192) (handshake_head 761 localhost 25565 ++ 1 ∷ 1 ∷ 0 ∷ []) ≡ (
      ok (
          some (
            mc_hello (record {
              packet_length = handshake_length 761 localhost 25565;
              id = 0;
              version = 761;
              hostname = localhost;
              port = 25565;
              body = handshake_head 761 localhost 25565;
            }))),
      record { max_length = 8192; protocol = mc 761 },
      1 ∷ 1 ∷ 0 ∷ [],
    )
decode-handshake_example =
    decode-handshake bytes bincode 8192 761 localhost 25565 1 (1 ∷ 0 ∷ []) (omega arith)
      localhost_valid (omega arith) (omega (arith, localhost_length))

abbrev long_name : RustString
long_name =
    bytes_of
      "play.a-very-long-name-a-very-long-name-a-very-long-name-a-very-long-name-a-very-long-name-a-very-long-name-a-very-long-name-.example.org"

long_name_valid : is_utf8 long_name ≡ true
unfolding is_utf8
long_name_valid = refl

long_name_length : handshake_length 761 long_name 25565 ≡ 144
unfolding encode_varint groups
long_name_length = refl

long_handshake_waits_example :
    decode bytes bincode (codec_new 8192) (handshake_head 761 long_name 25565 ++ 1 ∷ 1 ∷ 0 ∷ [])
    ≡ (ok none, codec_new 8192, handshake_head 761 long_name 25565 ++ 1 ∷ 1 ∷ 0 ∷ [])
long_handshake_waits_example =
    long_handshake_waits bytes bincode 8192 761 long_name 25565 1 (1 ∷ 0 ∷ []) (omega arith)
      long_name_valid (omega arith) (omega (arith, long_name_length))
      (omega (arith, long_name_length)) (omega (arith, long_name_length))

abbrev short_name : RustString
short_name = bytes_of "mc"

decode-legacy_ping_example :
    decode bytes bincode (codec_new 8192) (legacy_ping 74 short_name 25565 ++ 1 ∷ []) ≡ (
      ok (
          some (
            mc_hello (record {
              packet_length = length (legacy_ping 74 short_name 25565);
              id = 0;
              version = 74;
              hostname = short_name;
              port = 25565;
              body = legacy_ping 74 short_name 25565;
            }))),
      record { max_length = 8192; protocol = mc 74 },
      1 ∷ [],
    )
decode-legacy_ping_example =
    decode-legacy_ping bytes bincode 8192 74 short_name 25565 (1 ∷ []) (omega arith) (omega arith)
      (omega arith, (omega arith, tt))

-- The host name `mü`.
abbrev foreign_name : List ℕ
foreign_name = 0x6d ∷ 0xfc ∷ []

foreign_name_decodes : decode_utf16 foreign_name ≡ some (0x6d ∷ 0xc3 ∷ 0xbc ∷ [])
unfolding decode_utf16 utf16_from encode_utf8
foreign_name_decodes = refl

foreign_ping_waits_example :
    decode bytes bincode (codec_new 8192) (legacy_ping 74 foreign_name 25565 ++ [])
    ≡ (ok none, codec_new 8192, legacy_ping 74 foreign_name 25565 ++ [])
foreign_ping_waits_example =
    foreign_ping_waits bytes bincode 8192 74 foreign_name 25565 [] (omega arith) (omega arith)
      (0x6d ∷ 0xc3 ∷ 0xbc ∷ []) (omega arith, (omega arith, tt)) foreign_name_decodes (omega arith)
      (omega arith)

short_name_decodes : decode_utf16 short_name ≡ some short_name
unfolding decode_utf16 utf16_from encode_utf8
short_name_decodes = refl

-- The user `mc` joins the server `mü`.
decode-legacy_connect_example :
    decode bytes bincode
      (codec_new 8192)
      (legacy_connect 61 short_name foreign_name 25565 ++ 1 ∷ [])
    ≡ (
      ok (
          some (
            mc_hello (record {
              packet_length = length (legacy_connect 61 short_name foreign_name 25565);
              id = 0;
              version = 61;
              hostname = 0x6d ∷ 0xc3 ∷ 0xbc ∷ [];
              port = 25565;
              body = legacy_connect 61 short_name foreign_name 25565;
            }))),
      record { max_length = 8192; protocol = mc 61 },
      1 ∷ [],
    )
decode-legacy_connect_example =
    decode-legacy_connect bytes bincode 8192 61 short_name foreign_name 25565 short_name
      (0x6d ∷ 0xc3 ∷ 0xbc ∷ []) (1 ∷ []) (omega arith, (omega arith, tt))
      (omega arith, (omega arith, tt)) (omega arith) (omega arith) short_name_decodes
      foreign_name_decodes (omega arith)
