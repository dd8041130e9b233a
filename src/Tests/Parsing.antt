-- ===== src/Tests/Parsing.antt =====
-- The parsers and the codec of shared/src at concrete bytes.
use craftip_crosscompiletest.Prelude.{
  ℕ, ◌≡◌, refl, List, [], ◌∷◌, ◌++◌, Option, none, ok, arith, bytes_of, All, some, ap, suc, length,
}
use craftip_crosscompiletest.Shared.Datatypes.{proxy, varint_loop, get_varint}
use craftip_crosscompiletest.Shared.Minecraft.{
  read_old_ping, old_ping_pkg, read_old_connect, old_connect_pkg, read_new_pkg, new_pkg, hello_new,
}
use craftip_crosscompiletest.Shared.Cursor.{
  throw_error_if_smaller, read_varint, get_utf8_string, get_utf16_string, match_bytes,
}
use craftip_crosscompiletest.Shared.Utf8.{is_utf8, from_utf8, encode_utf8, decode_utf16}
use craftip_crosscompiletest.Shared.Minecraft.Split.{Splits, hello_new-Splits}
use craftip_crosscompiletest.Shared.SocketPacket.{
  SocketPacket, proxy_ping, proxy_error, encode, read_frame, decode_proxy, parse_packet,
}
use craftip_crosscompiletest.Shared.PacketCodec.{codec_new, decode}
use craftip_crosscompiletest.Shared.PacketCodec.Total.{Decodes, decode_total}
use craftip_crosscompiletest.Shared.PacketCodec.First.{whole_frame_held_back}
use craftip_crosscompiletest.Shared.PacketCodec.Stream.{
  Frames, IsShort, Link, Reach, here, next, arrive, deliver, start, stream_exact, stream_complete,
}
use craftip_crosscompiletest.Tests.Crates.{bytes, bincode}

-- The test vectors of shared/src/test.rs.
varint_max : get_varint (0xff ∷ 0xff ∷ 0xff ∷ 0xff ∷ 0x07 ∷ []) 0 ≡ ok (2147483647, 5)
unfolding get_varint varint_loop
varint_max = refl

varint_minus_one : get_varint (0xff ∷ 0xff ∷ 0xff ∷ 0xff ∷ 0x0f ∷ []) 0 ≡ ok (0xffffffff, 5)
unfolding get_varint varint_loop
varint_minus_one = refl

abbrev new_hello_bytes : List ℕ
new_hello_bytes =
    16 ∷ 0 ∷ 249 ∷ 5 ∷ 9 ∷ 108 ∷ 111 ∷ 99 ∷ 97 ∷ 108 ∷ 104 ∷ 111 ∷ 115 ∷ 116 ∷ 99 ∷ 221 ∷ []

new_server : hello_new bytes (new_hello_bytes ++ 1 ∷ []) ≡ (
  ok (record {
    packet_length = 16;
    id = 0;
    version = 761;
    hostname = bytes_of "localhost";
    port = 25565;
    body = new_hello_bytes;
  }),
  1 ∷ [],
)
unfolding hello_new old_ping_pkg read_old_ping old_connect_pkg read_old_connect new_pkg read_new_pkg
    match_bytes read_varint get_varint varint_loop get_utf8_string throw_error_if_smaller from_utf8
    is_utf8
new_server = refl

abbrev short_ping_bytes : List ℕ
short_ping_bytes =
    254 ∷ 1 ∷ 250 ∷ 0 ∷ 11 ∷ 0 ∷ 77 ∷ 0 ∷ 67 ∷ 0 ∷ 124 ∷ 0 ∷ 80 ∷ 0 ∷ 105 ∷ 0 ∷ 110 ∷ 0 ∷ 103 ∷ 0
    ∷ 72 ∷ 0 ∷ 111 ∷ 0 ∷ 115 ∷ 0 ∷ 116 ∷ 0 ∷ 11 ∷ 73 ∷ 0 ∷ 2 ∷ 0 ∷ 104 ∷ 0 ∷ 105 ∷ 0 ∷ 0 ∷ 99 ∷ 221
    ∷ []

short_ping : hello_new bytes short_ping_bytes ≡ (
  ok (record {
    packet_length = 40;
    id = 0;
    version = 73;
    hostname = bytes_of "hi";
    port = 25565;
    body = short_ping_bytes;
  }),
  [],
)
unfolding hello_new old_ping_pkg read_old_ping match_bytes throw_error_if_smaller get_utf16_string
    decode_utf16 encode_utf8
short_ping = refl

hello_new-Splits_example : Splits short_ping_bytes (hello_new bytes short_ping_bytes)
hello_new-Splits_example = hello_new-Splits bytes short_ping_bytes

abbrev ping_frame : List ℕ
ping_frame = 0 ∷ 2 ∷ 11 ∷ 7 ∷ []

encode_ping : encode bincode (proxy_ping 7) ≡ ok ping_frame
unfolding encode
encode_ping = refl

decode_total_example :
    Decodes new_hello_bytes (decode bytes bincode (codec_new 8192) new_hello_bytes)
decode_total_example = decode_total bytes bincode (codec_new 8192) new_hello_bytes

-- `n` letters.
letters : ℕ → List ℕ
letters ℕ.zero = []
letters (suc n) = 97 ∷ letters n

length-letters : (n : ℕ) → length (letters n) ≡ n
unfolding letters
length-letters ℕ.zero = refl
length-letters (suc n) = ap suc (length-letters n)

-- A packet that is written with 602 bytes, the first two 9 and 0.
abbrev long_error : SocketPacket
long_error = proxy_error (0 ∷ letters 600)

whole_frame_held_back_example :
    (frame : List ℕ) × (encode bincode long_error ≡ ok frame)
    × (decode_proxy bytes bincode frame ≡ (ok long_error, []))
    × (decode bytes bincode (codec_new 4096) frame ≡ (ok none, codec_new 4096, frame))
whole_frame_held_back_example =
    whole_frame_held_back bytes bincode 4096 long_error 9 0 (letters 600) refl
      (omega (arith, length-letters 600)) (omega (arith, length-letters 600))
      (omega (arith, length-letters 600))

-- A packet that is written with 65536 bytes.
abbrev huge_packet : SocketPacket
huge_packet = proxy_error (letters 65535)

ping_frame-Frames : Frames bincode (proxy_ping 7 ∷ []) ping_frame
ping_frame-Frames = (ping_frame, [], encode_ping, refl, refl)

ping-IsShort : All (IsShort bincode) (proxy_ping 7 ∷ [])
ping-IsShort = (λ body e. omega (arith, ap length (same _ body e)), tt)
  where
    same : (x y : List ℕ) → some x ≡ some y → x ≡ y
    same x y e = cc

abbrev half_arrived : Link
half_arrived = record {
  wire = 11 ∷ 7 ∷ [];
  buf = 0 ∷ 2 ∷ [];
  codec = record { max_length = 4096; protocol = proxy 1 };
  got = [];
}

abbrev all_arrived : Link
all_arrived = record half_arrived { wire = []; buf = ping_frame }

abbrev all_delivered : Link
all_delivered = record half_arrived { wire = []; buf = []; got = proxy_ping 7 ∷ [] }

ping_starts : Reach bytes bincode (start 4096 1 ping_frame) half_arrived
ping_starts = next here (arrive (0 ∷ 2 ∷ []) refl refl refl refl)

ping_arrives : Reach bytes bincode (start 4096 1 ping_frame) all_arrived
ping_arrives = next ping_starts (arrive (11 ∷ 7 ∷ []) refl refl refl refl)

ping_delivered : Reach bytes bincode (start 4096 1 ping_frame) all_delivered
unfolding decode parse_packet decode_proxy read_frame throw_error_if_smaller
ping_delivered = next ping_arrives (deliver (proxy_ping 7) refl refl refl)

stream_exact_example :
    ((rest : List SocketPacket) × (proxy_ping 7 ∷ [] ≡ [] ++ rest))
    × ((o : Option SocketPacket) × ((decode bytes bincode half_arrived.codec ping_frame).0 ≡ ok o))
stream_exact_example =
    stream_exact bytes bincode 4096 1 (proxy_ping 7 ∷ []) ping_frame all_arrived ping-IsShort
      ping_frame-Frames ping_arrives

stream_complete_example : ◌≡◌ {A = List SocketPacket} (proxy_ping 7 ∷ []) (proxy_ping 7 ∷ [])
unfolding decode
stream_complete_example =
    stream_complete bytes bincode 4096 1 (proxy_ping 7 ∷ []) ping_frame all_delivered ping-IsShort
      ping_frame-Frames ping_delivered refl refl
