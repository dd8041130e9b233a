-- ===== src/Tests/Reading.antt =====
-- The varints and the repeated calls of `decode` of shared/src at concrete bytes.
use craftip_crosscompiletest.Prelude.{ℕ, ◌≡◌, refl, List, [], ◌∷◌, drop, ok, arith}
use craftip_crosscompiletest.Shared.Datatypes.{get_varint}
use craftip_crosscompiletest.Shared.Datatypes.Reference.{
  above, varint_at, in_32_bits, get_varint-varint_at,
}
use craftip_crosscompiletest.Shared.PacketCodec.{codec_new}
use craftip_crosscompiletest.Shared.PacketCodec.Drain.{Drains, drain, drain-Drains}
use craftip_crosscompiletest.Prelude.{◌++◌}
use craftip_crosscompiletest.Shared.Minecraft.{data_new}
use craftip_crosscompiletest.Shared.SocketPacket.{mc_data, parse_packet}
use craftip_crosscompiletest.Shared.PacketCodec.{decode}
use craftip_crosscompiletest.Shared.PacketCodec.Stream.{Link, Reach, here, next, arrive, deliver}
use craftip_crosscompiletest.Shared.PacketCodec.Raw.{
  in_minecraft, raw_start, raw_packet, Carried, raw_exact,
}
use craftip_crosscompiletest.Tests.Crates.{bytes, bincode}

-- Five groups that stand for a number of 35 bits, behind one other byte.
abbrev wide : List ℕ
wide = 9 ∷ 0xff ∷ 0xff ∷ 0xff ∷ 0xff ∷ 0x7f ∷ []

wide_is : in_32_bits 0 0 0 (varint_at 5 (drop 1 wide)) ≡ ok (0xffffffff, 5)
unfolding in_32_bits varint_at above
wide_is = refl

get_varint-varint_at_example : get_varint wide 1 ≡ in_32_bits 0 0 0 (varint_at 5 (drop 1 wide))
get_varint-varint_at_example =
    get_varint-varint_at wide 1
      (omega arith, (omega arith, (omega arith, (omega arith, (omega arith, (omega arith, tt))))))

-- Two frames of a ping, and a part of a third.
abbrev pings : List ℕ
pings = 0 ∷ 2 ∷ 11 ∷ 5 ∷ 0 ∷ 2 ∷ 11 ∷ 6 ∷ 0 ∷ []

drain-Drains_example : Drains pings (drain bytes bincode 10 (codec_new 1024) pings)
drain-Drains_example = drain-Drains bytes bincode 10 (codec_new 1024) pings (omega arith)

-- Two bytes are in the buffer, one more arrives, and `decode` is called.
abbrev three_came : Link
three_came = record { wire = 4 ∷ []; buf = 1 ∷ 2 ∷ 3 ∷ []; codec = in_minecraft 1024 761; got = [] }

abbrev three_given : Link
three_given = record {
  wire = 4 ∷ [];
  buf = [];
  codec = in_minecraft 1024 761;
  got = mc_data (record { body = 1 ∷ 2 ∷ 3 ∷ [] }) ∷ [];
}

Reach-three_given : Reach bytes bincode (raw_start 1024 761 (1 ∷ 2 ∷ []) (3 ∷ 4 ∷ [])) three_given
unfolding decode parse_packet data_new
Reach-three_given =
    next {t = three_came} (next here (arrive (3 ∷ []) refl refl refl refl))
      (deliver (mc_data (record { body = 1 ∷ 2 ∷ 3 ∷ [] })) refl refl refl)

raw_exact_example :
    Carried bytes bincode 1024 761 ((1 ∷ 2 ∷ []) ++ (3 ∷ 4 ∷ [])) three_given
    × (decode bytes bincode three_given.codec three_given.buf
        ≡ (raw_packet three_given.buf, three_given.codec, []))
raw_exact_example =
    raw_exact bytes bincode 1024 761 (1 ∷ 2 ∷ []) (3 ∷ 4 ∷ []) three_given Reach-three_given
