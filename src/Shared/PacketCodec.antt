-- ===== src/Shared/PacketCodec.antt =====
-- shared/src/packet_codec.rs: `PacketCodec`, the decoder and encoder of a framed socket.
pub mod Long
pub mod Stream
pub mod Total
pub mod First
pub mod Hello
pub mod Legacy
pub mod Drain
pub mod Raw
use craftip_crosscompiletest.Prelude.{
  ℕ, List, [], ◌∷◌, ◌++◌, Option, none, some, bytes_of, Outcome, ok, err, panic,
}
use craftip_crosscompiletest.Shared.Datatypes.{PacketError, too_small, Protocol, unknown, mc, proxy}
use craftip_crosscompiletest.Shared.Bytes.{BytesCrate}
use craftip_crosscompiletest.Shared.SocketPacket.{
  SocketPacket, Bincode, mc_hello, mc_data, proxy_hello, unknown_packet, encode,
  parse_first_package, parse_packet,
}

-- `Io` stands for the `io::Error` that it wraps.
pub data PacketCodecError : Type 0 where
  max_line_length_exceeded : PacketCodecError
  packet_codec : PacketError → PacketCodecError
  io : PacketCodecError

-- `PacketCodecError::from`
abbrev pub from_packet_error : PacketError → PacketCodecError
from_packet_error e = packet_codec e

-- `max_length` is kept and never read.
pub record PacketCodec : Type 0 where
  pub max_length : ℕ
  pub protocol : Protocol

-- `PacketCodec::new`
unfoldable pub codec_new : ℕ → PacketCodec
codec_new max_length = record { max_length = max_length; protocol = unknown }

-- What `decode` returns, the codec, and the buffer.
abbrev pub Decoded : Type 0
Decoded = Outcome PacketCodecError (Option SocketPacket) × PacketCodec × List ℕ

-- `pkg.version as u32` keeps the pattern of the number.
abbrev pub protocol_after : Outcome PacketError SocketPacket → Protocol
protocol_after (ok (proxy_hello p)) = proxy p.version
protocol_after (ok (mc_hello p)) = mc p.version
protocol_after _ = unknown

-- `match result { Ok(packet) => Some, Err(TooSmall) => None, Err(e) => Err(e) }`
abbrev pub to_decoded :
    Outcome PacketError SocketPacket → Outcome PacketCodecError (Option SocketPacket)
to_decoded (ok p) = ok (some p)
to_decoded (err too_small) = ok none
to_decoded (err e) = err (from_packet_error e)
to_decoded panic = panic

abbrev pub first_decoded : PacketCodec → Outcome PacketError SocketPacket × List ℕ → Decoded
first_decoded codec (r, buf) = (to_decoded r, record codec { protocol = protocol_after r }, buf)

abbrev pub next_decoded : PacketCodec → Outcome PacketError SocketPacket × List ℕ → Decoded
next_decoded codec (r, buf) = (to_decoded r, codec, buf)

module _ (bytes : BytesCrate) (bincode : Bincode) where
  -- The `match` on the protocol.
  abbrev pub decode_by : Protocol → PacketCodec → List ℕ → Decoded
  decode_by unknown codec buf = first_decoded codec (parse_first_package bytes bincode buf)
  decode_by (mc v) codec buf = next_decoded codec (parse_packet bytes bincode (mc v) buf)
  decode_by (proxy v) codec buf = next_decoded codec (parse_packet bytes bincode (proxy v) buf)

  unfoldable pub decode : PacketCodec → List ℕ → Decoded
  decode codec [] = (ok none, codec, [])
  decode codec (b ∷ bs) = decode_by codec.protocol codec (b ∷ bs)

-- `"UnknownPacket".to_string().into_bytes()`
abbrev pub unknown_bytes : List ℕ
unknown_bytes = bytes_of "UnknownPacket"

-- `Encoder<Bytes>` and `Encoder<BytesMut>`: the bytes are appended.
unfoldable pub encode_bytes : List ℕ → List ℕ → List ℕ
encode_bytes packet buf = buf ++ packet

module _ (bincode : Bincode) where
  abbrev pub wire_bytes : SocketPacket → Outcome PacketError (List ℕ)
  wire_bytes (mc_hello p) = ok p.body
  wire_bytes (mc_data p) = ok p.body
  wire_bytes unknown_packet = ok unknown_bytes
  wire_bytes packet = encode bincode packet

  abbrev pub put_bytes : Outcome PacketError (List ℕ) → List ℕ → Outcome PacketCodecError (List ℕ)
  put_bytes (ok bs) buf = ok (buf ++ bs)
  put_bytes (err e) buf = err io
  put_bytes panic buf = panic

  -- `Encoder<SocketPacket>`: the buffer after it.
  unfoldable pub encode_packet : SocketPacket → List ℕ → Outcome PacketCodecError (List ℕ)
  encode_packet packet buf = put_bytes (wire_bytes packet) buf
