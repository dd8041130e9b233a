-- ===== src/Shared/SocketPacket.antt =====
-- shared/src/socket_packet.rs: the packets on a socket, their frames, and the choice of parser.
pub mod Frames
use craftip_crosscompiletest.Prelude.{
  ℕ, ◌+◌, ◌/◌, ◌%◌, ◌^◌, ◌≡◌, List, [], ◌∷◌, ◌++◌, Option, none, some, Outcome, ok, err, panic,
  length,
}
use craftip_crosscompiletest.Shared.Datatypes.{
  PacketError, not_valid, not_matching, encoding_error, Protocol, unknown, mc, proxy,
}
use craftip_crosscompiletest.Shared.Bytes.{Cursor, Read, BytesCrate}
use craftip_crosscompiletest.Shared.Utf8.{RustString}
use craftip_crosscompiletest.Shared.Cursor.{
  ◌>>=◌, ◌>>◌, pure, lift, slice, position, throw_error_if_smaller,
}
use craftip_crosscompiletest.Shared.Minecraft.{
  MinecraftDataPacket, MinecraftHelloPacket, Parse, hello_new, data_new,
}
use craftip_crosscompiletest.Shared.Proxy.{
  ProxyHelloPacket, ProxyConnectedResponse, ProxyDataPacket,
}

pub data SocketPacket : Type 0 where
  mc_hello : MinecraftHelloPacket → SocketPacket
  mc_data : MinecraftDataPacket → SocketPacket
  proxy_hello : ProxyHelloPacket → SocketPacket
  proxy_auth_request : List ℕ → SocketPacket
  proxy_auth_response : List ℕ → SocketPacket
  proxy_hello_response : ProxyConnectedResponse → SocketPacket
  proxy_join : ℕ → SocketPacket
  proxy_disconnect : ℕ → SocketPacket
  proxy_disconnect_ack : ℕ → SocketPacket
  proxy_error : RustString → SocketPacket
  proxy_data : ProxyDataPacket → SocketPacket
  proxy_ping : ℕ → SocketPacket
  proxy_pong : ℕ → SocketPacket
  unknown_packet : SocketPacket

-- Why a connection ended; nothing uses it.
pub data DisconnectReason : Type 0 where
  disconnected : DisconnectReason
  socket_closed : DisconnectReason

-- `SocketPacket::from`
abbrev pub from_mc_hello : MinecraftHelloPacket → SocketPacket
from_mc_hello packet = mc_hello packet

abbrev pub from_mc_data : MinecraftDataPacket → SocketPacket
from_mc_data packet = mc_data packet

abbrev pub from_proxy_hello : ProxyHelloPacket → SocketPacket
from_proxy_hello packet = proxy_hello packet

abbrev pub from_connected_response : ProxyConnectedResponse → SocketPacket
from_connected_response packet = proxy_hello_response packet

abbrev pub from_proxy_data : ProxyDataPacket → SocketPacket
from_proxy_data packet = proxy_data packet

-- The `bincode` crate, which is not part of the repository: a value that it writes, it reads back.
pub record Bincode : Type 0 where
  pub serialize : SocketPacket → Option (List ℕ)
  pub deserialize : List ℕ → Option SocketPacket
  pub deserialize-serialize :
      (p : SocketPacket) (bs : List ℕ) → serialize p ≡ some bs → deserialize bs ≡ some p

-- `n.to_be_bytes()` of a u16.
abbrev pub be_bytes : ℕ → List ℕ
be_bytes n = n / 256 ∷ n % 256 ∷ []

-- `packet.len() as u16`
abbrev pub as_u16 : ℕ → ℕ
as_u16 n = n % 2 ^ 16

abbrev pub frame_of : Option (List ℕ) → Outcome PacketError (List ℕ)
frame_of none = err encoding_error
frame_of (some packet) = ok (be_bytes (as_u16 (length packet)) ++ packet)

-- `.map_err(|_| PacketError::NotValid)?`
abbrev pub or_not_valid : Option SocketPacket → Read SocketPacket
or_not_valid none c = (err not_valid, c)
or_not_valid (some p) c = (ok p, c)

abbrev pub as_packet :
    {A : Type 0}
    → (A → SocketPacket)
    → Outcome PacketError A × List ℕ
    → Outcome PacketError SocketPacket × List ℕ
as_packet f (ok a, buf) = (ok (f a), buf)
as_packet f (err e, buf) = (err e, buf)
as_packet f (panic, buf) = (panic, buf)

module _ (bincode : Bincode) where
  open bincode use {serialize}

  -- `SocketPacket::encode`: a writer on an empty cursor cannot fail.
  unfoldable pub encode : SocketPacket → Outcome PacketError (List ℕ)
  encode packet = frame_of (serialize packet)

module _ (bytes : BytesCrate) (bincode : Bincode) where
  open bytes use {get_u16, advance}
  open bincode use {deserialize}

  -- The packet, and by how much the buffer is advanced.
  unfoldable pub read_frame : Read (SocketPacket × ℕ)
  read_frame = do
    throw_error_if_smaller bytes 2
    frame_length ← get_u16
    throw_error_if_smaller bytes frame_length
    p ← position
    blob ← lift (λ c. slice c.buf p (p + frame_length))
    result ← or_not_valid (deserialize blob)
    pure (result, p + frame_length)

  abbrev pub advance_to : SocketPacket → Outcome PacketError (List ℕ) → Parse SocketPacket
  advance_to p (ok rest) buf = (ok p, rest)
  advance_to p (err e) buf = (err e, buf)
  advance_to p panic buf = (panic, buf)

  abbrev pub finish_frame : Outcome PacketError (SocketPacket × ℕ) × Cursor → Parse SocketPacket
  finish_frame (ok (p, n), c) buf = advance_to p (advance n buf) buf
  finish_frame (err e, c) buf = (err e, buf)
  finish_frame (panic, c) buf = (panic, buf)

  unfoldable pub decode_proxy : Parse SocketPacket
  decode_proxy buf = finish_frame (read_frame (record { buf = buf; position = 0 })) buf

  abbrev pub or_proxy :
      Outcome PacketError MinecraftHelloPacket × List ℕ → Outcome PacketError SocketPacket × List ℕ
  or_proxy (err not_valid, buf) = decode_proxy buf
  or_proxy (err not_matching, buf) = decode_proxy buf
  or_proxy (err e, buf) = (err e, buf)
  or_proxy (ok p, buf) = (ok (from_mc_hello p), buf)
  or_proxy (panic, buf) = (panic, buf)

  unfoldable pub parse_first_package : Parse SocketPacket
  parse_first_package buf = or_proxy (hello_new bytes buf)

  -- `unimplemented!()` is the panic.
  unfoldable pub parse_packet : Protocol → Parse SocketPacket
  parse_packet (mc version) buf = as_packet from_mc_data (data_new bytes buf)
  parse_packet (proxy version) buf = decode_proxy buf
  parse_packet unknown buf = (panic, buf)
