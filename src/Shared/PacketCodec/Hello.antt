-- ===== src/Shared/PacketCodec/Hello.antt =====
-- What `decode` of shared/src/packet_codec.rs makes of the handshake of a current Minecraft client.
use craftip_crosscompiletest.Prelude.{
  ℕ, ◌+◌, ◌/◌, ◌%◌, ◌^◌, ◌≤◌, ◌<◌, ◌≡◌, refl, ◌∙◌, List, ◌∷◌, ◌++◌, some, none, ok, err, length,
  arith, true, length-append,
}
use craftip_crosscompiletest.Shared.Bytes.{BytesCrate}
use craftip_crosscompiletest.Shared.Utf8.{RustString, is_utf8}
use craftip_crosscompiletest.Shared.Datatypes.{IsI32, mc, too_small}
use craftip_crosscompiletest.Shared.Datatypes.Varint.{encode_varint_small, encode_varint_two}
use craftip_crosscompiletest.Shared.Minecraft.Handshake.{
  handshake_fields, handshake_head, handshake_length, hello_new-handshake, hello_new-long_handshake,
}
use craftip_crosscompiletest.Shared.SocketPacket.{
  Bincode, mc_hello, decode_proxy, parse_first_package,
}
use craftip_crosscompiletest.Shared.SocketPacket.Frames.{decode_incomplete}
use craftip_crosscompiletest.Shared.PacketCodec.{codec_new, decode, first_decoded}

module _ (bytes : BytesCrate) (bincode : Bincode) (max_length version : ℕ) (hostname : RustString)
    (port next : ℕ) (rest : List ℕ) where
  -- A buffer that is not empty goes to the parser of the first packet.
  decode_buf :
      (b : ℕ) (tail : List ℕ)
      → (l : List ℕ) → l ≡ b ∷ tail
      → decode bytes bincode (codec_new max_length) l
        ≡ first_decoded (codec_new max_length) (parse_first_package bytes bincode l)
  unfolding decode codec_new
  decode_buf b tail l e = rw e refl

  -- The first handshake of a current client, with a version of 32 bits, a host name in UTF-8 and a port
  -- of 16 bits, makes the codec a Minecraft codec of its version, if it is at most 127 bytes long:
  -- the hello has its version, host name and port, and carries its bytes but for the last, the next
  -- state, which stays in the buffer with what follows.
  pub decode-handshake :
      IsI32 version
      → is_utf8 hostname ≡ true
      → port < 2 ^ 16
      → handshake_length version hostname port < 128
      → decode bytes bincode
          (codec_new max_length)
          (handshake_head version hostname port ++ next ∷ rest)
        ≡ (
          ok (
              some (
                mc_hello (record {
                  packet_length = handshake_length version hostname port;
                  id = 0;
                  version = version;
                  hostname = hostname;
                  port = port;
                  body = handshake_head version hostname port;
                }))),
          record { max_length = max_length; protocol = mc version },
          next ∷ rest,
        )
  unfolding parse_first_package codec_new
  decode-handshake v u p short =
      decode_buf (handshake_length version hostname port)
        (handshake_fields version hostname port ++ next ∷ rest)
        (handshake_head version hostname port ++ next ∷ rest)
        (rw (encode_varint_small (handshake_length version hostname port) short) refl)
      ∙ rw (hello_new-handshake bytes version hostname port next rest v u p short) refl

  -- Such a handshake of 128 to 253 bytes, as a host name of some 120 bytes makes it, is not answered,
  -- as long as it and what follows stay below 32769 bytes: the codec takes its first two bytes for
  -- the length of a frame, and waits for the rest of that frame.
  pub long_handshake_waits :
      IsI32 version
      → is_utf8 hostname ≡ true
      → port < 2 ^ 16
      → 128 ≤ handshake_length version hostname port
      → handshake_length version hostname port < 254
      → handshake_length version hostname port + length rest < 32769
      → decode bytes bincode
          (codec_new max_length)
          (handshake_head version hostname port ++ next ∷ rest)
        ≡ (ok none, codec_new max_length, handshake_head version hostname port ++ next ∷ rest)
  unfolding parse_first_package codec_new
  long_handshake_waits v u p long short few =
      decode_buf (n % 128 + 128) (n / 128 ∷ tail)
        (handshake_head version hostname port ++ next ∷ rest) begins
      ∙ rw (hello_new-long_handshake bytes version hostname port next rest v u p long short, waits)
          refl
    where
      n : ℕ
      n = handshake_length version hostname port

      tail : List ℕ
      tail = handshake_fields version hostname port ++ next ∷ rest

      begins :
          handshake_head version hostname port ++ next ∷ rest ≡ (n % 128 + 128) ∷ n / 128 ∷ tail
      begins = rw (encode_varint_two n long (omega (arith, short))) refl

      waits :
          decode_proxy bytes bincode (handshake_head version hostname port ++ next ∷ rest)
          ≡ (err too_small, handshake_head version hostname port ++ next ∷ rest)
      waits = rw begins (
          decode_incomplete bytes bincode (n % 128 + 128) (n / 128) tail (
            omega (
              arith,
              few,
              long,
              short,
              length-append (handshake_fields version hostname port) (next ∷ rest),
            )))
