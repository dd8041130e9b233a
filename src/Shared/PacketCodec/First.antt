-- ===== src/Shared/PacketCodec/First.antt =====
-- `decode` of shared/src/packet_codec.rs in the state `Protocol::Unknown`, where the buffer is tried
-- as a Minecraft hello before it is tried as a frame.
use craftip_crosscompiletest.Prelude.{
  ◌/◌, append-nil, sym, ℕ, ◌+◌, ◌*◌, ◌%◌, ◌≤◌, ◌<◌, ◌≡◌, ap, ◌∙◌, List, [], ◌∷◌, ◌++◌, some, none,
  ok, err, length, arith, le→ltb_false, ne→==_false,
}
use craftip_crosscompiletest.Shared.Datatypes.{too_small, not_matching}
use craftip_crosscompiletest.Shared.Bytes.{BytesCrate}
use craftip_crosscompiletest.Shared.Cursor.{get_utf16_string}
use craftip_crosscompiletest.Shared.Cursor.Exact.{throw_ok, match_byte_eq, read_varint_small}
use craftip_crosscompiletest.Shared.Minecraft.Skips.{not_old_ping, not_old_connect}
use craftip_crosscompiletest.Shared.Minecraft.{
  read_old_connect, old_connect_pkg, read_new_pkg, new_pkg, hello_new,
}
use craftip_crosscompiletest.Shared.SocketPacket.{
  decode_proxy, frame_of, as_u16, SocketPacket, Bincode, encode, parse_first_package,
}
use craftip_crosscompiletest.Shared.SocketPacket.Frames.{decode_proxy-encode, encode-shape}
use craftip_crosscompiletest.Shared.PacketCodec.{codec_new, protocol_after, decode}

module _ (bytes : BytesCrate) where
  open bytes use {remaining_lem, get_u8_lem, get_u16_lem}

  -- An old connect packet whose user name is longer than what is there.
  waits_for_name :
      (version hi lo : ℕ) (tail : List ℕ)
      → length tail ≤ (hi * 256 + lo) * 2
      → old_connect_pkg bytes (2 ∷ version ∷ hi ∷ lo ∷ tail)
        ≡ (err too_small, 2 ∷ version ∷ hi ∷ lo ∷ tail)
  unfolding old_connect_pkg read_old_connect get_utf16_string
  waits_for_name version hi lo tail h = rw (
    match_byte_eq bytes 2 (version ∷ hi ∷ lo ∷ tail),
    throw_ok bytes (2 ∷ []) (version ∷ hi ∷ lo ∷ tail) 1 (omega arith),
    get_u8_lem (2 ∷ []) (hi ∷ lo ∷ tail) version,
    throw_ok bytes (2 ∷ version ∷ []) (hi ∷ lo ∷ tail) 2 (omega arith),
    get_u16_lem (2 ∷ version ∷ []) tail hi lo,
    remaining_lem (2 ∷ version ∷ hi ∷ lo ∷ []) tail,
    le→ltb_false ((hi * 256 + lo) * 2) (length tail) h,
  )

  -- A first byte zero reads as length 0, and the next as the id.
  not_new_pkg :
      (n : ℕ) (tail : List ℕ)
      → 0 < n
      → n < 128
      → new_pkg bytes (0 ∷ n ∷ tail) ≡ (err not_matching, 0 ∷ n ∷ tail)
  unfolding new_pkg read_new_pkg
  not_new_pkg n tail pos small = rw (
    read_varint_small [] (n ∷ tail) 0 (omega arith),
    read_varint_small (0 ∷ []) tail n small,
    ne→==_false n 0 (omega arith),
  )

  not_hello :
      (n : ℕ) (tail : List ℕ)
      → 0 < n
      → n < 128
      → hello_new bytes (0 ∷ n ∷ tail) ≡ (err not_matching, 0 ∷ n ∷ tail)
  unfolding hello_new
  not_hello n tail pos small = rw (
    not_old_ping bytes 0 (n ∷ tail) (omega arith),
    not_old_connect bytes 0 (n ∷ tail) (omega arith),
    not_new_pkg n tail pos small,
  )

module _ (bytes : BytesCrate) (bincode : Bincode) (max_length : ℕ) where
  -- In the state before the first packet, a frame that `encode` wrote is read back if its body has 1
  -- to 127 bytes, and what follows it stays in the buffer. The state is then that of the packet: a
  -- `ProxyHello` makes it `Proxy`, any other packet of the proxy leaves it `Unknown`.
  pub decode_first-encode :
      (p : SocketPacket) (frame rest : List ℕ)
      → encode bincode p ≡ ok frame
      → 2 < length frame
      → length frame < 130
      → decode bytes bincode (codec_new max_length) (frame ++ rest)
        ≡ (ok (some p), record { max_length = max_length; protocol = protocol_after (ok p) }, rest)
  unfolding decode parse_first_package codec_new
  decode_first-encode p frame rest e long short =
      let (body, s, shape) = encode-shape bytes bincode p frame e in
      go frame (as_u16 (length body) % 256) body e
        (shape ∙ ap (λ b. b ∷ as_u16 (length body) % 256 ∷ body) (omega (arith, ap length shape)))
        (omega (arith, ap length shape)) (omega (arith, ap length shape)) short
    where
      go :
          (frame : List ℕ) (n : ℕ) (body : List ℕ)
          → encode bincode p ≡ ok frame
          → frame ≡ 0 ∷ n ∷ body
          → 0 < n
          → n < 128
          → length frame < 130
          → decode bytes bincode (codec_new max_length) (frame ++ rest) ≡ (
            ok (some p),
            record { max_length = max_length; protocol = protocol_after (ok p) },
            rest,
          )
      go frame n body e shape pos small short =
          let whole = decode_proxy-encode bytes bincode p frame rest e (omega arith) in
          rw shape (rw (not_hello bytes n (body ++ rest) pos small) (rw (rw shape at whole)))

  -- A buffer that begins like an old connect packet.
  first_waits_for_name :
      (version hi lo : ℕ) (tail : List ℕ)
      → length tail ≤ (hi * 256 + lo) * 2
      → decode bytes bincode (codec_new max_length) (2 ∷ version ∷ hi ∷ lo ∷ tail)
        ≡ (ok none, codec_new max_length, 2 ∷ version ∷ hi ∷ lo ∷ tail)
  unfolding decode parse_first_package hello_new codec_new
  first_waits_for_name version hi lo tail h = rw (
    not_old_ping bytes 2 (version ∷ hi ∷ lo ∷ tail) (omega arith),
    waits_for_name bytes version hi lo tail h,
  )

  frame_from_512 :
      (p : SocketPacket) (body : List ℕ)
      → bincode.serialize p ≡ some body
      → 512 ≤ length body
      → length body < 768
      → encode bincode p ≡ ok (2 ∷ length body % 256 ∷ body)
  unfolding encode
  frame_from_512 p body e large small =
      ap frame_of e
      ∙ ap ok (
          ap (λ a. a ∷ as_u16 (length body) % 256 ∷ body) (two (length body) large small)
          ∙ ap (λ b. 2 ∷ b ∷ body) (low (length body)))
    where
      two : (n : ℕ) → 512 ≤ n → n < 768 → as_u16 n / 256 ≡ 2
      two n large small = omega arith

      low : (n : ℕ) → as_u16 n % 256 ≡ n % 256
      low n = omega arith

  -- A packet of the proxy that is written with 512 to 767 bytes, of which the first two, read as a
  -- number of UTF-16 units of two bytes, tell at least as many bytes as the rest has: when the frame is whole,
  -- `decode_proxy` reads it, but in the state before the first packet `decode` returns `None` and
  -- leaves the frame in the buffer, since it looks like an old connect packet.
  pub whole_frame_held_back :
      (p : SocketPacket) (hi lo : ℕ) (tail : List ℕ)
      → bincode.serialize p ≡ some (hi ∷ lo ∷ tail)
      → 510 ≤ length tail
      → length tail < 766
      → length tail ≤ (hi * 256 + lo) * 2
      → (frame : List ℕ) × (encode bincode p ≡ ok frame)
        × (decode_proxy bytes bincode frame ≡ (ok p, []))
        × (decode bytes bincode (codec_new max_length) frame
            ≡ (ok none, codec_new max_length, frame))
  whole_frame_held_back p hi lo tail e large small units =
      let n = length (hi ∷ lo ∷ tail) % 256 in
      let written = frame_from_512 p (hi ∷ lo ∷ tail) e (omega arith) (omega arith) in
      (
        2 ∷ n ∷ hi ∷ lo ∷ tail,
        written,
        ap (decode_proxy bytes bincode) (sym (append-nil (2 ∷ n ∷ hi ∷ lo ∷ tail)))
            ∙ decode_proxy-encode bytes bincode p (2 ∷ n ∷ hi ∷ lo ∷ tail) [] written (omega arith),
        first_waits_for_name n hi lo tail units,
      )
