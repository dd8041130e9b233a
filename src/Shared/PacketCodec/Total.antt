-- ===== src/Shared/PacketCodec/Total.antt =====
-- `decode` of shared/src/packet_codec.rs on any buffer, in any state: it returns, it takes bytes
-- only for a packet, and only from the front.
use craftip_crosscompiletest.Prelude.{
  ℕ, ◌+◌, ◌*◌, ◌≤◌, ◌<◌, ◌≡◌, ◌≢◌, inl, inr, refl, sym, ap, ◌∙◌, List, [], ◌∷◌, ◌++◌, some, none,
  Outcome, ok, err, panic, length, take, drop, ltb, arith, append-nil, take-append-drop,
  length-take_le, Bool-cases, ltb→lt, ltb_false→le, Option-cases, subst,
}
use craftip_crosscompiletest.Shared.Datatypes.{
  PacketError, too_small, not_valid, not_matching, Protocol, unknown, mc, proxy,
}
use craftip_crosscompiletest.Shared.Bytes.{BytesCrate}
use craftip_crosscompiletest.Shared.Minecraft.{MinecraftHelloPacket, hello_new, data_new}
use craftip_crosscompiletest.Shared.Minecraft.Split.{Splits, hello_new-Splits}
use craftip_crosscompiletest.Shared.SocketPacket.{
  SocketPacket, Bincode, or_proxy, decode_proxy, parse_first_package, parse_packet,
}
use craftip_crosscompiletest.Shared.SocketPacket.Frames.{
  decode_full, decode_bad, decode_incomplete, decode_no_length,
}
use craftip_crosscompiletest.Shared.PacketCodec.{
  PacketCodec, Decoded, first_decoded, next_decoded, decode_by, decode,
}

-- How a parser of packets leaves the buffer.
abbrev pub Takes : List ℕ → Outcome PacketError SocketPacket × List ℕ → Type 0
Takes buf (ok p, rest) = (front : List ℕ) × (front ++ rest ≡ buf) × (0 < length front)
Takes buf (err e, rest) = rest ≡ buf
Takes buf (panic, rest) = ⊥

module _ (bytes : BytesCrate) (bincode : Bincode) where
  open bincode use {deserialize}

  -- A frame that is there in full, split behind its length field.
  whole-Takes :
      (a b : ℕ) (body rest : List ℕ)
      → a * 256 + b ≡ length body
      → Takes (a ∷ b ∷ (body ++ rest)) (decode_proxy bytes bincode (a ∷ b ∷ (body ++ rest)))
  whole-Takes a b body rest n = elim (Option-cases (deserialize body)) [
    | inl e ↦ rw (decode_bad bytes bincode a b body rest n e) refl
    | inr (p, e) ↦
        rw (decode_full bytes bincode a b body rest p n e) (a ∷ b ∷ body, refl, omega arith)
  ]

  pub decode_proxy-Takes : (buf : List ℕ) → Takes buf (decode_proxy bytes bincode buf)
  decode_proxy-Takes [] = rw (decode_no_length bytes bincode [] (omega arith)) refl
  decode_proxy-Takes (a ∷ []) = rw (decode_no_length bytes bincode (a ∷ []) (omega arith)) refl
  decode_proxy-Takes (a ∷ b ∷ tail) = elim (Bool-cases (ltb (length tail) (a * 256 + b))) [
    | inl short ↦ rw (decode_incomplete bytes bincode a b tail (ltb→lt _ _ short)) refl
    | inr enough ↦
        let n : ℕ = a * 256 + b in
        let fits : n ≤ length tail = ltb_false→le _ _ enough in
        subst (λ t. Takes (a ∷ b ∷ t) (decode_proxy bytes bincode (a ∷ b ∷ t)))
          (take-append-drop n tail)
          (whole-Takes a b (take n tail) (drop n tail) (sym (length-take_le n tail fits)))
  ]

  or_proxy-Takes :
      (buf : List ℕ) (r : Outcome PacketError MinecraftHelloPacket × List ℕ)
      → Splits buf r
      → Takes buf (or_proxy bytes bincode r)
  or_proxy-Takes buf (ok p, rest) (whole, len, pos) = (p.body, whole, omega (arith, len, pos))
  or_proxy-Takes buf (err not_valid, rest) h = rw h (decode_proxy-Takes buf)
  or_proxy-Takes buf (err not_matching, rest) h = rw h (decode_proxy-Takes buf)
  or_proxy-Takes buf (err _, rest) h = h
  or_proxy-Takes buf (panic, rest) h = elim h [ ]

  pub parse_first_package-Takes : (buf : List ℕ) → Takes buf (parse_first_package bytes bincode buf)
  unfolding parse_first_package
  parse_first_package-Takes buf =
      or_proxy-Takes buf (hello_new bytes buf) (hello_new-Splits bytes buf)

  -- The parser of the later packets; the state before the first packet is its panic.
  parse_packet-Takes :
      (protocol : Protocol) (buf : List ℕ)
      → protocol ≢ unknown
      → 0 < length buf
      → Takes buf (parse_packet bytes bincode protocol buf)
  unfolding parse_packet data_new
  parse_packet-Takes unknown buf h some_bytes = absurd (h refl)
  parse_packet-Takes (mc v) buf h some_bytes =
      rw (ap (bytes.split_to (length buf)) (sym (append-nil buf)) ∙ bytes.split_to_lem buf [])
        (buf, append-nil buf, some_bytes)
  parse_packet-Takes (proxy v) buf h some_bytes = decode_proxy-Takes buf

-- What a call of `decode` may do to the buffer.
abbrev pub Decodes : List ℕ → Decoded → Type 0
Decodes buf (ok none, codec, rest) = rest ≡ buf
Decodes buf (ok (some p), codec, rest) =
    (front : List ℕ) × (front ++ rest ≡ buf) × (0 < length front)
Decodes buf (err e, codec, rest) = rest ≡ buf
Decodes buf (panic, codec, rest) = ⊥

first_decoded-Decodes :
    (codec : PacketCodec) (buf : List ℕ) (r : Outcome PacketError SocketPacket × List ℕ)
    → Takes buf r
    → Decodes buf (first_decoded codec r)
first_decoded-Decodes codec buf (ok p, rest) h = h
first_decoded-Decodes codec buf (err too_small, rest) h = h
first_decoded-Decodes codec buf (err _, rest) h = h
first_decoded-Decodes codec buf (panic, rest) h = elim h [ ]

next_decoded-Decodes :
    (codec : PacketCodec) (buf : List ℕ) (r : Outcome PacketError SocketPacket × List ℕ)
    → Takes buf r
    → Decodes buf (next_decoded codec r)
next_decoded-Decodes codec buf (ok p, rest) h = h
next_decoded-Decodes codec buf (err too_small, rest) h = h
next_decoded-Decodes codec buf (err _, rest) h = h
next_decoded-Decodes codec buf (panic, rest) h = elim h [ ]

-- In every state and on every buffer `decode` returns. With a packet it takes some bytes, all of
-- them from the front of the buffer; without one, and with an error, the buffer is as it was.
pub decode_total :
    (bytes : BytesCrate) (bincode : Bincode) (codec : PacketCodec) (buf : List ℕ)
    → Decodes buf (decode bytes bincode codec buf)
unfolding decode
decode_total bytes bincode codec [] = refl
decode_total bytes bincode codec (b ∷ bs) = by_protocol codec.protocol
  where
    by_protocol : (p : Protocol) → Decodes (b ∷ bs) (decode_by bytes bincode p codec (b ∷ bs))
    by_protocol unknown =
        first_decoded-Decodes codec (b ∷ bs) _ (parse_first_package-Takes bytes bincode (b ∷ bs))
    by_protocol (mc v) =
        next_decoded-Decodes codec (b ∷ bs) _
          (parse_packet-Takes bytes bincode (mc v) (b ∷ bs) (λ h. cc) (omega arith))
    by_protocol (proxy v) =
        next_decoded-Decodes codec (b ∷ bs) _
          (parse_packet-Takes bytes bincode (proxy v) (b ∷ bs) (λ h. cc) (omega arith))
