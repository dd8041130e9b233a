-- ===== src/Shared/SocketPacket/Frames.antt =====
-- `encode` and `decode_proxy` of shared/src/socket_packet.rs: a frame is read back, whatever follows
-- it, and every proper prefix of a frame is left in the buffer to wait for the rest.
use craftip_crosscompiletest.Prelude.{
  ℕ, suc, ◌+◌, ◌*◌, ◌/◌, ◌%◌, ◌^◌, ◌<◌, ◌≡◌, refl, ap, List, [], ◌∷◌, ◌++◌, Option, some, none, ok,
  err, length, arith, length-append,
}
use craftip_crosscompiletest.Shared.Datatypes.{too_small, not_valid}
use craftip_crosscompiletest.Shared.Bytes.{BytesCrate, at}
use craftip_crosscompiletest.Shared.Cursor.Exact.{throw_ok, throw_fail, slice-append}
use craftip_crosscompiletest.Shared.SocketPacket.{
  SocketPacket, Bincode, as_u16, frame_of, encode, read_frame, decode_proxy,
}

-- A frame whose length field did not wrap.
abbrev pub Fits : List ℕ → Type 0
Fits frame = length frame < 2 ^ 16 + 2

module _ (bytes : BytesCrate) (bincode : Bincode) where
  open bytes use {get_u16_lem, advance_lem}
  open bincode use {serialize, deserialize, deserialize-serialize}

  read_frame_full :
      (a b : ℕ) (body rest : List ℕ) (p : SocketPacket)
      → a * 256 + b ≡ length body
      → deserialize body ≡ some p
      → read_frame bytes bincode (at [] (a ∷ b ∷ (body ++ rest)))
        ≡ (ok (p, 2 + length body), at (a ∷ b ∷ []) (body ++ rest))
  unfolding read_frame
  read_frame_full a b body rest p n d = rw (
    throw_ok bytes [] (a ∷ b ∷ (body ++ rest)) 2 (omega arith),
    get_u16_lem [] (body ++ rest) a b,
    n,
    throw_ok bytes (a ∷ b ∷ []) (body ++ rest) (length body)
        (omega (arith, length-append body rest)),
    slice-append (a ∷ b ∷ []) body rest,
    d,
  )

  read_frame_short :
      (a b : ℕ) (tail : List ℕ)
      → length tail < a * 256 + b
      → read_frame bytes bincode (at [] (a ∷ b ∷ tail)) ≡ (err too_small, at (a ∷ b ∷ []) tail)
  unfolding read_frame
  read_frame_short a b tail h = rw (
    throw_ok bytes [] (a ∷ b ∷ tail) 2 (omega arith),
    get_u16_lem [] tail a b,
    throw_fail bytes (a ∷ b ∷ []) tail (a * 256 + b) h,
  )

  read_frame_empty :
      (buf : List ℕ)
      → length buf < 2
      → read_frame bytes bincode (at [] buf) ≡ (err too_small, at [] buf)
  unfolding read_frame
  read_frame_empty buf h = rw (throw_fail bytes [] buf 2 h)

  -- What an encoded packet looks like.
  pub encode-shape :
      (p : SocketPacket) (frame : List ℕ)
      → encode bincode p ≡ ok frame
      → (body : List ℕ) × (serialize p ≡ some body)
        × (frame ≡ as_u16 (length body) / 256 ∷ as_u16 (length body) % 256 ∷ body)
  unfolding encode
  encode-shape p frame e = go (serialize p) refl e
    where
      go :
          (o : Option (List ℕ))
          → serialize p ≡ o
          → frame_of o ≡ ok frame
          → (body : List ℕ) × (serialize p ≡ some body)
            × (frame ≡ as_u16 (length body) / 256 ∷ as_u16 (length body) % 256 ∷ body)
      go none s f = cc
      go (some body) s f = (body, s, cc)

  pub decode_full :
      (a b : ℕ) (body rest : List ℕ) (p : SocketPacket)
      → a * 256 + b ≡ length body
      → deserialize body ≡ some p
      → decode_proxy bytes bincode (a ∷ b ∷ (body ++ rest)) ≡ (ok p, rest)
  unfolding decode_proxy
  decode_full a b body rest p n d =
      rw (read_frame_full a b body rest p n d, two (length body), advance_lem (a ∷ b ∷ body) rest)
    where
      two : (k : ℕ) → 2 + k ≡ suc (suc k)
      two k = omega arith

  -- A whole frame whose content is no packet.
  read_frame_bad :
      (a b : ℕ) (body rest : List ℕ)
      → a * 256 + b ≡ length body
      → deserialize body ≡ none
      → read_frame bytes bincode (at [] (a ∷ b ∷ (body ++ rest)))
        ≡ (err not_valid, at (a ∷ b ∷ []) (body ++ rest))
  unfolding read_frame
  read_frame_bad a b body rest n d = rw (
    throw_ok bytes [] (a ∷ b ∷ (body ++ rest)) 2 (omega arith),
    get_u16_lem [] (body ++ rest) a b,
    n,
    throw_ok bytes (a ∷ b ∷ []) (body ++ rest) (length body)
        (omega (arith, length-append body rest)),
    slice-append (a ∷ b ∷ []) body rest,
    d,
  )

  pub decode_bad :
      (a b : ℕ) (body rest : List ℕ)
      → a * 256 + b ≡ length body
      → deserialize body ≡ none
      → decode_proxy bytes bincode (a ∷ b ∷ (body ++ rest))
        ≡ (err not_valid, a ∷ b ∷ (body ++ rest))
  unfolding decode_proxy
  decode_bad a b body rest n d = rw (read_frame_bad a b body rest n d)

  pub decode_incomplete :
      (a b : ℕ) (tail : List ℕ)
      → length tail < a * 256 + b
      → decode_proxy bytes bincode (a ∷ b ∷ tail) ≡ (err too_small, a ∷ b ∷ tail)
  unfolding decode_proxy
  decode_incomplete a b tail h = rw (read_frame_short a b tail h)

  pub decode_no_length :
      (buf : List ℕ) → length buf < 2 → decode_proxy bytes bincode buf ≡ (err too_small, buf)
  unfolding decode_proxy
  decode_no_length buf h = rw (read_frame_empty buf h)

  -- A frame that `encode` wrote and whose length fits the two bytes of its length field is read back
  -- as its packet, and whatever stands behind it stays in the buffer.
  pub decode_proxy-encode :
      (p : SocketPacket) (frame rest : List ℕ)
      → encode bincode p ≡ ok frame
      → Fits frame
      → decode_proxy bytes bincode (frame ++ rest) ≡ (ok p, rest)
  decode_proxy-encode p frame rest e fits =
      let (body, s, shape) = encode-shape p frame e in
      rw shape (
        decode_full (as_u16 (length body) / 256) (as_u16 (length body) % 256) body rest p
          (omega (arith, fits, ap length shape)) (deserialize-serialize p body s))

  -- Fewer bytes than the length field says.
  decode_short :
      (front : List ℕ) (x : ℕ) (back body : List ℕ)
      → front ++ (x ∷ back) ≡ as_u16 (length body) / 256 ∷ as_u16 (length body) % 256 ∷ body
      → length body < 2 ^ 16
      → decode_proxy bytes bincode front ≡ (err too_small, front)
  decode_short [] x back body e fits = decode_no_length [] (omega arith)
  decode_short (a ∷ []) x back body e fits = decode_no_length (a ∷ []) (omega arith)
  decode_short (a ∷ b ∷ tail) x back body e fits =
      decode_incomplete a b tail (ground (arith, ap length e, length-append tail (x ∷ back)))

  -- A proper prefix of such a frame is left alone, with the error that asks for more bytes.
  pub decode_proxy_partial :
      (p : SocketPacket) (front : List ℕ) (x : ℕ) (back : List ℕ)
      → encode bincode p ≡ ok (front ++ (x ∷ back))
      → Fits (front ++ (x ∷ back))
      → decode_proxy bytes bincode front ≡ (err too_small, front)
  decode_proxy_partial p front x back e fits =
      let (body, s, shape) = encode-shape p (front ++ (x ∷ back)) e in
      decode_short front x back body shape (omega (arith, ap length shape, fits))
