-- ===== src/Shared/PacketCodec/Stream.antt =====
-- A socket after the handshake (shared/src/packet_codec.rs in the state `Protocol::Proxy`): frames
-- arrive cut anywhere, and `decode` is called at any time.
use craftip_crosscompiletest.Prelude.{
  ◌^◌, ◌<◌, All, ℕ, ◌≡◌, inl, inr, refl, sym, ap, subst, subst₂, ◌∙◌, List, [], ◌∷◌, ◌++◌, Option,
  some, none, Outcome, ok, err, length, arith, append-nil, append_assoc, append_split,
  length-append,
}
use craftip_crosscompiletest.Shared.Datatypes.{PacketError, too_small, proxy}
use craftip_crosscompiletest.Shared.Bytes.{BytesCrate}
use craftip_crosscompiletest.Shared.SocketPacket.{
  SocketPacket, Bincode, encode, decode_proxy, parse_packet,
}
use craftip_crosscompiletest.Shared.SocketPacket.Frames.{
  Fits, encode-shape, decode_proxy-encode, decode_proxy_partial,
}
use craftip_crosscompiletest.Shared.PacketCodec.{
  PacketCodec, PacketCodecError, Decoded, to_decoded, decode,
}

-- `bs` is the frames of `ps`, one after the other, as `encode` writes them.
abbrev pub Frames : Bincode → List SocketPacket → List ℕ → Type 0
Frames bincode [] bs = bs ≡ []
Frames bincode (p ∷ ps) bs =
    (frame : List ℕ) × (tail : List ℕ) × (encode bincode p ≡ ok frame)
    × (bs ≡ frame ++ tail)
    × Frames bincode ps tail

-- The packet is written with at most 65535 bytes, so that its length fits the field of a frame.
abbrev pub IsShort : Bincode → SocketPacket → Type 0
IsShort bincode p = (body : List ℕ) → bincode.serialize p ≡ some body → length body < 2 ^ 16

-- The same, where each frame is known to fit.
abbrev Fitting : Bincode → List SocketPacket → List ℕ → Type 0
Fitting bincode [] bs = bs ≡ []
Fitting bincode (p ∷ ps) bs =
    (frame : List ℕ) × (tail : List ℕ) × (encode bincode p ≡ ok frame)
    × Fits frame
    × (bs ≡ frame ++ tail)
    × Fitting bincode ps tail

-- The receiving end of a connection, and the bytes that have not arrived yet.
pub record Link : Type 0 where
  pub wire : List ℕ
  pub buf : List ℕ
  pub codec : PacketCodec
  pub got : List SocketPacket

-- More bytes arrive, or `decode` is called and returns `Ok(Some(packet))` or `Ok(None)`.
pub data Step (bytes : BytesCrate) (bincode : Bincode) (s t : Link) : Type 0 where
  arrive :
      (chunk : List ℕ)
      → s.wire ≡ chunk ++ t.wire
      → t.buf ≡ s.buf ++ chunk
      → t.codec ≡ s.codec
      → t.got ≡ s.got
      → Step bytes bincode s t
  deliver :
      (p : SocketPacket)
      → decode bytes bincode s.codec s.buf ≡ (ok (some p), t.codec, t.buf)
      → t.wire ≡ s.wire
      → t.got ≡ s.got ++ (p ∷ [])
      → Step bytes bincode s t
  wait :
      decode bytes bincode s.codec s.buf ≡ (ok none, t.codec, t.buf)
      → t.wire ≡ s.wire
      → t.got ≡ s.got
      → Step bytes bincode s t

pub data Reach (bytes : BytesCrate) (bincode : Bincode) (s : Link) : Link → Type 0 where
  here : Reach bytes bincode s s
  next : {t u : Link} → Reach bytes bincode s t → Step bytes bincode t u → Reach bytes bincode s u

-- A link on which the frames of `ps` are still to come.
abbrev pub start : ℕ → ℕ → List ℕ → Link
start max_length version bs = record {
  wire = bs;
  buf = [];
  codec = record { max_length = max_length; protocol = proxy version };
  got = [];
}

module _ (bytes : BytesCrate) (bincode : Bincode) (max_length version : ℕ) where
  abbrev in_proxy : PacketCodec
  in_proxy = record { max_length = max_length; protocol = proxy version }

  -- What `decode` does with the bytes that have arrived so far.
  data Answer (qs : List SocketPacket) (buf wire : List ℕ) : Type 0 where
    whole :
        (q : SocketPacket) (qs' : List SocketPacket) (buf' : List ℕ)
        → qs ≡ q ∷ qs'
        → decode bytes bincode in_proxy buf ≡ (ok (some q), in_proxy, buf')
        → Fitting bincode qs' (buf' ++ wire)
        → Answer qs buf wire
    part :
        decode bytes bincode in_proxy buf ≡ (ok none, in_proxy, buf)
        → (wire ≡ [] → qs ≡ [])
        → Answer qs buf wire

  decode_by_frame :
      (b : ℕ) (bs rest : List ℕ) (r : Outcome PacketError SocketPacket)
      → decode_proxy bytes bincode (b ∷ bs) ≡ (r, rest)
      → decode bytes bincode in_proxy (b ∷ bs) ≡ (to_decoded r, in_proxy, rest)
  unfolding decode parse_packet
  decode_by_frame b bs rest r e = rw e

  -- Where all bytes have arrived and none is in the buffer, no packet is left.
  no_bytes :
      (qs : List SocketPacket) (wire : List ℕ) → Fitting bincode qs wire → wire ≡ [] → qs ≡ []
  no_bytes [] wire f w = refl
  no_bytes (q ∷ qs) wire (frame, tail, e, fits, cut, f) w =
      let (body, _, shape) = encode-shape bytes bincode q frame e in
      absurd (omega (arith, ap length shape, ap length cut, ap length w, length-append frame tail))

  answer :
      (qs : List SocketPacket) (buf wire : List ℕ)
      → Fitting bincode qs (buf ++ wire)
      → Answer qs buf wire
  answer qs [] wire f = part (unfold decode in refl) (no_bytes qs wire f)
  answer [] (b ∷ bs) wire f = cc
  answer (q ∷ qs) (b ∷ bs) wire (frame, tail, e, fits, cut, f) =
      elim (append_split (b ∷ bs) wire frame tail cut) [
        | inl (zs, p, r) ↦
            whole q qs zs refl
              (decode_by_frame b bs zs (ok q)
                (rw p (decode_proxy-encode bytes bincode q frame zs e fits)))
              (rw r f)
        | inr (z, zs, p) ↦
            part
              (decode_by_frame b bs (b ∷ bs) (err too_small)
                (decode_proxy_partial bytes bincode q (b ∷ bs) z zs (rw p at e) (rw p at fits)))
              (λ w. absurd (
                omega (
                  arith,
                  ap length cut,
                  ap length p,
                  ap length w,
                  length-append bs wire,
                  length-append frame tail,
                  length-append bs (z ∷ zs),
                )))
      ]

  -- What holds of every link that is reached from the start: the packets that were delivered, and
  -- the frames of the others in the buffer and on the wire.
  pub record Inv (ps : List SocketPacket) (s : Link) : Type 0 where
    pub rest : List SocketPacket
    pub in_order : ps ≡ s.got ++ rest
    pub pending : Fitting bincode rest (s.buf ++ s.wire)
    pub kept : s.codec ≡ in_proxy

  start-Inv :
      (ps : List SocketPacket) (bs : List ℕ)
      → Fitting bincode ps bs
      → Inv ps (start max_length version bs)
  start-Inv ps bs f = record { rest = ps; in_order = refl; pending = f; kept = refl }

  -- Two answers to the same call, in the state that the invariant keeps.
  same :
      (s : Link) (x y : Decoded)
      → s.codec ≡ in_proxy
      → decode bytes bincode in_proxy s.buf ≡ x
      → decode bytes bincode s.codec s.buf ≡ y
      → x ≡ y
  same s x y k a b = sym a ∙ sym (ap (λ c. decode bytes bincode c s.buf) k) ∙ b

  step-Inv : (ps : List SocketPacket) (s t : Link) → Inv ps s → Step bytes bincode s t → Inv ps t
  step-Inv ps s t v (arrive chunk w b c g) = record {
    rest = v.rest;
    in_order = v.in_order ∙ ap (λ x. x ++ v.rest) (sym g);
    pending =
        subst (λ x. Fitting bincode v.rest x)
          (ap (λ x. s.buf ++ x) w
            ∙ sym (append_assoc s.buf chunk t.wire)
            ∙ ap (λ x. x ++ t.wire) (sym b))
          v.pending;
    kept = c ∙ v.kept;
  }
  step-Inv ps s t v (deliver p d w g) = elim (answer v.rest s.buf s.wire v.pending) [
    | whole q qs buf' e d' f ↦
        let eq = same s _ _ v.kept d' d in
        record {
          rest = qs;
          in_order =
              v.in_order
              ∙ ap (λ x. s.got ++ x) (e ∙ ap (λ x. x ∷ qs) (delivered q p (ap (λ x. x.0) eq)))
              ∙ sym (append_assoc s.got (p ∷ []) qs)
              ∙ ap (λ x. x ++ qs) (sym g);
          pending = subst₂ (λ x y. Fitting bincode qs (x ++ y)) (ap (λ x. x.2) eq) (sym w) f;
          kept = sym (ap (λ x. x.1) eq);
        }
    | part d' last ↦ cc (ap (λ x. x.0) (same s _ _ v.kept d' d))
  ]
    where
      delivered :
          (q p : SocketPacket)
          → ◌≡◌ {A = Outcome PacketCodecError (Option SocketPacket)} (ok (some q)) (ok (some p))
          → q ≡ p
      delivered q p e = cc
  step-Inv ps s t v (wait d w g) = elim (answer v.rest s.buf s.wire v.pending) [
    | whole q qs buf' e d' f ↦ cc (ap (λ x. x.0) (same s _ _ v.kept d' d))
    | part d' last ↦
        let eq = same s _ _ v.kept d' d in
        record {
          rest = v.rest;
          in_order = v.in_order ∙ ap (λ x. x ++ v.rest) (sym g);
          pending =
              subst₂ (λ x y. Fitting bincode v.rest (x ++ y)) (ap (λ x. x.2) eq) (sym w) v.pending;
          kept = sym (ap (λ x. x.1) eq);
        }
  ]

  Reach-Inv : (ps : List SocketPacket) (s t : Link) → Inv ps s → Reach bytes bincode s t → Inv ps t
  Reach-Inv ps s t v here = v
  Reach-Inv ps s u v (next {t} r st) = step-Inv ps t u (Reach-Inv ps s t v r) st

  reached :
      (ps : List SocketPacket) (bs : List ℕ) (s : Link)
      → Fitting bincode ps bs
      → Reach bytes bincode (start max_length version bs) s
      → Inv ps s
  reached ps bs s f r = Reach-Inv ps (start max_length version bs) s (start-Inv ps bs f) r

  answers :
      (ps : List SocketPacket) (s : Link)
      → Inv ps s
      → (o : Option SocketPacket) × ((decode bytes bincode s.codec s.buf).0 ≡ ok o)
  answers ps s v = elim (answer v.rest s.buf s.wire v.pending) [
    | whole q qs buf' e d f ↦ (some q, sym (ap (λ x. x.0) (same s _ _ v.kept d refl)))
    | part d last ↦ (none, sym (ap (λ x. x.0) (same s _ _ v.kept d refl)))
  ]

  fitting :
      (ps : List SocketPacket) (bs : List ℕ)
      → All (IsShort bincode) ps
      → Frames bincode ps bs
      → Fitting bincode ps bs
  fitting [] bs short f = f
  fitting (p ∷ ps) bs short (frame, tail, e, cut, f) =
      let (body, written, shape) = encode-shape bytes bincode p frame e in
      (
        frame,
        tail,
        e,
        omega (arith, ap length shape, short.0 body written),
        cut,
        fitting ps tail short.1 f,
      )

  -- However the bytes of the frames of `ps` are cut into chunks, and whenever `decode` is called, where
  -- each packet of `ps` is written with at most 65535 bytes: what has been delivered is the beginning
  -- of `ps`, in order, and the next call of `decode` neither fails nor panics.
  pub stream_exact :
      (ps : List SocketPacket) (bs : List ℕ) (s : Link)
      → All (IsShort bincode) ps
      → Frames bincode ps bs
      → Reach bytes bincode (start max_length version bs) s
      → ((rest : List SocketPacket) × (ps ≡ s.got ++ rest))
        × ((o : Option SocketPacket) × ((decode bytes bincode s.codec s.buf).0 ≡ ok o))
  stream_exact ps bs s short f r =
      let v = reached ps bs s (fitting ps bs short f) r in ((v.rest, v.in_order), answers ps s v)

  -- Where each packet of `ps` is written with at most 65535 bytes: once all bytes of their frames have
  -- arrived and `decode` returns `None`, all of `ps` has been delivered.
  pub stream_complete :
      (ps : List SocketPacket) (bs : List ℕ) (s : Link)
      → All (IsShort bincode) ps
      → Frames bincode ps bs
      → Reach bytes bincode (start max_length version bs) s
      → s.wire ≡ []
      → (decode bytes bincode s.codec s.buf).0 ≡ ok none
      → s.got ≡ ps
  stream_complete ps bs s short f r w h =
      let v = reached ps bs s (fitting ps bs short f) r in
      elim (answer v.rest s.buf s.wire v.pending) [
        | whole q qs buf' e d f' ↦ cc (ap (λ x. x.0) (same s _ _ v.kept d refl), h)
        | part d last ↦ sym (v.in_order ∙ ap (λ x. s.got ++ x) (last w) ∙ append-nil s.got)
      ]
