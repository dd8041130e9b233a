-- ===== src/Shared/PacketCodec/Raw.antt =====
-- A socket of a Minecraft client behind its first packet (shared/src/packet_codec.rs in the state
-- `Protocol::MC`): bytes arrive cut anywhere, and `decode` is called at any time.
use craftip_crosscompiletest.Prelude.{
  ℕ, ◌≡◌, refl, sym, ap, subst, ◌∙◌, List, [], ◌∷◌, ◌++◌, Option, some, none, Outcome, ok,
  append-nil, append_assoc, length,
}
use craftip_crosscompiletest.Shared.Datatypes.{mc}
use craftip_crosscompiletest.Shared.Bytes.{BytesCrate}
use craftip_crosscompiletest.Shared.Minecraft.{MinecraftDataPacket, data_new}
use craftip_crosscompiletest.Shared.SocketPacket.{SocketPacket, mc_data, Bincode, parse_packet}
use craftip_crosscompiletest.Shared.PacketCodec.{PacketCodecError, PacketCodec, Decoded, decode}
use craftip_crosscompiletest.Shared.PacketCodec.Stream.{
  Link, Step, arrive, deliver, wait, Reach, here, next,
}

-- `ps` are data packets only, and `bs` are their bytes, one after the other.
abbrev pub Carries : List SocketPacket → List ℕ → Type 0
Carries [] bs = bs ≡ []
Carries (mc_data p ∷ ps) bs = (tail : List ℕ) × (bs ≡ p.body ++ tail) × Carries ps tail
Carries (_ ∷ ps) bs = ⊥

abbrev pub in_minecraft : (max_length version : ℕ) → PacketCodec
in_minecraft max_length version = record { max_length = max_length; protocol = mc version }

abbrev pub raw_start : (max_length version : ℕ) → (buf wire : List ℕ) → Link
raw_start max_length version buf wire = record {
  wire = wire;
  buf = buf;
  codec = in_minecraft max_length version;
  got = [];
}

-- What `decode` gives for a buffer.
abbrev pub raw_packet : List ℕ → Outcome PacketCodecError (Option SocketPacket)
raw_packet [] = ok none
raw_packet (b ∷ bs) = ok (some (mc_data (record { body = b ∷ bs })))

module _ (bytes : BytesCrate) (bincode : Bincode) (max_length version : ℕ) where
  abbrev codec : PacketCodec
  codec = in_minecraft max_length version

  -- The packets so far carry the bytes that are no longer in the buffer or on the wire.
  pub record Carried (bs : List ℕ) (s : Link) : Type 0 where
    pub front : List ℕ
    pub whole : front ++ (s.buf ++ s.wire) ≡ bs
    pub carried : Carries s.got front
    pub kept : s.codec ≡ codec

  -- With bytes in the buffer `decode` gives all of them.
  all_bytes :
      (b : ℕ) (bs : List ℕ)
      → decode bytes bincode codec (b ∷ bs)
        ≡ (ok (some (mc_data (record { body = b ∷ bs }))), codec, [])
  unfolding decode parse_packet data_new
  all_bytes b bs =
      rw
        (ap (bytes.split_to (length (b ∷ bs))) (sym (append-nil (b ∷ bs)))
          ∙ bytes.split_to_lem (b ∷ bs) [])
        refl

  decode-raw : (buf : List ℕ) → decode bytes bincode codec buf ≡ (raw_packet buf, codec, [])
  decode-raw [] = unfold decode in refl
  decode-raw (b ∷ bs) = all_bytes b bs

  Carries-append :
      (ps : List SocketPacket) (p : MinecraftDataPacket) (bs : List ℕ)
      → Carries ps bs
      → Carries (ps ++ (mc_data p ∷ [])) (bs ++ p.body)
  Carries-append [] p bs h = ([], ap (λ cs. cs ++ p.body) h ∙ sym (append-nil p.body), refl)
  Carries-append (mc_data q ∷ ps) p bs (tail, e, h) = (
    tail ++ p.body,
    ap (λ cs. cs ++ p.body) e ∙ append_assoc q.body tail p.body,
    Carries-append ps p tail h,
  )
  Carries-append (_ ∷ ps) p bs h = elim h [ ]

  answer :
      (s : Link) (x : Decoded)
      → s.codec ≡ codec
      → decode bytes bincode s.codec s.buf ≡ x
      → (raw_packet s.buf, codec, []) ≡ x
  answer s x k e = sym (decode-raw s.buf) ∙ sym (ap (λ c. decode bytes bincode c s.buf) k) ∙ e

  given :
      (buf : List ℕ) (p : SocketPacket) (c : PacketCodec) (rest : List ℕ)
      → ◌≡◌ {A = Decoded} (raw_packet buf, codec, []) (ok (some p), c, rest)
      → (p ≡ mc_data (record { body = buf })) × (c ≡ codec) × (rest ≡ [])
  given [] p c rest h = cc
  given (b ∷ bs) p c rest h = (cc, cc, cc)

  not_given :
      (buf : List ℕ) (c : PacketCodec) (rest : List ℕ)
      → ◌≡◌ {A = Decoded} (raw_packet buf, codec, []) (ok none, c, rest)
      → (buf ≡ []) × (c ≡ codec) × (rest ≡ [])
  not_given [] c rest h = (refl, cc, cc)
  not_given (b ∷ bs) c rest h = cc

  Step-Carried : (bs : List ℕ) (s t : Link) → Carried bs s → Step bytes bincode s t → Carried bs t
  Step-Carried bs s t c (arrive chunk w b k g) = record {
    front = c.front;
    whole =
        ap (λ buf. c.front ++ (buf ++ t.wire)) b
        ∙ ap (λ cs. c.front ++ cs)
            (append_assoc s.buf chunk t.wire ∙ ap (λ cs. s.buf ++ cs) (sym w))
        ∙ c.whole;
    carried = subst (λ ps. Carries ps c.front) (sym g) c.carried;
    kept = k ∙ c.kept;
  }
  Step-Carried bs s t c (deliver p e w g) =
      let (is_data, kept, empty) = given s.buf p t.codec t.buf (answer s _ c.kept e) in
      record {
        front = c.front ++ s.buf;
        whole =
            ap (λ buf. (c.front ++ s.buf) ++ (buf ++ t.wire)) empty
            ∙ ap (λ cs. (c.front ++ s.buf) ++ cs) w
            ∙ append_assoc c.front s.buf s.wire
            ∙ c.whole;
        carried =
            subst (λ ps. Carries ps (c.front ++ s.buf))
              (sym (g ∙ ap (λ q. s.got ++ (q ∷ [])) is_data))
              (Carries-append s.got (record { body = s.buf }) c.front c.carried);
        kept = kept;
      }
  Step-Carried bs s t c (wait e w g) =
      let (was_empty, kept, empty) = not_given s.buf t.codec t.buf (answer s _ c.kept e) in
      record {
        front = c.front;
        whole =
            ap (λ buf. c.front ++ (buf ++ t.wire)) (empty ∙ sym was_empty)
            ∙ ap (λ cs. c.front ++ (s.buf ++ cs)) w
            ∙ c.whole;
        carried = subst (λ ps. Carries ps c.front) (sym g) c.carried;
        kept = kept;
      }

  Reach-Carried :
      (buf wire : List ℕ) (t : Link)
      → Reach bytes bincode (raw_start max_length version buf wire) t
      → Carried (buf ++ wire) t
  Reach-Carried buf wire t here = record { front = []; whole = refl; carried = refl; kept = refl }
  Reach-Carried buf wire t (next {t = s} r step) =
      Step-Carried (buf ++ wire) s t (Reach-Carried buf wire s r) step

  -- Behind the first packet of a Minecraft client, however its bytes are cut and whenever `decode` is called:
  -- the packets carry, in order, exactly the bytes that are no longer in the buffer or on the way;
  -- and the next call gives all bytes of the buffer, or none where there is none, and leaves none.
  pub raw_exact :
      (buf wire : List ℕ) (t : Link)
      → Reach bytes bincode (raw_start max_length version buf wire) t
      → Carried (buf ++ wire) t
        × (decode bytes bincode t.codec t.buf ≡ (raw_packet t.buf, t.codec, []))
  raw_exact buf wire t r =
      let c = Reach-Carried buf wire t r in
      (
        c,
        ap (λ k. decode bytes bincode k t.buf) c.kept
            ∙ decode-raw t.buf
            ∙ ap (λ k. (raw_packet t.buf, k, [])) (sym c.kept),
      )
