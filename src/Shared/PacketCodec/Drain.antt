-- ===== src/Shared/PacketCodec/Drain.antt =====
-- `decode` of shared/src/packet_codec.rs called again and again, as a framed socket does, until it
-- gives no packet.
use craftip_crosscompiletest.Prelude.{
  ℕ, zero, suc, ◌≤◌, ◌<◌, ◌≡◌, ◌≢◌, ap, ◌∙◌, List, [], ◌∷◌, ◌++◌, some, none, ok, err, panic,
  length, arith, append_assoc, length-append,
}
use craftip_crosscompiletest.Shared.Bytes.{BytesCrate}
use craftip_crosscompiletest.Shared.SocketPacket.{SocketPacket, Bincode}
use craftip_crosscompiletest.Shared.PacketCodec.{PacketCodec, PacketCodecError, Decoded, decode}
use craftip_crosscompiletest.Shared.PacketCodec.Total.{Decodes, decode_total}

-- Why the calls stopped: `decode` waits for bytes, it failed, it panicked; or the fuel is used up.
pub data Stop : Type 0 where
  waits : Stop
  fails : PacketCodecError → Stop
  panics : Stop
  no_fuel : Stop

pub record Drained : Type 0 where
  pub packets : List SocketPacket
  pub stop : Stop
  pub codec : PacketCodec
  pub buf : List ℕ

abbrev with_packet : SocketPacket → Drained → Drained
with_packet p d = record d { packets = p ∷ d.packets }

-- What all the calls together do to a buffer: they end by themselves, and they have taken a front of it that has a byte for each packet at least.
pub record Drains (buf : List ℕ) (d : Drained) : Type 0 where
  pub ends : d.stop ≢ no_fuel
  pub no_panic : d.stop ≢ panics
  pub front : List ℕ
  pub taken : front ++ d.buf ≡ buf
  pub enough : length d.packets ≤ length front

module _ (bytes : BytesCrate) (bincode : Bincode) where
  abbrev drain_after : Decoded → (PacketCodec → List ℕ → Drained) → Drained
  drain_after (ok (some p), codec, rest) further = with_packet p (further codec rest)
  drain_after (ok none, codec, rest) further = record {
    packets = [];
    stop = waits;
    codec = codec;
    buf = rest;
  }
  drain_after (err e, codec, rest) further = record {
    packets = [];
    stop = fails e;
    codec = codec;
    buf = rest;
  }
  drain_after (panic, codec, rest) further = record {
    packets = [];
    stop = panics;
    codec = codec;
    buf = rest;
  }

  unfoldable pub drain : (fuel : ℕ) → PacketCodec → List ℕ → Drained
  drain zero codec buf = record { packets = []; stop = no_fuel; codec = codec; buf = buf }
  drain (suc fuel) codec buf = drain_after (decode bytes bincode codec buf) (drain fuel)

  drain_after-Drains :
      (buf : List ℕ) (r : Decoded) (further : PacketCodec → List ℕ → Drained)
      → Decodes buf r
      → ((codec : PacketCodec) (rest : List ℕ)
          → length rest < length buf
          → Drains rest (further codec rest))
      → Drains buf (drain_after r further)
  drain_after-Drains buf (ok (some p), codec, rest) further (front, cut, pos) h =
      let d = h codec rest (omega (arith, ap length cut, length-append front rest)) in
      record {
        ends = d.ends;
        no_panic = d.no_panic;
        front = front ++ d.front;
        taken = append_assoc front d.front _ ∙ ap (λ bs. front ++ bs) d.taken ∙ cut;
        enough = omega (arith, d.enough, length-append front d.front);
      }
  drain_after-Drains buf (ok none, codec, rest) further cut h = record {
    ends = λ e. cc;
    no_panic = λ e. cc;
    front = [];
    taken = cut;
    enough = omega arith;
  }
  drain_after-Drains buf (err e, codec, rest) further cut h = record {
    ends = λ e. cc;
    no_panic = λ e. cc;
    front = [];
    taken = cut;
    enough = omega arith;
  }
  drain_after-Drains buf (panic, codec, rest) further cut h = elim cut [ ]

  -- Called again and again on a buffer, in any state, `decode` gives at most one packet for each
  -- byte and then waits or fails: as many calls as the buffer has bytes, and one more, are enough,
  -- and the packets took bytes from the front only.
  pub drain-Drains :
      (fuel : ℕ) (codec : PacketCodec) (buf : List ℕ)
      → length buf < fuel
      → Drains buf (drain fuel codec buf)
  unfolding drain
  drain-Drains zero codec buf h = absurd (omega arith)
  drain-Drains (suc fuel) codec buf h =
      drain_after-Drains buf (decode bytes bincode codec buf) (drain fuel)
        (decode_total bytes bincode codec buf)
        (λ codec' rest shorter. drain-Drains fuel codec' rest (omega arith))
