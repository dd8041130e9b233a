-- ===== src/Shared/Minecraft/Split.antt =====
-- The hello parsers of shared/src/minecraft.rs on any buffer whatever: they never panic, a packet
-- is split off the front of the buffer, and a refusal leaves the buffer alone.
use craftip_crosscompiletest.Prelude.{
  ℕ, ◌+◌, ◌*◌, ◌≤◌, ◌<◌, ◌≡◌, refl, ap, subst, List, [], ◌∷◌, ◌++◌, ok, err, panic, Outcome, length,
  drop, arith, length-append, length-drop, ◌==◌,
}
use craftip_crosscompiletest.Shared.Datatypes.{PacketError, not_matching, not_valid, as_usize}
use craftip_crosscompiletest.Shared.Utf8.{RustString}
use craftip_crosscompiletest.Shared.Bytes.{Cursor, BytesCrate, at}
use craftip_crosscompiletest.Shared.Cursor.{
  pure, ◌>>=◌, ◌>>◌, throw_error_if_smaller, read_varint, get_utf8_string, get_utf16_string,
  match_bytes,
}
use craftip_crosscompiletest.Shared.Cursor.Runs.{
  Ends, done, failed, Ends-bind, throw-bind, ensure-bind, get_u8-Ends, get_u16-Ends, get_u32-Ends,
  read_varint-Ends, get_utf16_string-Ends,
}
use craftip_crosscompiletest.Shared.Cursor.Methods.{match_bytes-Ends, get_utf8_string-Ends}
use craftip_crosscompiletest.Shared.Minecraft.{
  MinecraftHelloPacket, Header, finish, old_minecraft_start, read_old_ping, old_ping_fields,
  old_ping_pkg, read_old_connect, old_connect_pkg, read_new_pkg, new_pkg, hello_new, or_next,
}

-- How a parser leaves the buffer `buf`.
abbrev pub Splits : List ℕ → Outcome PacketError MinecraftHelloPacket × List ℕ → Type 0
Splits buf (ok p, rest) =
    (p.body ++ rest ≡ buf) × (p.packet_length ≡ length p.body) × (0 < p.packet_length)
Splits buf (err e, rest) = rest ≡ buf
Splits buf (panic, rest) = ⊥

module _ (bytes : BytesCrate) (buf : List ℕ) where
  open bytes use {get_u8, get_u16, get_u32, split_to, split_to_lem}

  abbrev Headers : Outcome PacketError Header × Cursor → Type 0
  Headers = Ends buf (λ _ _ r. length r < length buf)

  finish-Splits :
      (r : Outcome PacketError Header × Cursor) → Headers r → Splits buf (finish bytes r buf)
  finish-Splits r (done h pre rest e s q) = rw e (
      rw (subst (λ b. split_to (length pre) b ≡ ok (pre, rest)) s (split_to_lem pre rest))
        (s, refl, omega (arith, ap length s, length-append pre rest)))
  finish-Splits r (failed x c e) = rw e refl

  -- The port, which ends both old shapes.
  port-Ends :
      (p r : List ℕ)
      → p ++ r ≡ buf
      → length r < length buf
      → (version : ℕ) (hostname : RustString)
      → Headers (
          (throw_error_if_smaller bytes 4
              >> (get_u32 >>= λ port.
                  pure (record { id = 0; version = version; hostname = hostname; port = port })))
            (at p r))
  port-Ends p r s less version hostname = throw-bind bytes buf p r s 4 _ λ four.
      Ends-bind get_u32 _ (at p r) (get_u32-Ends bytes buf p r s four)
        λ port p₁ r₁ s₁ q₁. done _ p₁ r₁ refl s₁ (omega arith)

  -- How much is left behind the fixed bytes of an old ping.
  start_left :
      (p r r₁ : List ℕ)
      → p ++ r ≡ buf
      → length r + 2 ≡ length buf
      → length r₁ + length (drop (length p) old_minecraft_start) ≡ length r
      → length r₁ + 25 ≡ length r
  start_left p r r₁ s two n =
      omega (arith, ap length s, length-append p r, length-drop (length p) old_minecraft_start)

  old_ping_fields-Ends :
      (p r : List ℕ)
      → p ++ r ≡ buf
      → 7 ≤ length r
      → length r < length buf
      → Headers (old_ping_fields bytes (at p r))
  old_ping_fields-Ends p r s seven less =
      Ends-bind get_u16 _ (at p r) (get_u16-Ends bytes buf p r s (omega arith))
        λ rest_data p₁ r₁ s₁ q₁.
          Ends-bind get_u8 _ (at p₁ r₁) (get_u8-Ends bytes buf p₁ r₁ s₁ (omega arith))
            λ version p₂ r₂ s₂ q₂.
              Ends-bind (get_utf16_string bytes) _ (at p₂ r₂) (get_utf16_string-Ends bytes p₂ r₂ s₂)
                λ hostname p₃ r₃ s₃ q₃.
                  ensure-bind bytes buf p₃ r₃ s₃ (7 + length hostname * 2 == rest_data) not_valid _
                    λ _. port-Ends p₃ r₃ s₃ (omega arith) version hostname

  read_old_ping-Ends : Headers (read_old_ping bytes (at [] buf))
  unfolding read_old_ping
  read_old_ping-Ends =
      Ends-bind (match_bytes bytes (0xfe ∷ 0x01 ∷ [])) _ (at [] buf)
        (match_bytes-Ends bytes [] buf refl (0xfe ∷ 0x01 ∷ []))
        λ first p r s q. ensure-bind bytes buf p r s first not_matching _ λ same.
          throw-bind bytes buf p r s 32 _ λ enough.
            Ends-bind (match_bytes bytes (drop (length p) old_minecraft_start)) _ (at p r)
              (match_bytes-Ends bytes p r s (drop (length p) old_minecraft_start))
              λ begin p₁ r₁ s₁ q₁. ensure-bind bytes buf p₁ r₁ s₁ begin not_valid _ λ same₁.
                let left : length r₁ + 25 ≡ length r = start_left p r r₁ s (q same) (q₁ same₁) in
                old_ping_fields-Ends p₁ r₁ s₁ (omega (arith, left, enough))
                  (omega (arith, left, q same))

  read_old_connect-Ends : Headers (read_old_connect bytes (at [] buf))
  unfolding read_old_connect
  read_old_connect-Ends =
      Ends-bind (match_bytes bytes (0x02 ∷ [])) _ (at [] buf)
        (match_bytes-Ends bytes [] buf refl (0x02 ∷ []))
        λ first p r s q. ensure-bind bytes buf p r s first not_matching _ λ same.
          throw-bind bytes buf p r s 1 _ λ one.
            Ends-bind get_u8 _ (at p r) (get_u8-Ends bytes buf p r s one) λ version p₁ r₁ s₁ q₁.
              Ends-bind (get_utf16_string bytes) _ (at p₁ r₁) (get_utf16_string-Ends bytes p₁ r₁ s₁)
                λ username p₂ r₂ s₂ q₂.
                  Ends-bind (get_utf16_string bytes) _ (at p₂ r₂)
                    (get_utf16_string-Ends bytes p₂ r₂ s₂)
                    λ hostname p₃ r₃ s₃ q₃.
                      port-Ends p₃ r₃ s₃ (omega (arith, q same)) version hostname

  read_new_pkg-Ends : Headers (read_new_pkg bytes (at [] buf))
  unfolding read_new_pkg
  read_new_pkg-Ends =
      Ends-bind read_varint _ (at [] buf) (read_varint-Ends [] buf refl) λ pkg_length p r s q.
        Ends-bind read_varint _ (at p r) (read_varint-Ends p r s) λ pkg_id p₁ r₁ s₁ q₁.
          ensure-bind bytes buf p₁ r₁ s₁ (pkg_id == 0) not_matching _ λ _.
            Ends-bind read_varint _ (at p₁ r₁) (read_varint-Ends p₁ r₁ s₁) λ version p₂ r₂ s₂ q₂.
              Ends-bind (get_utf8_string bytes) _ (at p₂ r₂) (get_utf8_string-Ends bytes p₂ r₂ s₂)
                λ hostname p₃ r₃ s₃ q₃. throw-bind bytes buf p₃ r₃ s₃ 2 _ λ two.
                  Ends-bind get_u16 _ (at p₃ r₃) (get_u16-Ends bytes buf p₃ r₃ s₃ two)
                    λ port p₄ r₄ s₄ q₄.
                      ensure-bind bytes buf p₄ r₄ s₄ (length p₄ == as_usize pkg_length) not_valid _
                        λ _. done _ p₄ r₄ refl s₄ (omega arith)

  pub old_ping_pkg-Splits : Splits buf (old_ping_pkg bytes buf)
  unfolding old_ping_pkg
  old_ping_pkg-Splits = finish-Splits (read_old_ping bytes (at [] buf)) read_old_ping-Ends

  pub old_connect_pkg-Splits : Splits buf (old_connect_pkg bytes buf)
  unfolding old_connect_pkg
  old_connect_pkg-Splits = finish-Splits (read_old_connect bytes (at [] buf)) read_old_connect-Ends

  pub new_pkg-Splits : Splits buf (new_pkg bytes buf)
  unfolding new_pkg
  new_pkg-Splits = finish-Splits (read_new_pkg bytes (at [] buf)) read_new_pkg-Ends

or_next-Splits :
    (buf : List ℕ) (r : Outcome PacketError MinecraftHelloPacket × List ℕ)
    (next : List ℕ → Outcome PacketError MinecraftHelloPacket × List ℕ)
    → Splits buf r
    → Splits buf (next buf)
    → Splits buf (or_next r next)
or_next-Splits buf (ok p, rest) next h k = h
or_next-Splits buf (err not_matching, rest) next h k = rw h k
or_next-Splits buf (err _, rest) next h k = h
or_next-Splits buf (panic, rest) next h k = h

-- Whatever bytes arrive, `MinecraftHelloPacket::new` returns. A packet that it accepts is not empty,
-- its `length` is the number of its bytes, and they and what stays in the buffer are the buffer that
-- arrived. If it refuses, the buffer is as it was.
pub hello_new-Splits : (bytes : BytesCrate) (buf : List ℕ) → Splits buf (hello_new bytes buf)
unfolding hello_new
hello_new-Splits bytes buf =
    or_next-Splits buf (old_ping_pkg bytes buf) _ (old_ping_pkg-Splits bytes buf) (
      or_next-Splits buf (old_connect_pkg bytes buf) _ (old_connect_pkg-Splits bytes buf)
        (or_next-Splits buf (new_pkg bytes buf) _ (new_pkg-Splits bytes buf) refl))
