-- ===== src/Shared/Minecraft/Skips.antt =====
-- When a parser of shared/src/minecraft.rs passes a buffer on to the next one.
use craftip_crosscompiletest.Prelude.{ℕ, ◌≡◌, ◌≢◌, refl, List, [], ◌∷◌, err}
use craftip_crosscompiletest.Shared.Datatypes.{not_matching}
use craftip_crosscompiletest.Shared.Bytes.{BytesCrate}
use craftip_crosscompiletest.Shared.Cursor.Exact.{match_bytes_ne}
use craftip_crosscompiletest.Shared.Minecraft.{
  read_old_ping, old_ping_pkg, read_old_connect, old_connect_pkg, new_pkg, hello_new, or_next,
}

module _ (bytes : BytesCrate) where
  pub not_old_ping :
      (b : ℕ) (tail : List ℕ)
      → b ≢ 0xfe
      → old_ping_pkg bytes (b ∷ tail) ≡ (err not_matching, b ∷ tail)
  unfolding old_ping_pkg read_old_ping
  not_old_ping b tail h = rw (match_bytes_ne bytes b tail 0xfe (0x01 ∷ []) h)

  pub not_old_connect :
      (b : ℕ) (tail : List ℕ)
      → b ≢ 0x02
      → old_connect_pkg bytes (b ∷ tail) ≡ (err not_matching, b ∷ tail)
  unfolding old_connect_pkg read_old_connect
  not_old_connect b tail h = rw (match_bytes_ne bytes b tail 0x02 [] h)

  pub hello_new_by_new_pkg :
      (b : ℕ) (tail : List ℕ)
      → b ≢ 0xfe
      → b ≢ 0x02
      → hello_new bytes (b ∷ tail)
        ≡ or_next (new_pkg bytes (b ∷ tail)) (λ buf. (err not_matching, buf))
  unfolding hello_new
  hello_new_by_new_pkg b tail h k = rw (not_old_ping b tail h, not_old_connect b tail k) refl
