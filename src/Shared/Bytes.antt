-- ===== src/Shared/Bytes.antt =====
-- The `bytes` crate, which is not part of the repository: what the parsers use of `Buf` on a
-- `Cursor<Vec<u8>>` and of `BytesMut`, with its documented behaviour where enough bytes are there.
-- A cursor with `pre` behind it and `rest` ahead is `at pre rest`.
use craftip_crosscompiletest.Prelude.{ℕ, ◌+◌, ◌*◌, ◌≡◌, List, [], ◌∷◌, ◌++◌, Outcome, ok, length}
use craftip_crosscompiletest.Shared.Datatypes.{PacketError}

-- `std::io::Cursor<Vec<u8>>`: `get_ref` is `buf`.
pub record Cursor : Type 0 where
  pub buf : List ℕ
  pub position : ℕ

abbrev pub at : List ℕ → List ℕ → Cursor
at pre rest = record { buf = pre ++ rest; position = length pre }

abbrev pub Read : Type 0 → Type 0
Read A = Cursor → Outcome PacketError A × Cursor

pub record BytesCrate : Type 0 where
  pub remaining : Cursor → ℕ
  pub get_u8 : Read ℕ
  pub get_u16 : Read ℕ
  pub get_u32 : Read ℕ
  -- The first bytes, and the bytes that stay in the buffer.
  pub split_to : ℕ → List ℕ → Outcome PacketError (List ℕ × List ℕ)
  -- The bytes that stay in the buffer.
  pub advance : ℕ → List ℕ → Outcome PacketError (List ℕ)
  pub remaining_lem : (pre rest : List ℕ) → remaining (at pre rest) ≡ length rest
  pub get_u8_lem :
      (pre rest : List ℕ) (a : ℕ) → get_u8 (at pre (a ∷ rest)) ≡ (ok a, at (pre ++ (a ∷ [])) rest)
  pub get_u16_lem :
      (pre rest : List ℕ) (a b : ℕ)
      → get_u16 (at pre (a ∷ b ∷ rest)) ≡ (ok (a * 256 + b), at (pre ++ (a ∷ b ∷ [])) rest)
  pub get_u32_lem :
      (pre rest : List ℕ) (a b c d : ℕ)
      → get_u32 (at pre (a ∷ b ∷ c ∷ d ∷ rest))
        ≡ (ok (((a * 256 + b) * 256 + c) * 256 + d), at (pre ++ (a ∷ b ∷ c ∷ d ∷ [])) rest)
  pub split_to_lem : (pre rest : List ℕ) → split_to (length pre) (pre ++ rest) ≡ ok (pre, rest)
  pub advance_lem : (pre rest : List ℕ) → advance (length pre) (pre ++ rest) ≡ ok rest
