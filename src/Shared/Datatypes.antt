-- ===== src/Shared/Datatypes.antt =====
-- shared/src/datatypes.rs: errors, `get_varint`, the protocol of a connection.
-- A byte is a number below 256, and a `Vec<u8>` or a `BytesMut` is the list of its bytes.
-- An `i32` is kept as its 32-bit pattern; `as u32` keeps the pattern, `as usize` extends the sign.
pub mod Varint
pub mod Reference
use craftip_crosscompiletest.Prelude.{
  ℕ, zero, suc, ◌+◌, ◌-◌, ◌*◌, ◌%◌, ◌^◌, ◌<◌, bit_and, bit_or, List, none, some, Outcome, ok, err,
  panic, length, get_elem?, ltb, leb, ◌==◌, if◌then◌else◌,
}

pub data PacketError : Type 0 where
  too_small not_valid not_valid_string_encoding not_valid_first_packet : PacketError
  not_matching encoding_error : PacketError

pub data Protocol : Type 0 where
  unknown : Protocol
  mc : ℕ → Protocol
  proxy : ℕ → Protocol

abbrev pub IsByte : ℕ → Type 0
IsByte b = b < 256

abbrev pub IsI32 : ℕ → Type 0
IsI32 v = v < 2 ^ 32

-- `v as usize` of an i32, on a 64-bit machine.
abbrev pub as_usize : ℕ → ℕ
as_usize v = if ltb v (2 ^ 31) then v else v + (2 ^ 64 - 2 ^ 32)

-- `value |= ((current_byte & 0x7F) as i32) << position`, on 32-bit patterns.
abbrev pub or_group : ℕ → ℕ → ℕ → ℕ
or_group value b position = bit_or value (bit_and b 0x7f * 2 ^ position % 2 ^ 32)

-- The loop of `get_varint`. `left` is 5 - size, so the clause at zero is the guard `size >= 5`.
unfoldable pub varint_loop :
    (left : ℕ) → List ℕ → (start value position size : ℕ) → Outcome PacketError (ℕ × ℕ)
varint_loop zero buf start value position size = err not_valid
varint_loop (suc left) buf start value position size =
    if leb (length buf) (size + start) then err not_valid else elim (get_elem? buf (size + start)) [
      | none ↦ panic
      | some b ↦
          let value' = or_group value b position in
          if bit_and b 0x80 == 0
          then ok (value', size + 1)
          else varint_loop left buf start value' (position + 7) (size + 1)
    ]

-- The value and the number of bytes it took.
unfoldable pub get_varint : List ℕ → ℕ → Outcome PacketError (ℕ × ℕ)
get_varint buf start = varint_loop 5 buf start 0 0 0
