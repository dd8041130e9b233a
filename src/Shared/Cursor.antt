-- ===== src/Shared/Cursor.antt =====
-- shared/src/cursor.rs: the methods of `CustomCursorMethods`. A method returns its result and the
-- cursor after it, also beside an error.
pub mod Runs
pub mod Exact
pub mod Utf16
pub mod Methods
use craftip_crosscompiletest.Prelude.{
  ℕ, zero, suc, ◌+◌, ◌-◌, ◌*◌, List, [], ◌∷◌, Option, none, some, Bool, true, false, Outcome, ok,
  err, panic, length, get_elem?, take, drop, ltb, ◌==◌, if◌then◌else◌,
}
use craftip_crosscompiletest.Shared.Datatypes.{
  PacketError, too_small, not_valid_string_encoding, get_varint, as_usize,
}
use craftip_crosscompiletest.Shared.Bytes.{Cursor, Read, BytesCrate}
use craftip_crosscompiletest.Shared.Utf8.{RustString, from_utf8, decode_utf16}

abbrev pub continue : {A B : Type 0} → Outcome PacketError A → (A → Read B) → Read B
continue (ok a) f c = f a c
continue (err e) f c = (err e, c)
continue panic f c = (panic, c)

infixl 5 ◌>>=◌ ◌>>◌
-- `?`: the rest runs on the cursor that the first part left.
abbrev pub ◌>>=◌ : {A B : Type 0} → Read A → (A → Read B) → Read B
◌>>=◌ m f c = let (r, c') = m c in continue r f c'

abbrev pub ◌>>◌ : {B : Type 0} → Read (Unit {0}) → Read B → Read B
m >> k = m >>= λ _. k

abbrev pub pure : {A : Type 0} → A → Read A
pure a c = (ok a, c)

abbrev pub fail : {A : Type 0} → PacketError → Read A
fail e c = (err e, c)

-- `if !test { return Err(e) }`
abbrev pub ensure : Bool → PacketError → Read (Unit {0})
ensure true e = pure tt
ensure false e = fail e

abbrev pub position : Read ℕ
position c = (ok c.position, c)

abbrev pub set_position : ℕ → Read (Unit {0})
set_position p c = (ok tt, record c { position = p })

-- `&buf[from..to]`, which panics out of range.
abbrev pub slice : List ℕ → ℕ → ℕ → Outcome PacketError (List ℕ)
slice buf from to =
    if ltb to from
    then panic
    else if ltb (length buf) to
    then panic
    else ok (take (to - from) (drop from buf))

abbrev pub lift : {A : Type 0} → (Cursor → Outcome PacketError A) → Read A
lift f c = (f c, c)

-- Back to where the method began, and the encoding error.
abbrev pub or_restore : ℕ → Option RustString → Read RustString
or_restore start (some s) = pure s
or_restore start none = do set_position start; fail not_valid_string_encoding

-- The comparison loop of `match_bytes`, from place `i` on.
pub bytes_match : List ℕ → ℕ → List ℕ → Outcome PacketError Bool
bytes_match buf i [] = ok true
bytes_match buf i (b ∷ bs) = elim (get_elem? buf i) [
  | none ↦ panic
  | some a ↦ if a == b then bytes_match buf (i + 1) bs else ok false
]

abbrev pub advance_if : ℕ → Bool → Read Bool
advance_if n false = pure false
advance_if n true = do p ← position; set_position (p + n); pure true

unfoldable pub read_varint : Read ℕ
read_varint = do
  (value, size) ← lift (λ c. get_varint c.buf c.position)
  p ← position
  set_position (p + size)
  pure value

module _ (bytes : BytesCrate) where
  open bytes use {remaining, get_u16}

  unfoldable pub throw_error_if_smaller : ℕ → Read (Unit {0})
  throw_error_if_smaller size c = if ltb (remaining c) size then (err too_small, c) else (ok tt, c)

  unfoldable pub get_utf8_string : Read RustString
  get_utf8_string = do
    start ← position
    value ← read_varint
    let size = as_usize value
    throw_error_if_smaller size
    blob ← lift (λ c. slice c.buf c.position (c.position + size))
    p ← position
    set_position (p + size)
    or_restore start (from_utf8 blob)

  -- The units that the iterator yields. It is lazy, and after an encoding error the rest would not
  -- be read; the cursor is set back then, so that makes no difference.
  pub get_units : ℕ → Read (List ℕ)
  get_units zero = pure []
  get_units (suc n) = do unit ← get_u16; units ← get_units n; pure (unit ∷ units)

  unfoldable pub get_utf16_string : Read RustString
  unfolding get_units
  get_utf16_string = do
    start ← position
    throw_error_if_smaller 2
    size ← get_u16
    left ← (λ c. (ok (remaining c), c))
    ensure (ltb (size * 2) left) too_small
    throw_error_if_smaller (size * 2)
    units ← get_units size
    or_restore start (decode_utf16 units)

  unfoldable pub match_bytes : List ℕ → Read Bool
  unfolding bytes_match
  match_bytes expected c =
      if ltb (remaining c) (length expected)
      then (ok false, c)
      else (do
        same ← lift (λ c. bytes_match c.buf c.position expected)
        advance_if (length expected) same)
          c
