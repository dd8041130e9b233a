-- ===== src/Shared/Utf8.antt =====
-- Rust's `String`, as the list of its UTF-8 bytes, with the two conversions of the standard library
-- that the parsers call: `String::from_utf8`, and `char::decode_utf16` collected into a `String`.
pub mod Units
use craftip_crosscompiletest.Prelude.{
  ℕ, ◌+◌, ◌-◌, ◌*◌, ◌/◌, ◌%◌, List, [], ◌∷◌, ◌++◌, Option, none, some, Bool, false, ◌&&◌, ltb, leb,
  ◌==◌, if◌then◌else◌,
}

abbrev pub RustString : Type 0
RustString = List ℕ

-- Inside a character: how many bytes are still to come, and the range of the next one.
pub record Expect : Type 0 where
  pub more : ℕ
  pub lo : ℕ
  pub hi : ℕ

abbrev pub boundary : Expect
boundary = record { more = 0; lo = 0; hi = 0 }

abbrev pub expect : ℕ → ℕ → ℕ → Option Expect
expect n lo hi = some (record { more = n; lo = lo; hi = hi })

-- The first byte of a character: Unicode's table of well-formed UTF-8 byte sequences.
abbrev pub lead_byte : ℕ → Option Expect
lead_byte b =
    if ltb b 0x80
    then some boundary
    else if ltb b 0xc2
    then none
    else if ltb b 0xe0
    then expect 1 0x80 0xbf
    else if b == 0xe0
    then expect 2 0xa0 0xbf
    else if b == 0xed
    then expect 2 0x80 0x9f
    else if ltb b 0xf0
    then expect 2 0x80 0xbf
    else if b == 0xf0
    then expect 3 0x90 0xbf
    else if ltb b 0xf4
    then expect 3 0x80 0xbf
    else if b == 0xf4
    then expect 3 0x80 0x8f
    else none

abbrev pub continuation : ℕ → Expect → Option Expect
continuation b e =
    if leb e.lo b && leb b e.hi
    then some (record { more = e.more - 1; lo = 0x80; hi = 0xbf })
    else none

abbrev pub next_byte : ℕ → Expect → Option Expect
next_byte b e = if e.more == 0 then lead_byte b else continuation b e

pub utf8_from : Expect → List ℕ → Bool
utf8_from e [] = e.more == 0
utf8_from e (b ∷ bs) = elim (next_byte b e) [ none ↦ false | some e' ↦ utf8_from e' bs ]

-- `String::from_utf8(bytes).is_ok()`.
unfoldable pub is_utf8 : List ℕ → Bool
unfolding utf8_from
is_utf8 bs = utf8_from boundary bs

unfoldable pub from_utf8 : List ℕ → Option RustString
from_utf8 bs = if is_utf8 bs then some bs else none

-- `char::encode_utf8` of a code point.
unfoldable pub encode_utf8 : ℕ → List ℕ
encode_utf8 c =
    if ltb c 0x80
    then c ∷ []
    else if ltb c 0x800
    then (0xc0 + c / 64) ∷ (0x80 + c % 64) ∷ []
    else if ltb c 0x10000
    then (0xe0 + c / 4096) ∷ (0x80 + c / 64 % 64) ∷ (0x80 + c % 64) ∷ []
    else (0xf0 + c / 262144) ∷ (0x80 + c / 4096 % 64) ∷ (0x80 + c / 64 % 64) ∷ (0x80 + c % 64) ∷ []

abbrev pub is_surrogate : ℕ → Bool
is_surrogate u = leb 0xd800 u && ltb u 0xe000

abbrev pub is_high : ℕ → Bool
is_high u = leb 0xd800 u && ltb u 0xdc00

abbrev pub is_low : ℕ → Bool
is_low u = leb 0xdc00 u && ltb u 0xe000

-- The code point of a surrogate pair.
abbrev pub of_pair : ℕ → ℕ → ℕ
of_pair high low = 0x10000 + (high - 0xd800) * 0x400 + (low - 0xdc00)

abbrev pub prepend : List ℕ → Option RustString → Option RustString
prepend bs none = none
prepend bs (some s) = some (bs ++ s)

-- `pending` is a high surrogate whose partner has not been read. `none` is the first error: the
-- `collect` into a `Result` stops there.
unfoldable pub utf16_from : (pending : Option ℕ) → List ℕ → Option RustString
utf16_from none [] = some []
utf16_from (some h) [] = none
utf16_from none (u ∷ us) =
    let later = utf16_from (some u) us in
    let next = utf16_from none us in
    if is_high u then later else if is_low u then none else prepend (encode_utf8 u) next
utf16_from (some h) (u ∷ us) =
    let next = utf16_from none us in
    if is_low u then prepend (encode_utf8 (of_pair h u)) next else none

unfoldable pub decode_utf16 : List ℕ → Option RustString
unfolding utf16_from
decode_utf16 us = utf16_from none us
