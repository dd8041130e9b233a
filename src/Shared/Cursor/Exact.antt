-- ===== src/Shared/Cursor/Exact.antt =====
-- What the methods of shared/src/cursor.rs return on a cursor whose bytes are known.
use craftip_crosscompiletest.Prelude.{
  ◌^◌, ℕ, ◌+◌, ◌-◌, ◌≤◌, ◌<◌, ◌≡◌, List, [], ◌∷◌, ◌++◌, ok, err, length, arith, lt→ltb,
  le→ltb_false, ==_refl, ne→==_false, true, false, ◌≢◌, take-length_append, drop-length_append,
  length-append, append_assoc, subst,
}
use craftip_crosscompiletest.Shared.Datatypes.{too_small, IsI32}
use craftip_crosscompiletest.Shared.Datatypes.Varint.{
  encode_varint, get_varint-encode_varint, encode_varint_small,
}
use craftip_crosscompiletest.Shared.Bytes.{BytesCrate, at}
use craftip_crosscompiletest.Shared.Cursor.{
  slice, throw_error_if_smaller, match_bytes, read_varint, get_utf8_string,
}
use craftip_crosscompiletest.Shared.Utf8.{is_utf8, from_utf8}

module _ (bytes : BytesCrate) (pre rest : List ℕ) where
  open bytes use {remaining_lem}

  pub throw_ok :
      (n : ℕ)
      → n ≤ length rest
      → throw_error_if_smaller bytes n (at pre rest) ≡ (ok tt, at pre rest)
  unfolding throw_error_if_smaller
  throw_ok n h = rw (remaining_lem pre rest, le→ltb_false (length rest) n h)

  pub throw_fail :
      (n : ℕ)
      → length rest < n
      → throw_error_if_smaller bytes n (at pre rest) ≡ (err too_small, at pre rest)
  unfolding throw_error_if_smaller
  throw_fail n h = rw (remaining_lem pre rest, lt→ltb (length rest) n h)

-- The slice that begins at the cursor.
pub slice-append :
    (pre body rest : List ℕ)
    → slice (pre ++ (body ++ rest)) (length pre) (length pre + length body) ≡ ok body
slice-append pre body rest = ground (
  arith,
  length-append pre (body ++ rest),
  length-append body rest,
  drop-length_append pre (body ++ rest),
  take-length_append body rest,
  gap (length pre) (length body),
)
  where
    gap : (m n : ℕ) → m + n - m ≡ n
    gap m n = omega arith

module _ (bytes : BytesCrate) where
  open bytes use {remaining_lem}

  -- A first byte that is not the expected one ends the comparison.
  pub match_bytes_ne :
      (b : ℕ) (tail : List ℕ) (x : ℕ) (xs : List ℕ)
      → b ≢ x
      → match_bytes bytes (x ∷ xs) (at [] (b ∷ tail)) ≡ (ok false, at [] (b ∷ tail))
  unfolding match_bytes
  match_bytes_ne b tail x xs h =
      rw (remaining_lem [] (b ∷ tail), ne→==_false b x h) (ground (arith, ne→==_false b x h))

  pub match_byte_eq :
      (b : ℕ) (tail : List ℕ)
      → match_bytes bytes (b ∷ []) (at [] (b ∷ tail)) ≡ (ok true, at (b ∷ []) tail)
  unfolding match_bytes
  match_byte_eq b tail =
      rw (remaining_lem [] (b ∷ tail), le→ltb_false (length (b ∷ tail)) 1 (omega arith))
        (ground (arith, ==_refl b))

-- A varint that the protocol's encoding wrote.
pub read_varint_ok :
    (pre rest : List ℕ) (v : ℕ)
    → IsI32 v
    → read_varint (at pre (encode_varint v ++ rest)) ≡ (ok v, at (pre ++ encode_varint v) rest)
unfolding read_varint
read_varint_ok pre rest v h = rw (
  get_varint-encode_varint pre rest v h,
  append_assoc pre (encode_varint v) rest,
  length-append pre (encode_varint v),
)

-- A varint of one byte.
pub read_varint_small :
    (pre rest : List ℕ) (v : ℕ)
    → v < 128
    → read_varint (at pre (v ∷ rest)) ≡ (ok v, at (pre ++ (v ∷ [])) rest)
read_varint_small pre rest v h =
    subst (λ e. read_varint (at pre (e ++ rest)) ≡ (ok v, at (pre ++ e) rest))
      (encode_varint_small v h) (read_varint_ok pre rest v (omega arith))

-- A string in UTF-8 behind its length.
pub get_utf8_string_ok :
    (bytes : BytesCrate) (pre s rest : List ℕ)
    → is_utf8 s ≡ true
    → length s < 2 ^ 31
    → get_utf8_string bytes (at pre (encode_varint (length s) ++ (s ++ rest)))
      ≡ (ok s, at ((pre ++ encode_varint (length s)) ++ s) rest)
unfolding get_utf8_string from_utf8
get_utf8_string_ok bytes pre s rest u h = rw (
  read_varint_ok pre (s ++ rest) (length s) (omega arith),
  lt→ltb (length s) (2 ^ 31) h,
  throw_ok bytes (pre ++ encode_varint (length s)) (s ++ rest) (length s)
      (omega (arith, length-append s rest)),
  slice-append (pre ++ encode_varint (length s)) s rest,
  u,
  append_assoc (pre ++ encode_varint (length s)) s rest,
  length-append (pre ++ encode_varint (length s)) s,
)
