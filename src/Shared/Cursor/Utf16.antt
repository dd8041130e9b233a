-- ===== src/Shared/Cursor/Utf16.antt =====
-- What `match_bytes` and `get_utf16_string` of shared/src/cursor.rs return where the expected bytes, or
-- the units of a text, stand at the cursor.
use craftip_crosscompiletest.Prelude.{
  ℕ, ◌+◌, ◌*◌, ◌/◌, ◌%◌, ◌^◌, ◌≤◌, ◌<◌, ◌≡◌, refl, subst₂, List, [], ◌∷◌, ◌++◌, some, true, ok,
  length, get_elem?-append_head, arith, append_assoc, append-nil, length-append, lt→ltb,
  le→ltb_false, ==_refl,
}
use craftip_crosscompiletest.Shared.Bytes.{BytesCrate, at}
use craftip_crosscompiletest.Shared.Utf8.{RustString, decode_utf16}
use craftip_crosscompiletest.Shared.Cursor.{bytes_match, match_bytes, get_units, get_utf16_string}
use craftip_crosscompiletest.Shared.Cursor.Exact.{throw_ok}

bytes_match_same :
    (pre bs rest : List ℕ) → bytes_match (pre ++ (bs ++ rest)) (length pre) bs ≡ ok true
unfolding bytes_match
bytes_match_same pre [] rest = refl
bytes_match_same pre (b ∷ bs) rest =
    rw (get_elem?-append_head pre (bs ++ rest) b (length pre) refl, ==_refl b, bytes_match)
      (subst₂ (λ l n. bytes_match l n bs ≡ ok true) (append_assoc pre (b ∷ []) (bs ++ rest))
        (length-append pre (b ∷ [])) (bytes_match_same (pre ++ (b ∷ [])) bs rest))

-- A text in UTF-16, as the protocol writes its units and its length.
abbrev pub be16 : ℕ → List ℕ
be16 n = n / 256 ∷ n % 256 ∷ []

abbrev pub units_of : List ℕ → List ℕ
units_of [] = []
units_of (u ∷ us) = u / 256 ∷ u % 256 ∷ units_of us

abbrev pub AreUnits : List ℕ → Type 0
AreUnits [] = Unit
AreUnits (u ∷ us) = (u < 2 ^ 16) × AreUnits us

pub whole : (u : ℕ) → u / 256 * 256 + u % 256 ≡ u
whole u = omega arith

pub length-units_of : (us : List ℕ) → length (units_of us) ≡ length us * 2
length-units_of [] = refl
length-units_of (u ∷ us) = omega (arith, length-units_of us)

module _ (bytes : BytesCrate) where
  open bytes use {get_u16_lem, remaining_lem}

  pub match_bytes_same :
      (pre bs rest : List ℕ)
      → match_bytes bytes bs (at pre (bs ++ rest)) ≡ (ok true, at (pre ++ bs) rest)
  unfolding match_bytes
  match_bytes_same pre bs rest = rw (
    remaining_lem pre (bs ++ rest),
    le→ltb_false (length (bs ++ rest)) (length bs) (omega (arith, length-append bs rest)),
    bytes_match_same pre bs rest,
    append_assoc pre bs rest,
    length-append pre bs,
  )

  get_units_ok :
      (us pre rest : List ℕ)
      → AreUnits us
      → get_units bytes (length us) (at pre (units_of us ++ rest))
        ≡ (ok us, at (pre ++ units_of us) rest)
  unfolding get_units
  get_units_ok [] pre rest h = rw (append-nil pre)
  get_units_ok (u ∷ us) pre rest h = rw (
    get_u16_lem pre (units_of us ++ rest) (u / 256) (u % 256),
    get_units_ok us (pre ++ be16 u) rest h.1,
    append_assoc pre (be16 u) (units_of us),
    whole u,
  )

  pub get_utf16_string_ok :
      (pre us rest : List ℕ) (name : RustString)
      → AreUnits us
      → length us < 2 ^ 16
      → decode_utf16 us ≡ some name
      → 1 ≤ length rest
      → get_utf16_string bytes (at pre (be16 (length us) ++ (units_of us ++ rest)))
        ≡ (ok name, at ((pre ++ be16 (length us)) ++ units_of us) rest)
  unfolding get_utf16_string
  get_utf16_string_ok pre us rest name h fits d more =
      let n = length us in
      let l = units_of us ++ rest in
      rw (
        throw_ok bytes pre (be16 n ++ l) 2 (omega arith),
        get_u16_lem pre l (n / 256) (n % 256),
        whole n,
        remaining_lem (pre ++ be16 n) l,
        lt→ltb (n * 2) (length l)
            (omega (arith, length-append (units_of us) rest, length-units_of us, more)),
        throw_ok bytes (pre ++ be16 n) l (n * 2)
            (omega (arith, length-append (units_of us) rest, length-units_of us)),
        get_units_ok us (pre ++ be16 n) rest h,
        d,
      )
