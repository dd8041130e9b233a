-- ===== src/Shared/Utf8/Units.antt =====
-- How many bytes the standard library makes of a text in UTF-16.
use craftip_crosscompiletest.Prelude.{
  ℕ, ◌+◌, ◌≤◌, ◌<◌, ◌≡◌, refl, ap, ◌∙◌, List, [], ◌∷◌, ◌++◌, Option, some, none, Bool-cases, inl,
  inr, length, ltb, arith, length-append, if◌then◌else◌, All,
}
use craftip_crosscompiletest.Shared.Utf8.{
  RustString, encode_utf8, is_high, is_low, of_pair, prepend, utf16_from, decode_utf16,
}

-- The units that are no ASCII.
abbrev pub foreign : List ℕ → ℕ
foreign [] = 0
foreign (u ∷ us) = let n = foreign us in if ltb u 0x80 then n else 1 + n

abbrev pub AsciiUnit : ℕ → Type 0
AsciiUnit u = u < 0x80

abbrev bonus : Option ℕ → ℕ
bonus none = 0
bonus (some h) = 2

encode_utf8-ge : (c : ℕ) → (if ltb c 0x80 then 1 else 2) ≤ length (encode_utf8 c)
unfolding encode_utf8
encode_utf8-ge c = ground arith

encode_utf8-four : (c : ℕ) → 0x10000 ≤ c → 4 ≤ length (encode_utf8 c)
unfolding encode_utf8
encode_utf8-four c h = ground arith

prepended :
    (bs : List ℕ) (o : Option RustString) (name : RustString)
    → prepend bs o ≡ some name
    → (s : RustString) × (o ≡ some s) × (length name ≡ length bs + length s)
prepended bs none name h = cc
prepended bs (some s) name h = (s, refl, ap length (same h) ∙ length-append bs s)
  where
    same : ◌≡◌ {A = Option RustString} (some (bs ++ s)) (some name) → name ≡ bs ++ s
    same h = cc

utf16_from-length :
    (pending : Option ℕ) (us : List ℕ) (name : RustString)
    → utf16_from pending us ≡ some name
    → bonus pending + (length us + foreign us) ≤ length name
unfolding utf16_from
utf16_from-length none [] name h = omega arith
utf16_from-length (some h) [] name e = cc
utf16_from-length none (u ∷ us) name e = elim (Bool-cases (is_high u)) [
  | inl high ↦ ground (arith, utf16_from-length (some u) us name (rw high at e))
  | inr other ↦ elim (Bool-cases (is_low u)) [
    | inl low ↦ cc (rw (other, low) at e)
    | inr plain ↦
        let (s, q, k) =
          prepended (encode_utf8 u) (utf16_from none us) name (rw (other, plain) at e) in
        ground (arith, k, utf16_from-length none us s q, encode_utf8-ge u)
  ]
]
utf16_from-length (some h) (u ∷ us) name e = elim (Bool-cases (is_low u)) [
  | inl low ↦
      let (s, q, k) =
        prepended (encode_utf8 (of_pair h u)) (utf16_from none us) name (rw low at e) in
      ground (arith, k, utf16_from-length none us s q, encode_utf8-four (of_pair h u) (omega arith))
  | inr other ↦ cc (rw other at e)
]

-- A text takes at least a byte for each unit, and more if one of them is no ASCII.
pub decode_utf16-length :
    (us : List ℕ) (name : RustString)
    → decode_utf16 us ≡ some name
    → length us + foreign us ≤ length name
unfolding decode_utf16
decode_utf16-length us name h = omega (arith, utf16_from-length none us name h)

-- A text in ASCII is its own bytes.
pub decode_utf16-ascii : (us : List ℕ) → All AsciiUnit us → decode_utf16 us ≡ some us
unfolding decode_utf16 encode_utf8 utf16_from
decode_utf16-ascii us h = go us h
  where
    go : (us : List ℕ) → All AsciiUnit us → utf16_from none us ≡ some us
    go [] h = refl
    go (u ∷ us) h = rw (go us h.1) (ground (arith, h.0))
