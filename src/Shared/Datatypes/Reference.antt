-- ===== src/Shared/Datatypes/Reference.antt =====
-- `get_varint` of shared/src/datatypes.rs against the description of the encoding: groups of seven
-- bits, lowest first, the top bit set on all but the last.
use craftip_crosscompiletest.Prelude.{
  ltb_false→le, ltb→lt, le→ltb_false, lt→ltb, ℕ, zero, suc, ◌+◌, ◌*◌, ◌%◌, ◌^◌, ◌≤◌, ◌<◌, bit_or,
  ◌≡◌, refl, sym, ap, ◌∙◌, inl, inr, List, [], ◌∷◌, Option, some, none, Outcome, ok, err, get_elem?,
  drop, All, get_elem?-All, ltb, arith, if◌then◌else◌, Bool-cases, Option-cases, get_elem?_lt,
  get_elem?_ne_none,
}
use native.Mathlib.Nat.{zero-add}
use craftip_crosscompiletest.Prelude.Bits.{low_seven, top_bit, bit_or-disjoint}
use craftip_crosscompiletest.Shared.Datatypes.{
  PacketError, not_valid, IsByte, or_group, varint_loop, get_varint,
}
use craftip_crosscompiletest.Shared.Datatypes.Varint.{seven_more, below_next}

-- One group in front of the number that the further bytes stand for.
unfoldable pub above : ℕ → Option (ℕ × ℕ) → Option (ℕ × ℕ)
above b none = none
above b (some (v, k)) = some (b % 128 + 128 * v, k + 1)

-- The number that the bytes stand for, as large as it may be, and how many bytes it takes; at most
-- `left` bytes are read.
unfoldable pub varint_at : (left : ℕ) → List ℕ → Option (ℕ × ℕ)
varint_at zero bs = none
varint_at (suc left) [] = none
varint_at (suc left) (b ∷ bs) =
    let further = varint_at left bs in if ltb b 128 then some (b, 1) else above b further

-- A number read from bit `s` on, after `size` bytes that stood for `value`, in 32 bits.
unfoldable pub in_32_bits : (value s size : ℕ) → Option (ℕ × ℕ) → Outcome PacketError (ℕ × ℕ)
in_32_bits value s size none = err not_valid
in_32_bits value s size (some (v, k)) = ok ((value + v * 2 ^ s) % 2 ^ 32, size + k)

drop-some :
    {A : Type 0} (xs : List A) (n : ℕ) (x : A)
    → get_elem? xs n ≡ some x
    → drop n xs ≡ x ∷ drop (suc n) xs
drop-some [] n x e = cc
drop-some (y ∷ xs) zero x e = cc
drop-some (y ∷ xs) (suc n) x e = drop-some xs n x e

drop-none : {A : Type 0} (xs : List A) (n : ℕ) → get_elem? xs n ≡ none → drop n xs ≡ []
drop-none [] zero e = refl
drop-none [] (suc n) e = refl
drop-none (y ∷ xs) zero e = cc
drop-none (y ∷ xs) (suc n) e = drop-none xs n e

-- One group or-ed in, also where it reaches past bit 31.
or_group_low :
    (value b s : ℕ)
    → b < 256
    → value < 2 ^ s
    → 2 ^ s ≤ 2 ^ 21
    → or_group value b s ≡ value + b % 128 * 2 ^ s
or_group_low value b s hb hv hs = rw (low_seven b hb) (
    ap (bit_or value) (fits (b % 128) (2 ^ s) (omega arith) hs)
    ∙ bit_or-disjoint s value (b % 128) hv)
  where
    fits : (g n : ℕ) → g < 128 → n ≤ 2 ^ 21 → g * n % 2 ^ 32 ≡ g * n
    fits g n hg hn = grind arith

or_group_high :
    (value b : ℕ)
    → b < 256
    → value < 2 ^ 28
    → or_group value b 28 ≡ (value + b % 128 * 2 ^ 28) % 2 ^ 32
or_group_high value b hb hv =
    rw (low_seven b hb) (
      ap (bit_or value) (wraps (b % 128))
      ∙ bit_or-disjoint 28 value (b % 128 % 16) hv
      ∙ omega arith)
  where
    wraps : (g : ℕ) → g * 2 ^ 28 % 2 ^ 32 ≡ g % 16 * 2 ^ 28
    wraps g = omega arith

next_byte : (size start : ℕ) → suc (size + start) ≡ size + 1 + start
next_byte size start = omega arith

spread : (g v n : ℕ) → (g + 128 * v) * n ≡ g * n + v * (128 * n)
spread g v n = grind arith

-- A group that is not the last but one stays below bit 32.
fits_32 :
    (value b n : ℕ) → b < 128 → value < n → n ≤ 2 ^ 21 → (value + b * n) % 2 ^ 32 ≡ value + b * n
fits_32 value b n hb hv hn = grind arith

-- A group in front weighs as much as or-ed in at its place.
in_32_bits-above :
    (value s size b : ℕ) (rest : Option (ℕ × ℕ))
    → in_32_bits value s size (above b rest)
      ≡ in_32_bits (value + b % 128 * 2 ^ s) (s + 7) (size + 1) rest
unfolding in_32_bits above
in_32_bits-above value s size b none = refl
in_32_bits-above value s size b (some (v, k)) =
    ap (λ n. ok ((value + n) % 2 ^ 32, size + (k + 1))) weights
    ∙ ap (λ n. ok (n % 2 ^ 32, size + (k + 1))) (omega arith)
    ∙ ap (λ n. ok ((value + b % 128 * 2 ^ s + v * 2 ^ (s + 7)) % 2 ^ 32, n)) (omega arith)
  where
    weights : (b % 128 + 128 * v) * 2 ^ s ≡ b % 128 * 2 ^ s + v * 2 ^ (s + 7)
    weights = rw (seven_more s) (spread (b % 128) v (2 ^ s))

module _ (buf : List ℕ) (start : ℕ) where
  loop_out :
      (left value s size : ℕ)
      → get_elem? buf (size + start) ≡ none
      → varint_loop (suc left) buf start value s size ≡ err not_valid
  unfolding varint_loop
  loop_out left value s size e = ground (arith, get_elem?_ne_none buf (size + start))

  loop_end :
      (left value s size b : ℕ)
      → get_elem? buf (size + start) ≡ some b
      → b < 128
      → varint_loop (suc left) buf start value s size ≡ ok (or_group value b s, size + 1)
  unfolding varint_loop
  loop_end left value s size b e small =
      ground (arith, get_elem?_lt buf (size + start) b e, top_bit b)

  loop_on :
      (left value s size b : ℕ)
      → get_elem? buf (size + start) ≡ some b
      → 128 ≤ b
      → b < 256
      → varint_loop (suc left) buf start value s size
        ≡ varint_loop left buf start (or_group value b s) (s + 7) (size + 1)
  unfolding varint_loop
  loop_on left value s size b e large hb =
      ground (arith, get_elem?_lt buf (size + start) b e, top_bit b)

  described_out :
      (left value s size : ℕ)
      → get_elem? buf (size + start) ≡ none
      → in_32_bits value s size (varint_at (suc left) (drop (size + start) buf)) ≡ err not_valid
  unfolding in_32_bits varint_at
  described_out left value s size e = rw (drop-none buf (size + start) e)

  described_end :
      (left value s size b : ℕ)
      → get_elem? buf (size + start) ≡ some b
      → b < 128
      → in_32_bits value s size (varint_at (suc left) (drop (size + start) buf))
        ≡ ok ((value + b * 2 ^ s) % 2 ^ 32, size + 1)
  unfolding in_32_bits varint_at
  described_end left value s size b e small =
      rw (drop-some buf (size + start) b e, lt→ltb b 128 small)

  described_on :
      (left value s size b : ℕ)
      → get_elem? buf (size + start) ≡ some b
      → 128 ≤ b
      → in_32_bits value s size (varint_at (suc left) (drop (size + start) buf))
        ≡ in_32_bits
            (value + b % 128 * 2 ^ s)
            (s + 7)
            (size + 1)
            (varint_at left (drop (size + 1 + start) buf))
  unfolding varint_at
  described_on left value s size b e large =
      rw (drop-some buf (size + start) b e, le→ltb_false b 128 large)
        (in_32_bits-above value s size b (varint_at left (drop (suc (size + start)) buf))
          ∙ ap
              (λ n.
                in_32_bits (value + b % 128 * 2 ^ s) (s + 7) (size + 1)
                  (varint_at left (drop n buf)))
              (next_byte size start))

  none_left :
      (value value' : ℕ) (size : ℕ) (bs : List ℕ)
      → varint_loop 0 buf start value 35 size ≡ in_32_bits value' 35 size (varint_at 0 bs)
  unfolding varint_loop in_32_bits varint_at
  none_left value value' size bs = refl

  -- With `left` bytes to go and `s` bits known, the loop finds what the description says.
  abbrev Reads : (left s : ℕ) → Type 0
  Reads left s =
      (value size : ℕ)
      → value < 2 ^ s
      → varint_loop left buf start value s size
        ≡ in_32_bits value s size (varint_at left (drop (size + start) buf))

  module _ (hb : All IsByte buf) where
    byte_at : (n b : ℕ) → get_elem? buf n ≡ some b → b < 256
    byte_at n b e = get_elem?-All IsByte buf n b hb e

    one_more : (left s : ℕ) → 2 ^ s ≤ 2 ^ 21 → Reads left (s + 7) → Reads (suc left) s
    one_more left s hs rest value size hv = elim (Option-cases (get_elem? buf (size + start))) [
      | inl e ↦ loop_out left value s size e ∙ sym (described_out left value s size e)
      | inr (b, e) ↦ elim (Bool-cases (ltb b 128)) [
        | inl small ↦
            loop_end left value s size b e (ltb→lt b 128 small)
            ∙ ap (λ n. ok (n, size + 1))
                (or_group_low value b s (byte_at _ b e) hv hs
                  ∙ ap (λ g. value + g * 2 ^ s) (omega (arith, ltb→lt b 128 small))
                  ∙ sym (fits_32 value b (2 ^ s) (ltb→lt b 128 small) hv hs))
            ∙ sym (described_end left value s size b e (ltb→lt b 128 small))
        | inr large ↦
            loop_on left value s size b e (ltb_false→le b 128 large) (byte_at _ b e)
            ∙ ap (λ n. varint_loop left buf start n (s + 7) (size + 1))
                (or_group_low value b s (byte_at _ b e) hv hs)
            ∙ rest (value + b % 128 * 2 ^ s) (size + 1)
                (below_next value (b % 128) s hv (omega arith))
            ∙ sym (described_on left value s size b e (ltb_false→le b 128 large))
      ]
    ]

    last_group : Reads 1 28
    last_group value size hv = elim (Option-cases (get_elem? buf (size + start))) [
      | inl e ↦ loop_out 0 value 28 size e ∙ sym (described_out 0 value 28 size e)
      | inr (b, e) ↦ elim (Bool-cases (ltb b 128)) [
        | inl small ↦
            loop_end 0 value 28 size b e (ltb→lt b 128 small)
            ∙ ap (λ n. ok (n, size + 1))
                (or_group_high value b (byte_at _ b e) hv ∙ omega (arith, ltb→lt b 128 small))
            ∙ sym (described_end 0 value 28 size b e (ltb→lt b 128 small))
        | inr large ↦
            loop_on 0 value 28 size b e (ltb_false→le b 128 large) (byte_at _ b e)
            ∙ none_left (or_group value b 28) (value + b % 128 * 2 ^ 28) (size + 1)
                (drop (size + 1 + start) buf)
            ∙ sym (described_on 0 value 28 size b e (ltb_false→le b 128 large))
      ]
    ]

-- On any bytes, `get_varint` reads the number that they encode from `start` on, modulo 2 ^ 32, and
-- how many bytes it takes; where five bytes do not hold a whole number it fails with `not_valid`.
pub get_varint-varint_at :
    (buf : List ℕ) (start : ℕ)
    → All IsByte buf
    → get_varint buf start ≡ in_32_bits 0 0 0 (varint_at 5 (drop start buf))
unfolding get_varint
get_varint-varint_at buf start hb =
    one_more buf start hb 4 0 (omega arith)
      (one_more buf start hb 3 7 (omega arith) (
        one_more buf start hb 2 14 (omega arith)
          (one_more buf start hb 1 21 (omega arith) (last_group buf start hb))))
      0 0 (omega arith)
    ∙ ap (λ n. in_32_bits 0 0 0 (varint_at 5 (drop n buf))) (zero-add start)
