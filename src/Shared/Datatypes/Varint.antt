-- ===== src/Shared/Datatypes/Varint.antt =====
-- `get_varint` of shared/src/datatypes.rs: what it reads, and that it inverts the encoding.
use craftip_crosscompiletest.Prelude.{
  le→ltb_false, ℕ, zero, suc, ◌+◌, ◌*◌, ◌/◌, ◌%◌, ◌^◌, ◌≤◌, ◌<◌, ◌≡◌, ◌≢◌, refl, sym, ap, ◌∙◌, inl,
  inr, List, [], ◌∷◌, ◌++◌, some, ok, panic, length, get_elem?, ltb, arith, if◌then◌else◌,
  append_assoc, length-append, get_elem?_lt, get_elem?_ne_none, get_elem?-append_head, Option-cases,
  Bool-cases, ltb→lt, lt→ltb, true, false,
}
use craftip_crosscompiletest.Prelude.Bits.{low_seven, top_bit, bit_or-disjoint}
use craftip_crosscompiletest.Shared.Datatypes.{IsI32, or_group, varint_loop, get_varint}
use native.Mathlib.Numerals.{towards_suc}
use native.Mathlib.Nat.{div-add-mod, zero-add, mul-one}

-- What a finished loop says: some bytes were taken, all of them in the buffer.
pub varint_loop_range :
    (left : ℕ) (buf : List ℕ) (start value position size v n : ℕ)
    → varint_loop left buf start value position size ≡ ok (v, n)
    → (size < n) × (n ≤ size + left) × (n + start ≤ length buf)
unfolding varint_loop
varint_loop_range zero buf start value position size v n h = cc
varint_loop_range (suc left) buf start value position size v n h =
    elim (Option-cases (get_elem? buf (size + start))) [
      | inl e ↦ ground arith
      | inr (b, e) ↦ ground (
        arith,
        get_elem?_lt buf (size + start) b e,
        varint_loop_range left buf start (or_group value b position) (position + 7) (size + 1) v n,
      )
    ]

pub varint_loop-ne-panic :
    (left : ℕ) (buf : List ℕ) (start value position size : ℕ)
    → varint_loop left buf start value position size ≢ panic
unfolding varint_loop
varint_loop-ne-panic zero buf start value position size h = cc
varint_loop-ne-panic (suc left) buf start value position size h =
    elim (Option-cases (get_elem? buf (size + start))) [
      | inl e ↦ ground (arith, get_elem?_ne_none buf (size + start))
      | inr (b, e) ↦ ground (
        arith,
        varint_loop-ne-panic left buf start (or_group value b position) (position + 7) (size + 1),
      )
    ]

last_byte :
    (left : ℕ) (buf : List ℕ) (start value s size w : ℕ)
    → get_elem? buf (size + start) ≡ some w
    → w < 128
    → value < 2 ^ s
    → value + w * 2 ^ s < 2 ^ 32
    → varint_loop (suc left) buf start value s size ≡ ok (value + w * 2 ^ s, size + 1)
unfolding varint_loop
last_byte left buf start value s size w e hw hv fits = ground (
  arith,
  get_elem?_lt buf (size + start) w e,
  low_seven w,
  top_bit w,
  bit_or-disjoint s value w hv,
)

inner_byte :
    (left : ℕ) (buf : List ℕ) (start value s size g : ℕ)
    → get_elem? buf (size + start) ≡ some (g + 128)
    → g < 128
    → value < 2 ^ s
    → value + g * 2 ^ s < 2 ^ 32
    → varint_loop (suc left) buf start value s size
      ≡ varint_loop left buf start (value + g * 2 ^ s) (s + 7) (size + 1)
unfolding varint_loop
inner_byte left buf start value s size g e hg hv fits = ground (
  arith,
  get_elem?_lt buf (size + start) (g + 128) e,
  low_seven (g + 128),
  top_bit (g + 128),
  bit_or-disjoint s value g hv,
)

-- `v` in groups of seven bits, lowest first, the top bit set on all but the last: the encoding that
-- the protocol writes, for `v` below 128 ^ (k + 1).
unfoldable pub groups : ℕ → ℕ → List ℕ
groups zero v = v ∷ []
groups (suc k) v =
    let rest = groups k (v / 128) in if ltb v 128 then v ∷ [] else (v % 128 + 128) ∷ rest

unfoldable pub encode_varint : ℕ → List ℕ
encode_varint v = groups 4 v

pub seven_more : (s : ℕ) → 2 ^ (s + 7) ≡ 128 * 2 ^ s
seven_more s = simp towards_suc (omega arith)

-- The groups above the lowest, and the lowest, each at its place from bit `s` on.
low_and_high : (s w : ℕ) → w / 128 * 2 ^ (s + 7) + w % 128 * 2 ^ s ≡ w * 2 ^ s
low_and_high s w =
    ap (λ n. w / 128 * n + w % 128 * 2 ^ s) (seven_more s) ∙ omega (arith, whole (2 ^ s))
  where
    whole : (n : ℕ) → w / 128 * 128 * n + w % 128 * n ≡ w * n
    whole n = omega (arith, ap (λ m. m * n) (div-add-mod w 128))

pub below_next : (value g s : ℕ) → value < 2 ^ s → g < 128 → value + g * 2 ^ s < 2 ^ (s + 7)
below_next value g s hv hg = omega (arith, seven_more s, scaled (2 ^ s) g hg)
  where
    scaled : (n g : ℕ) → g < 128 → (g + 1) * n ≤ 128 * n
    scaled n g h = grind arith

groups_last : (k w : ℕ) → ltb w 128 ≡ true → groups (suc k) w ≡ w ∷ []
unfolding groups
groups_last k w h = rw h

groups_more :
    (k w : ℕ) → ltb w 128 ≡ false → groups (suc k) w ≡ (w % 128 + 128) ∷ groups k (w / 128)
unfolding groups
groups_more k w h = rw h

-- The loop in the middle of a number: `w` is what is still to come, from bit `s` on.
varint_loop-groups :
    (k : ℕ) (pre rest : List ℕ) (start value s size w : ℕ)
    → size + start ≡ length pre
    → w < 128 ^ suc k
    → value < 2 ^ s
    → value + w * 2 ^ s < 2 ^ 32
    → varint_loop (suc k) (pre ++ (groups k w ++ rest)) start value s size
      ≡ ok (value + w * 2 ^ s, size + length (groups k w))
varint_loop-groups zero pre rest start value s size w hp hw hv fits =
    unfold groups in
    last_byte zero (pre ++ (w ∷ rest)) start value s size w
      (get_elem?-append_head pre rest w (size + start) hp) (omega arith) hv fits
varint_loop-groups (suc k) pre rest start value s size w hp hw hv fits =
    elim (Bool-cases (ltb w 128)) [
      | inl small ↦ rw (groups_last k w small) (
          last_byte (suc k) (pre ++ (w ∷ rest)) start value s size w
            (get_elem?-append_head pre rest w (size + start) hp) (ltb→lt w 128 small) hv fits)
      | inr large ↦ rw (groups_more k w large) (
          inner_byte (suc k) (pre ++ (x ∷ tail)) start value s size (w % 128)
            (get_elem?-append_head pre tail x (size + start) hp) (omega arith) hv
            (omega (arith, low_and_high s w))
          ∙ ap (λ buf. varint_loop (suc k) buf start (value + w % 128 * 2 ^ s) (s + 7) (size + 1))
              (sym (append_assoc pre (x ∷ []) tail))
          ∙ varint_loop-groups k (pre ++ (x ∷ [])) rest start (value + w % 128 * 2 ^ s) (s + 7)
              (size + 1) (w / 128) (omega (arith, hp, length-append pre (x ∷ []))) (omega arith)
              (below_next value (w % 128) s hv (omega arith)) (omega (arith, low_and_high s w))
          ∙ ground (arith, low_and_high s w))
    ]
  where
    x : ℕ
    x = w % 128 + 128

    tail : List ℕ
    tail = groups k (w / 128) ++ rest

-- `get_varint` inverts the encoding of a 32-bit pattern, and does not look past it.
pub get_varint-encode_varint :
    (pre rest : List ℕ) (v : ℕ)
    → IsI32 v
    → get_varint (pre ++ (encode_varint v ++ rest)) (length pre) ≡ ok (v, length (encode_varint v))
unfolding get_varint encode_varint
get_varint-encode_varint pre rest v h =
    varint_loop-groups 4 pre rest (length pre) 0 0 0 v (omega arith) (omega arith) (omega arith)
      (omega arith)
    ∙ simp (zero-add, mul-one) refl

pub encode_varint_small : (v : ℕ) → v < 128 → encode_varint v ≡ v ∷ []
unfolding encode_varint
encode_varint_small v h = groups_last 3 v (lt→ltb v 128 h)

pub encode_varint_two :
    (v : ℕ) → 128 ≤ v → v < 16384 → encode_varint v ≡ (v % 128 + 128) ∷ v / 128 ∷ []
unfolding encode_varint
encode_varint_two v h k =
    groups_more 3 v (le→ltb_false v 128 h)
    ∙ ap (λ t. (v % 128 + 128) ∷ t) (groups_last 2 (v / 128) (lt→ltb (v / 128) 128 (omega arith)))
