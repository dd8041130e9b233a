-- ===== src/Shared/Cursor/Runs.antt =====
-- How a reader of shared/src/cursor.rs ends: with a value and a cursor that still splits the buffer
-- in two, or with an error; never in a panic.
use craftip_crosscompiletest.Prelude.{
  ℕ, zero, suc, ◌+◌, ◌*◌, ◌≤◌, ◌<◌, ◌≡◌, refl, ap, ◌∙◌, inl, inr, List, [], ◌∷◌, ◌++◌, Option, some,
  none, Bool, true, false, ok, err, panic, Outcome, length, take, drop, ltb, arith, append_assoc,
  length-append, take-append-drop, length-take_le, length-drop, Bool-cases, ltb_false→le,
}
use craftip_crosscompiletest.Shared.Datatypes.{PacketError, varint_loop, get_varint}
use craftip_crosscompiletest.Shared.Datatypes.Varint.{varint_loop_range, varint_loop-ne-panic}
use craftip_crosscompiletest.Shared.Bytes.{Cursor, Read, BytesCrate, at}
use craftip_crosscompiletest.Shared.Utf8.{RustString, decode_utf16}
use craftip_crosscompiletest.Shared.Cursor.{
  ◌>>=◌, ensure, read_varint, throw_error_if_smaller, get_units, or_restore, get_utf16_string,
}

-- `Q` speaks of the value, of what is behind the cursor and of what is ahead.
pub data Ends (buf : List ℕ) {A : Type 0} (Q : A → List ℕ → List ℕ → Type 0)
    (r : Outcome PacketError A × Cursor) : Type 0 where
  done :
      (a : A) (pre rest : List ℕ)
      → r ≡ (ok a, at pre rest)
      → pre ++ rest ≡ buf
      → Q a pre rest
      → Ends buf Q r
  failed : (e : PacketError) (c : Cursor) → r ≡ (err e, c) → Ends buf Q r

pub Ends-bind :
    {A B : Type 0} {buf : List ℕ} {Q : A → List ℕ → List ℕ → Type 0}
    {R : B → List ℕ → List ℕ → Type 0} (m : Read A) (f : A → Read B) (c : Cursor)
    → Ends buf Q (m c)
    → ((a : A) (pre rest : List ℕ)
        → pre ++ rest ≡ buf
        → Q a pre rest
        → Ends buf R (f a (at pre rest)))
    → Ends buf R ((m >>= f) c)
Ends-bind m f c (done a pre rest e s q) k = rw (e, ◌>>=◌) (k a pre rest s q)
Ends-bind m f c (failed x c' e) k = rw (e, ◌>>=◌) (failed x c' refl)

pub Ends-map :
    {A : Type 0} {buf : List ℕ} {Q R : A → List ℕ → List ℕ → Type 0}
    {r : Outcome PacketError A × Cursor}
    → ((a : A) (pre rest : List ℕ) → Q a pre rest → R a pre rest)
    → Ends buf Q r
    → Ends buf R r
Ends-map f (done a pre rest e s q) = done a pre rest e s (f a pre rest q)
Ends-map f (failed x c e) = failed x c e

-- A cursor inside the buffer splits it.
pub at_split :
    (buf : List ℕ) (p : ℕ)
    → p ≤ length buf
    → ◌≡◌ {A = Cursor} (record { buf = buf; position = p }) (at (take p buf) (drop p buf))
at_split buf p h = rw (take-append-drop p buf, length-take_le p buf h)

module _ (bytes : BytesCrate) (buf pre rest : List ℕ) (split : pre ++ rest ≡ buf) where
  open bytes use {
    remaining, get_u8, get_u16, get_u32, remaining_lem, get_u8_lem, get_u16_lem, get_u32_lem,
  }

  pub throw-bind :
      {B : Type 0} {R : B → List ℕ → List ℕ → Type 0} (n : ℕ) (f : Unit {0} → Read B)
      → (n ≤ length rest → Ends buf R (f tt (at pre rest)))
      → Ends buf R ((throw_error_if_smaller bytes n >>= f) (at pre rest))
  unfolding throw_error_if_smaller
  throw-bind n f k = elim (Bool-cases (ltb (length rest) n)) [
    | inl short ↦ rw (remaining_lem pre rest, short) (failed _ _ refl)
    | inr enough ↦ rw (remaining_lem pre rest, enough) (k (ltb_false→le _ n enough))
  ]

  pub ensure-bind :
      {B : Type 0} {R : B → List ℕ → List ℕ → Type 0} (b : Bool) (e : PacketError)
      (f : Unit {0} → Read B)
      → (b ≡ true → Ends buf R (f tt (at pre rest)))
      → Ends buf R ((ensure b e >>= f) (at pre rest))
  ensure-bind true e f k = k refl
  ensure-bind false e f k = failed _ _ refl

  pub get_u8-Ends :
      1 ≤ length rest → Ends buf (λ _ p r. length r + 1 ≡ length rest) (get_u8 (at pre rest))
  get_u8-Ends h = go rest split h
    where
      go :
          (l : List ℕ)
          → pre ++ l ≡ buf
          → 1 ≤ length l
          → Ends buf (λ _ p r. length r + 1 ≡ length l) (get_u8 (at pre l))
      go [] s h = absurd (omega arith)
      go (a ∷ l) s h =
          done a (pre ++ (a ∷ [])) l (get_u8_lem pre l a) (append_assoc pre (a ∷ []) l ∙ s)
            (omega arith)

  pub get_u16-Ends :
      2 ≤ length rest → Ends buf (λ _ p r. length r + 2 ≡ length rest) (get_u16 (at pre rest))
  get_u16-Ends h = go rest split h
    where
      go :
          (l : List ℕ)
          → pre ++ l ≡ buf
          → 2 ≤ length l
          → Ends buf (λ _ p r. length r + 2 ≡ length l) (get_u16 (at pre l))
      go [] s h = absurd (omega arith)
      go (a ∷ []) s h = absurd (omega arith)
      go (a ∷ b ∷ l) s h =
          done _ (pre ++ (a ∷ b ∷ [])) l (get_u16_lem pre l a b)
            (append_assoc pre (a ∷ b ∷ []) l ∙ s) (omega arith)

  pub get_u32-Ends :
      4 ≤ length rest → Ends buf (λ _ p r. length r + 4 ≡ length rest) (get_u32 (at pre rest))
  get_u32-Ends h = go rest split h
    where
      go :
          (l : List ℕ)
          → pre ++ l ≡ buf
          → 4 ≤ length l
          → Ends buf (λ _ p r. length r + 4 ≡ length l) (get_u32 (at pre l))
      go [] s h = absurd (omega arith)
      go (a ∷ []) s h = absurd (omega arith)
      go (a ∷ b ∷ []) s h = absurd (omega arith)
      go (a ∷ b ∷ c ∷ []) s h = absurd (omega arith)
      go (a ∷ b ∷ c ∷ d ∷ l) s h =
          done _ (pre ++ (a ∷ b ∷ c ∷ d ∷ [])) l (get_u32_lem pre l a b c d)
            (append_assoc pre (a ∷ b ∷ c ∷ d ∷ []) l ∙ s) (omega arith)

-- Moving the cursor on by `n` of the bytes that are there.
pub move_on :
    {A : Type 0} {buf : List ℕ} (a : A) (pre rest : List ℕ) (n : ℕ)
    → pre ++ rest ≡ buf
    → n ≤ length rest
    → {r : Outcome PacketError A × Cursor}
    → r ≡ (ok a, record { buf = pre ++ rest; position = length pre + n })
    → Ends buf (λ _ p l. length l + n ≡ length rest) r
move_on a pre rest n split h e =
    done a (take (length pre + n) (pre ++ rest)) (drop (length pre + n) (pre ++ rest))
      (e ∙ ap (λ c. (ok a, c)) (at_split (pre ++ rest) (length pre + n) fits))
      (take-append-drop (length pre + n) (pre ++ rest) ∙ split)
      (omega (arith, length-drop (length pre + n) (pre ++ rest), length-append pre rest))
  where
    fits : length pre + n ≤ length (pre ++ rest)
    fits = omega (arith, length-append pre rest)

pub read_varint-Ends :
    {buf : List ℕ} (pre rest : List ℕ)
    → pre ++ rest ≡ buf
    → Ends buf (λ _ p r. length r < length rest) (read_varint (at pre rest))
unfolding read_varint get_varint
read_varint-Ends {buf} pre rest split = go (varint_loop 5 (pre ++ rest) (length pre) 0 0 0) refl
  where
    go :
        (r : Outcome PacketError (ℕ × ℕ))
        → varint_loop 5 (pre ++ rest) (length pre) 0 0 0 ≡ r
        → Ends buf (λ _ p r. length r < length rest) (read_varint (at pre rest))
    go (ok (v, n)) e =
        let (more, _, fits) = varint_loop_range 5 (pre ++ rest) (length pre) 0 0 0 v n e in
        Ends-map (λ a p r h. omega (arith, h, more))
          (move_on v pre rest n split (omega (arith, fits, length-append pre rest))
            (rw (e, read_varint, get_varint, ◌>>=◌) refl))
    go (err x) e = rw (e, read_varint, get_varint, ◌>>=◌) (failed x _ refl)
    go panic e = absurd (varint_loop-ne-panic 5 (pre ++ rest) (length pre) 0 0 0 e)

module _ (bytes : BytesCrate) where
  open bytes use {remaining, get_u16, remaining_lem}

  pub get_units-Ends :
      {buf : List ℕ} (n : ℕ) (pre rest : List ℕ)
      → pre ++ rest ≡ buf
      → n * 2 ≤ length rest
      → Ends buf (λ _ p r. length r + n * 2 ≡ length rest) (get_units bytes n (at pre rest))
  unfolding get_units
  get_units-Ends zero pre rest split h = done [] pre rest refl split (omega arith)
  get_units-Ends (suc n) pre rest split h =
      Ends-bind get_u16 _ (at pre rest) (get_u16-Ends bytes _ pre rest split (omega arith))
        λ u p r s q.
          Ends-bind (get_units bytes n) _ (at p r) (get_units-Ends n p r s (omega arith))
            λ us p' r' s' q'. done (u ∷ us) p' r' refl s' (omega arith)

  pub or_restore-Ends :
      {buf : List ℕ} {Q : RustString → List ℕ → List ℕ → Type 0} (start : ℕ) (o : Option RustString)
      (pre rest : List ℕ)
      → pre ++ rest ≡ buf
      → ((s : RustString) → o ≡ some s → Q s pre rest)
      → Ends buf Q (or_restore start o (at pre rest))
  or_restore-Ends start none pre rest split q = failed _ _ refl
  or_restore-Ends start (some s) pre rest split q = done s pre rest refl split (q s refl)

  pub get_utf16_string-Ends :
      {buf : List ℕ} (pre rest : List ℕ)
      → pre ++ rest ≡ buf
      → Ends buf (λ _ p r. length r < length rest) (get_utf16_string bytes (at pre rest))
  unfolding get_utf16_string
  get_utf16_string-Ends {buf} pre rest split = throw-bind bytes buf pre rest split 2 _ λ two.
      Ends-bind get_u16 _ (at pre rest) (get_u16-Ends bytes buf pre rest split two) λ size p r s q.
        rw (remaining_lem p r) (
          ensure-bind bytes buf p r s (ltb (size * 2) (length r)) _ _ λ more.
            throw-bind bytes buf p r s (size * 2) _ λ enough.
              Ends-bind (get_units bytes size) _ (at p r) (get_units-Ends size p r s enough)
                λ us p' r' s' q'.
                  or_restore-Ends (length pre) (decode_utf16 us) p' r' s' (λ _ _. omega arith))
