-- ===== src/Shared/Cursor/Methods.antt =====
-- `get_utf8_string` and `match_bytes` of shared/src/cursor.rs: they slice the buffer directly, and
-- stay inside it.
use craftip_crosscompiletest.Prelude.{
  ℕ, ◌+◌, ◌-◌, ◌≤◌, ◌<◌, ◌≡◌, refl, ◌∙◌, inl, inr, List, [], ◌∷◌, ◌++◌, Bool, true, false, ok, err,
  panic, Outcome, length, get_elem?, take, drop, ltb, arith, length-append, get_elem?_ne_none,
  take-append-drop, length-drop, Option-cases, Bool-cases, ltb_false→le, ◌≢◌,
}
use craftip_crosscompiletest.Shared.Datatypes.{PacketError, as_usize}
use craftip_crosscompiletest.Shared.Bytes.{BytesCrate, at}
use craftip_crosscompiletest.Shared.Cursor.{
  continue, advance_if, slice, bytes_match, read_varint, get_utf8_string, match_bytes,
}
use craftip_crosscompiletest.Shared.Cursor.Runs.{
  Ends, done, failed, Ends-bind, Ends-map, at_split, throw-bind, move_on, read_varint-Ends,
  or_restore-Ends,
}

slice_ok :
    (buf : List ℕ) (p n : ℕ)
    → p + n ≤ length buf
    → slice buf p (p + n) ≡ ok (take (p + n - p) (drop p buf))
slice_ok buf p n h = ground arith

-- The loop of `match_bytes` indexes inside the buffer.
bytes_match-ne-panic :
    (buf : List ℕ) (i : ℕ) (bs : List ℕ) → i + length bs ≤ length buf → bytes_match buf i bs ≢ panic
unfolding bytes_match
bytes_match-ne-panic buf i [] h e = cc
bytes_match-ne-panic buf i (b ∷ bs) h e = elim (Option-cases (get_elem? buf i)) [
  | inl q ↦ get_elem?_ne_none buf i (omega arith) q
  | inr (a, q) ↦ ground (arith, bytes_match-ne-panic buf (i + 1) bs (omega arith))
]

bytes_match-ne-err :
    (buf : List ℕ) (i : ℕ) (bs : List ℕ) (x : PacketError) → bytes_match buf i bs ≢ err x
unfolding bytes_match
bytes_match-ne-err buf i [] x e = cc
bytes_match-ne-err buf i (b ∷ bs) x e = elim (Option-cases (get_elem? buf i)) [
  | inl q ↦ ground arith
  | inr (a, q) ↦ ground (arith, bytes_match-ne-err buf (i + 1) bs x)
]

module _ {buf : List ℕ} (pre rest : List ℕ) (split : pre ++ rest ≡ buf) where
  -- After the comparison: the cursor moves on only if all bytes were equal.
  advance-Ends :
      (n : ℕ) (o : Outcome PacketError Bool)
      → n ≤ length rest
      → o ≢ panic
      → Ends buf
          (λ same _ r. same ≡ true → length r + n ≡ length rest)
          (continue o (advance_if n) (at pre rest))
  advance-Ends n (ok false) h k = done false pre rest refl split (λ h. cc)
  advance-Ends n (ok true) h k = Ends-map (λ same p r q _. q) (move_on true pre rest n split h refl)
  advance-Ends n (err x) h k = failed x _ refl
  advance-Ends n panic h k = absurd (k refl)

module _ (bytes : BytesCrate) {buf : List ℕ} (pre rest : List ℕ) (split : pre ++ rest ≡ buf) where
  open bytes use {remaining_lem}

  pub match_bytes-Ends :
      (expected : List ℕ)
      → Ends buf
          (λ same _ r. same ≡ true → length r + length expected ≡ length rest)
          (match_bytes bytes expected (at pre rest))
  unfolding match_bytes
  match_bytes-Ends expected = elim (Bool-cases (ltb (length rest) (length expected))) [
    | inl short ↦ rw (remaining_lem pre rest, short) (done false pre rest refl split (λ h. cc))
    | inr enough ↦
        let fits : length expected ≤ length rest = ltb_false→le _ _ enough in
        rw (remaining_lem pre rest, enough)
          (advance-Ends pre rest split (length expected)
            (bytes_match (pre ++ rest) (length pre) expected) fits
            (bytes_match-ne-panic (pre ++ rest) (length pre) expected
              (omega (arith, fits, length-append pre rest))))
  ]

  pub get_utf8_string-Ends :
      Ends buf (λ _ _ r. length r < length rest) (get_utf8_string bytes (at pre rest))
  unfolding get_utf8_string
  get_utf8_string-Ends =
      Ends-bind read_varint _ (at pre rest) (read_varint-Ends pre rest split) λ value p r s q.
        throw-bind bytes buf p r s (as_usize value) _ λ enough.
          let fits : length p + as_usize value ≤ length (p ++ r) =
            omega (arith, enough, length-append p r) in
          rw (slice_ok (p ++ r) (length p) (as_usize value) fits) (
            rw (at_split (p ++ r) (length p + as_usize value) fits) (
              or_restore-Ends bytes (length pre) _ (take (length p + as_usize value) (p ++ r))
                (drop (length p + as_usize value) (p ++ r))
                (take-append-drop (length p + as_usize value) (p ++ r) ∙ s)
                (λ _ _.
                  omega
                    (arith, length-drop (length p + as_usize value) (p ++ r), length-append p r))))
