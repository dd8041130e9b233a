-- ===== src/Gui/Port.antt =====
-- What a click on `Connect` makes of the local address (client-gui/src/main.rs): `parse::<u16>` of the
-- standard library, and the text of the address.
pub mod Admitted
pub mod Name
use craftip_crosscompiletest.Prelude.{
  ℕ, zero, suc, ◌+◌, ◌-◌, ◌*◌, ◌/◌, ◌%◌, List, [], ◌∷◌, ◌++◌, Option, none, some, Bool, true, false,
  ltb, leb, ◌&&◌, bytes_of, if◌then◌else◌, ◌==◌,
}
use craftip_crosscompiletest.Shared.Utf8.{RustString}

-- `'0'..='9'`
abbrev pub is_digit : ℕ → Bool
is_digit c = leb 48 c && ltb c 58

-- The digits behind the value `n`, as long as the value fits 16 bits.
unfoldable pub digits_from : ℕ → List ℕ → Option ℕ
digits_from n [] = some n
digits_from n (c ∷ cs) =
    let further = digits_from (n * 10 + (c - 48)) cs in
    if is_digit c && ltb (n * 10 + (c - 48)) 65536 then further else none

-- A sign is allowed in front, but not alone.
abbrev pub behind_sign : List ℕ → Option ℕ
behind_sign [] = none
behind_sign (c ∷ cs) = digits_from 0 (c ∷ cs)

unfoldable pub parse_u16 : RustString → Option ℕ
parse_u16 [] = none
parse_u16 (c ∷ cs) = if c == 43 then behind_sign cs else digits_from 0 (c ∷ cs)

-- The decimal text of a number below 10 ^ k.
unfoldable pub decimal : (k : ℕ) → ℕ → RustString
decimal zero n = []
decimal (suc k) n =
    let higher = decimal k (n / 10) in
    if ltb n 10 then (48 + n) ∷ [] else higher ++ ((48 + n % 10) ∷ [])

abbrev pub with_localhost : Option ℕ → RustString → RustString
with_localhost none local = local
with_localhost (some port) local = bytes_of "localhost:" ++ decimal 5 port

-- The `match` on `server.local.parse::<u16>()`.
unfoldable pub localhost : RustString → RustString
localhost local = with_localhost (parse_u16 local) local
