-- ===== src/Prelude/Ids.antt =====
-- Sets of ids, as tests.
use Prim.Native.Nat.{ℕ}
use mathlib.Core.Bool.{Bool}
use craftip_crosscompiletest.Prelude.Tests.{◌==◌, if◌then◌else◌}

abbrev pub Ids : Type 0
Ids = ℕ → Bool

-- The set with the id put in or taken out.
abbrev pub set_to : Bool → ℕ → Ids → Ids
set_to b i s j = if i == j then b else s j
