-- ===== src/Base/Decimal.antt =====
-- Python's `str(n)` of a number that is not negative.
use Prim.Native.Nat.{ℕ, zero, suc, ◌+◌, ◌/◌, ◌%◌}
use mathlib.Core.List.{[], ◌∷◌, ◌++◌}
use openmux_server.Base.Tests.{ltb, if◌then◌else◌}
use openmux_server.Base.Texts.{Text}

-- The digits of a number; it has fewer than its value and one.
unfoldable pub digits_of : ℕ → ℕ → Text
digits_of zero n = []
digits_of (suc f) n =
    let more = digits_of f (n / 10) in
    if ltb n 10 then (48 + n) ∷ [] else more ++ (48 + n % 10) ∷ []

unfoldable pub decimal : ℕ → Text
decimal n = digits_of (suc n) n
