-- ===== src/Common/Decimal.antt =====
-- Numbers in base ten, as `std::to_string` and `std::setw` with a fill of zeros print them.
use Prim.Native.Nat.{ℕ, zero, suc, ◌+◌, ◌-◌, ◌/◌, ◌%◌}
use mathlib.Core.List.{[], ◌∷◌, ◌++◌}
use btrfs_backup.Common.Tests.{ltb, if◌then◌else◌}
use btrfs_backup.Common.Texts.{Text}
use btrfs_backup.Common.Lists.{length}

unfoldable pub replicate : ℕ → ℕ → Text
replicate zero c = []
replicate (suc n) c = c ∷ replicate n c

-- A number has at most as many digits as the fuel, which is one more than the number.
unfoldable pub digits_onto : ℕ → ℕ → Text → Text
digits_onto zero n rest = rest
digits_onto (suc fuel) n rest =
    let longer = digits_onto fuel (n / 10) ((b'0' + n % 10) ∷ rest) in
    if ltb n 10 then (b'0' + n) ∷ rest else longer

unfoldable pub decimal_text : ℕ → Text
unfolding digits_onto
decimal_text n = digits_onto (suc n) n []

-- `setfill('0') << setw(width)`: more digits than the width are all printed.
unfoldable pub padded : ℕ → ℕ → Text
unfolding decimal_text replicate
padded width n = replicate (width - length (decimal_text n)) b'0' ++ decimal_text n
