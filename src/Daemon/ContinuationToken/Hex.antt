-- ===== src/Daemon/ContinuationToken/Hex.antt =====
-- src/daemon/control/BrowseContinuationTokenCodec.cpp: decoding takes the encoding back.
use btrfs_backup.Common.{
  ℕ, ◌*◌, ◌/◌, ◌%◌, ◌<◌, All, length, [], ◌∷◌, Text, some, ◌≡◌, refl, ap, arith,
}
use btrfs_backup.Core.Errors.{ok}
use btrfs_backup.Daemon.ContinuationToken.{hex_digit, hex_encode, hex_value, hex_decode}

-- The characters of a text are bytes.
abbrev pub IsBytes : Text → Type 0
IsBytes = All (λ c. c < 256)

hex_value-hex_digit : (n : ℕ) → n < 16 → hex_value (hex_digit n) ≡ some n
unfolding hex_value hex_digit
hex_value-hex_digit n h = ground arith

pub hex_decode-hex_encode :
    (value : Text) → IsBytes value → hex_decode (hex_encode value) ≡ ok value
unfolding hex_decode hex_encode
hex_decode-hex_encode [] h = refl
hex_decode-hex_encode (c ∷ value) h =
    rw
      (
        hex_value-hex_digit (c / 16) (omega (arith, h.0)),
        hex_value-hex_digit (c % 16) (omega arith),
        hex_decode-hex_encode value h.1,
      )
      (ap (λ (n : ℕ). ok (n ∷ value)) (omega arith))

pub length-hex_encode : (value : Text) → length (hex_encode value) ≡ 2 * length value
unfolding hex_encode
length-hex_encode [] = refl
length-hex_encode (c ∷ value) = omega (arith, length-hex_encode value)
