-- ===== src/Word/Wrap.antt =====
-- Values that fit are kept, and every result fits.
use joy.Prelude.{◌<◌, ◌≡◌, arith}
use joy.Prelude.Int.{ℤ, pos, negsuc}
use joy.Word.{int64, int32}

-- The range of `int64_t`.
abbrev pub IsInt64 : ℤ → Type 0
IsInt64 (pos n) = n < 9223372036854775808
IsInt64 (negsuc n) = n < 9223372036854775808

pub int64-IsInt64 : (z : ℤ) → IsInt64 (int64 z)
unfolding int64
int64-IsInt64 (pos n) = ground arith
int64-IsInt64 (negsuc n) = ground arith

pub int64_of_fits : (z : ℤ) → IsInt64 z → int64 z ≡ z
unfolding int64
int64_of_fits (pos n) h = ground arith
int64_of_fits (negsuc n) h = ground arith

abbrev pub IsInt32 : ℤ → Type 0
IsInt32 (pos n) = n < 2147483648
IsInt32 (negsuc n) = n < 2147483648

pub int32_of_fits : (z : ℤ) → IsInt32 z → int32 z ≡ z
unfolding int32
int32_of_fits (pos n) h = ground arith
int32_of_fits (negsuc n) h = ground arith
