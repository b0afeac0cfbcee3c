-- ===== src/Printing.antt =====
-- What an ostream writes of a number, as the reporters of src/reporter.cpp use it: `<<` of an
-- unsigned and of a signed integer, and std::hex. Doubles are printed by the platform.
pub mod Numerals
use mem_sentry.Base.{ℕ, zero, suc, ◌/◌, ◌%◌, List, [], ◌∷◌, ◌++◌, ◌==◌, if◌then◌else◌}
use mem_sentry.Base.Int.{ℤ, pos, negsuc}
use mem_sentry.Types.{Text}
use mem_sentry.Sampling.{Double}
use mem_sentry.StackTrace.{hex_digit}

-- The digits of a number in some base, before what is there already. A number of 64 bits has at most
-- 20 decimal and 16 hexadecimal digits.
unfoldable pub digits : ℕ → ℕ → ℕ → Text → Text
digits base zero n done = done
digits base (suc fuel) n done =
    let longer = digits base fuel (n / base) (hex_digit (n % base) ∷ done) in
    if n / base == 0 then hex_digit (n % base) ∷ done else longer

unfoldable pub decimal : ℕ → Text
unfolding digits
decimal n = digits 10 20 n []

unfoldable pub hexadecimal : ℕ → Text
unfolding digits
hexadecimal n = digits 16 16 n []

unfoldable pub signed : ℤ → Text
unfolding decimal
signed (pos n) = decimal n
signed (negsuc n) = 45 ∷ decimal (suc n)

-- What `<<` writes of a double, in the default format and in std::fixed with some precision.
pub record Printer : Type 0 where
  pub general : Double → Text
  pub fixed : ℕ → Double → Text

-- One `<<` after another.
abbrev pub write : List Text → Text
write [] = []
write (t ∷ ts) = t ++ write ts
