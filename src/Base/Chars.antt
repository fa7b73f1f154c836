-- ===== src/Base/Chars.antt =====
-- `<cctype>` in the "C" locale, on the values of an unsigned char.
use Prim.Native.Nat.{ℕ, ◌+◌}
use mathlib.Core.Bool.{Bool, ◌&&◌, ◌||◌}
use pod_installer.Base.Tests.{leb, ◌==◌, if◌then◌else◌}

abbrev pub within : ℕ → ℕ → ℕ → Bool
within lo hi c = leb lo c && leb c hi

unfoldable pub is_digit : ℕ → Bool
is_digit c = within b'0' b'9' c

unfoldable pub is_alnum : ℕ → Bool
unfolding is_digit
is_alnum c = is_digit c || within b'A' b'Z' c || within b'a' b'z' c

-- space, \t \n \v \f \r
unfoldable pub is_space : ℕ → Bool
is_space c = c == b' ' || within 9 13 c

unfoldable pub to_lower : ℕ → ℕ
to_lower c = if within b'A' b'Z' c then c + 32 else c

-- `c < 0x20`
abbrev pub is_control : ℕ → Bool
is_control c = leb c 31
