-- ===== src/Text/Numbers.antt =====
-- What the code uses of fmt and strconv on signed numbers: `%d`, `%-24s`, `%02d` and `Atoi`.
use kube_cure.Prelude.{
  ℕ, zero, suc, ◌+◌, ◌-◌, ◌*◌, ℤ, pos, negsuc, ◌≡◌, refl, Bool, true, false, ◌&&◌, Option, none,
  some, [], ◌∷◌, ◌++◌, leb, ltb, ◌==◌, if◌then◌else◌, length,
}
use kube_cure.Text.{Text, show_nat}

-- `%d`
unfoldable pub show_int : ℤ → Text
show_int (pos n) = show_nat n
show_int (negsuc n) = 45 ∷ show_nat (suc n)

unfoldable pub repeat : ℕ → ℕ → Text
repeat zero c = []
repeat (suc n) c = c ∷ repeat n c

-- `%-24s` for the width 24
unfoldable pub pad_right : ℕ → Text → Text
unfolding repeat
pad_right width s = s ++ repeat (width - length s) 32

-- `%02d` for the width 2
unfoldable pub pad_zero : ℕ → ℕ → Text
unfolding repeat
pad_zero width n = let s = show_nat n in repeat (width - length s) 48 ++ s

abbrev pub is_digit : ℕ → Bool
is_digit c = leb 48 c && leb c 57

unfoldable pub parse_digits : Text → ℕ → Option ℕ
parse_digits [] acc = some acc
parse_digits (c ∷ s) acc = if is_digit c then parse_digits s (acc * 10 + (c - 48)) else none

unfoldable pub unsigned : Text → Option ℕ
unfolding parse_digits
unsigned [] = none
unsigned (c ∷ s) = parse_digits (c ∷ s) 0

abbrev pub int64_limit : ℕ
int64_limit = 9223372036854775808

unfoldable pub positive : Option ℕ → Option ℤ
positive none = none
positive (some n) = if ltb n int64_limit then some (pos n) else none

unfoldable pub negative : Option ℕ → Option ℤ
negative none = none
negative (some zero) = some (pos 0)
negative (some (suc n)) = if ltb n int64_limit then some (negsuc n) else none

-- strconv.Atoi, which is strconv.ParseInt in base 10: an optional sign, digits, and nothing outside
-- int64.
unfoldable pub atoi : Text → Option ℤ
unfolding unsigned positive negative
atoi [] = none
atoi (c ∷ s) = elim (c == 43) [
  | true ↦ positive (unsigned s)
  | false ↦ elim (c == 45) [ true ↦ negative (unsigned s) | false ↦ positive (unsigned (c ∷ s)) ]
]

atoi_tests : (atoi (34 ∷ []) ≡ none) × (atoi (45 ∷ 49 ∷ 50 ∷ []) ≡ some (negsuc 11))
unfolding atoi
atoi_tests = (refl, refl)
