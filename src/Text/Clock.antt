-- ===== src/Text/Clock.antt =====
-- What the code uses of `time`: the layout "2006-01-02T15:04:05Z" of an instant in UTC. An instant
-- counts nanoseconds from the start of year 1, the zero time of Go.
use kube_cure.Prelude.{
  ℕ, ◌+◌, ◌-◌, ◌*◌, ◌/◌, ◌%◌, ◌≡◌, refl, Bool, ◌&&◌, ◌||◌, not, List, [], ◌∷◌, ◌++◌, ltb, ◌==◌,
  if◌then◌else◌,
}
use kube_cure.Text.{Text, codes}
use kube_cure.Text.Numbers.{pad_zero}

is_leap : ℕ → Bool
is_leap year = year % 4 == 0 && (not (year % 100 == 0) || year % 400 == 0)

at_most : ℕ → ℕ → ℕ
at_most n limit = if ltb limit n then limit else n

-- The year of a day, and the day in the year, both from 0. Days go by cycles of 400, 100, 4 years
-- and one year; the last of the four centuries, and the last of the four years, may have a day more.
year_of : ℕ → ℕ × ℕ
unfolding at_most
year_of day =
    let r400 = day % 146097 in
    let n100 = at_most (r400 / 36524) 3 in
    let r100 = r400 - n100 * 36524 in
    let r4 = r100 % 1461 in
    let n1 = at_most (r4 / 365) 3 in
    (400 * (day / 146097) + 100 * n100 + 4 * (r100 / 1461) + n1, r4 - n1 * 365)

month_lengths : Bool → List ℕ
month_lengths leap =
    31 ∷ (if leap then 29 else 28) ∷ 31 ∷ 30 ∷ 31 ∷ 30 ∷ 31 ∷ 31 ∷ 30 ∷ 31 ∷ 30 ∷ 31 ∷ []

-- The month, from the one that `m` numbers on, and the day in it from 1.
find_month : List ℕ → ℕ → ℕ → ℕ × ℕ
find_month [] m day = (m, day + 1)
find_month (n ∷ rest) m day =
    let later = find_month rest (m + 1) (day - n) in if ltb day n then (m, day + 1) else later

unfoldable pub date_text : ℕ → Text
unfolding is_leap year_of month_lengths find_month
date_text day =
    let (year, yday) = year_of day in
    let (month, mday) = find_month (month_lengths (is_leap (year + 1))) 1 yday in
    pad_zero 4 (year + 1) ++ (45 ∷ (pad_zero 2 month ++ (45 ∷ pad_zero 2 mday)))

unfoldable pub clock_text : ℕ → Text
clock_text seconds =
    pad_zero 2 (seconds / 3600)
    ++ (58 ∷ (pad_zero 2 (seconds / 60 % 60) ++ (58 ∷ pad_zero 2 (seconds % 60))))

unfoldable pub format_utc : ℕ → Text
unfolding date_text clock_text
format_utc t =
    let seconds = t / 1000000000 in
    date_text (seconds / 86400) ++ (84 ∷ (clock_text (seconds % 86400) ++ codes "Z"))

format_tests :
    (format_utc 0 ≡ codes "0001-01-01T00:00:00Z")
    × (format_utc 63839707201000000000 ≡ codes "2024-01-01T12:00:01Z")
    × (format_utc 62135596800000000000 ≡ codes "1970-01-01T00:00:00Z")
    × (format_utc 63087412890000000000 ≡ codes "2000-02-29T09:21:30Z")
unfolding format_utc pad_zero kube_cure.Text.show_nat
format_tests = (refl, refl, refl, refl)
