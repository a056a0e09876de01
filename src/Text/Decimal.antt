-- ===== src/Text/Decimal.antt =====
-- strconv: a number that `%d` prints is the number that `Atoi` reads.
use kube_cure.Prelude.{
  ℕ, zero, suc, ◌+◌, ◌*◌, ◌/◌, ◌%◌, ◌≤◌, ◌<◌, ℤ, pos, negsuc, ◌≡◌, ◌≢◌, refl, ap, ◌∙◌, true, false,
  ◌&&◌, inl, inr, some, [], ◌∷◌, arith, leb, ltb, ◌==◌, ltb→lt, ltb_false→le, Bool-cases,
}
use kube_cure.Text.{Text, digits, show_nat}
use kube_cure.Text.Numbers.{show_int, atoi, unsigned, parse_digits, positive, negative, int64_limit}

parse_digit :
    (d acc : ℕ) (s : Text)
    → d < 10
    → parse_digits ((48 + d) ∷ s) acc ≡ parse_digits s (acc * 10 + d)
unfolding parse_digits
parse_digit d acc s h = rw (digit_test d h) (ap (λ e. parse_digits s (acc * 10 + e)) (omega arith))
  where
    digit_test : (d : ℕ) → d < 10 → (leb 48 (48 + d) && leb (48 + d) 57) ≡ true
    digit_test d h = ground arith

parse-digits : (f n : ℕ) (acc : Text) → n < f → parse_digits (digits f n acc) 0 ≡ parse_digits acc n
unfolding digits
parse-digits zero n acc h = elim h [ ]
parse-digits (suc f) n acc h = elim (Bool-cases (ltb n 10)) [
  | inl small ↦
      rw small (parse_digit n 0 acc (ltb→lt n 10 small) ∙ ap (parse_digits acc) (omega arith))
  | inr more ↦ rw more (
      parse-digits f (n / 10) ((48 + n % 10) ∷ acc) (omega (arith, ltb_false→le n 10 more))
      ∙ parse_digit (n % 10) (n / 10) acc (omega arith)
      ∙ ap (parse_digits acc) (omega arith))
]

-- A printed number starts with a digit.
abbrev StartsWithDigit : Text → Type 0
StartsWithDigit [] = Unit
StartsWithDigit (c ∷ s) = 48 ≤ c

digits-StartsWithDigit :
    (f n : ℕ) (acc : Text) → StartsWithDigit acc → StartsWithDigit (digits f n acc)
unfolding digits
digits-StartsWithDigit zero n acc h = h
digits-StartsWithDigit (suc f) n acc h = elim (Bool-cases (ltb n 10)) [
  | inl small ↦ rw small (omega arith)
  | inr more ↦ rw more (digits-StartsWithDigit f (n / 10) ((48 + n % 10) ∷ acc) (omega arith))
]

unsigned-of : (s : Text) (n : ℕ) → s ≢ [] → parse_digits s 0 ≡ some n → unsigned s ≡ some n
unfolding unsigned
unsigned-of [] n h e = absurd (h refl)
unsigned-of (c ∷ s) n h e = e

digits-ne-nil : (f n : ℕ) (c : ℕ) (acc : Text) → digits f n (c ∷ acc) ≢ []
unfolding digits
digits-ne-nil zero n c acc h = cc
digits-ne-nil (suc f) n c acc h = elim (Bool-cases (ltb n 10)) [
  | inl small ↦ ground arith
  | inr more ↦ digits-ne-nil f (n / 10) (48 + n % 10) (c ∷ acc) (ground arith)
]

pub show_nat-ne-nil : (n : ℕ) → show_nat n ≢ []
unfolding show_nat digits
show_nat-ne-nil n h = elim (Bool-cases (ltb n 10)) [
  | inl small ↦ ground arith
  | inr more ↦ digits-ne-nil n (n / 10) (48 + n % 10) [] (ground arith)
]

unsigned-show_nat : (n : ℕ) → unsigned (show_nat n) ≡ some n
unfolding show_nat parse_digits
unsigned-show_nat n =
    unsigned-of (show_nat n) n (show_nat-ne-nil n) (parse-digits (suc n) n [] (omega arith))

-- A text that starts with a digit has no sign.
atoi-unsigned : (s : Text) → s ≢ [] → StartsWithDigit s → atoi s ≡ positive (unsigned s)
unfolding atoi
atoi-unsigned [] h d = absurd (h refl)
atoi-unsigned (c ∷ s) h d =
    let no_plus : (c == 43) ≡ false = ground arith in
    let no_minus : (c == 45) ≡ false = ground arith in ground arith

abbrev pub FitsInt64 : ℤ → Type 0
FitsInt64 (pos n) = n < int64_limit
FitsInt64 (negsuc n) = n < int64_limit

pub atoi-show_int : (z : ℤ) → FitsInt64 z → atoi (show_int z) ≡ some z
unfolding show_int positive negative atoi show_nat
atoi-show_int (pos n) h =
    atoi-unsigned (show_nat n) (show_nat-ne-nil n) (digits-StartsWithDigit (suc n) n [] tt)
    ∙ rw (unsigned-show_nat n) (ground arith)
atoi-show_int (negsuc n) h = rw (unsigned-show_nat (suc n)) (ground arith)
