-- ===== src/Sync/Names/Laws.antt =====
-- The number of a name that a renumbering makes: packages/nauro/src/nauro/sync/collisions.py.
use nauro.Base.{
  ℕ, zero, suc, ◌+◌, ◌-◌, ◌/◌, ◌%◌, ◌<◌, ◌≡◌, ◌≢◌, refl, sym, ap, ◌∙◌, true, false, List, [], ◌∷◌,
  ◌++◌, map, some, Text, codes, nat_beq, length, all, starts_with, text_eq, arith, Bool-cases, inl,
  inr, All, list_beq, length-append,
}
use nauro.Questions.Ids.{decimal, digits_before, repeat, is_digit, read_digits}
use nauro.Questions.Ids.Digits.{read_digits-decimal}
use nauro.Sync.Names.{
  Unicode, remove_suffix, padded_number, leading_digits, extract_decision_number, without_prefix,
  number_of,
}

digits_before-small :
    (fuel n : ℕ) (more : List ℕ)
    → All (λ d. d < 10) more
    → All (λ d. d < 10) (digits_before 10 fuel n more)
unfolding digits_before
digits_before-small zero n more h = h
digits_before-small (suc fuel) n more h = elim (Bool-cases (nat_beq n 0)) [
  | inl done ↦ rw done h
  | inr left ↦ rw left (digits_before-small fuel (n / 10) (n % 10 ∷ more) (omega arith, h))
]

all_digits : (ds : List ℕ) → All (λ d. d < 10) ds → all is_digit (map (λ d. 48 + d) ds) ≡ true
unfolding all
all_digits [] h = refl
all_digits (d ∷ ds) h = ground (arith, all_digits ds h.1)

pub decimal-digits : (n : ℕ) → all is_digit (decimal n) ≡ true
unfolding decimal
decimal-digits n = elim (Bool-cases (nat_beq n 0)) [
  | inl nothing ↦ rw nothing (unfold all in refl)
  | inr left ↦ rw left (all_digits (digits_before 10 n n []) (digits_before-small n n [] tt))
]

-- zeros before a number change neither its value nor that it is digits
padded_zeros :
    (k : ℕ) (w : Text)
    → (all is_digit w ≡ true)
    → (all is_digit (repeat k b'0' ++ w) ≡ true)
      × (read_digits 0 (repeat k b'0' ++ w) ≡ read_digits 0 w)
unfolding repeat all read_digits
padded_zeros zero w h = (h, refl)
padded_zeros (suc k) w h = padded_zeros k w h

pub padded_number-digits : (n : ℕ) → all is_digit (padded_number n) ≡ true
unfolding padded_number
padded_number-digits n = (padded_zeros (3 - length (decimal n)) (decimal n) (decimal-digits n)).0

pub read_digits-padded_number : (n : ℕ) → read_digits 0 (padded_number n) ≡ n
unfolding padded_number
read_digits-padded_number n =
    (padded_zeros (3 - length (decimal n)) (decimal n) (decimal-digits n)).1 ∙ read_digits-decimal n

-- What the standard library documents of ASCII digits and of the hyphen.
pub record PlainDigits (unicode : Unicode) : Type 0 where
  pub lower_digit :
      (c : ℕ) (s : Text)
      → is_digit c ≡ true
      → starts_with (codes "d") (unicode.lower (c ∷ s)) ≡ false
  pub str_digit : (c : ℕ) → is_digit c ≡ true → unicode.is_str_digit c ≡ true
  pub hyphen_not_decimal : unicode.is_decimal b'-' ≡ false
  pub hyphen_not_digit : unicode.is_str_digit b'-' ≡ false

remove_suffix-digits :
    (w t : Text)
    → all is_digit w ≡ true
    → remove_suffix (codes ".md") (w ++ b'-' ∷ t) ≡ w ++ b'-' ∷ remove_suffix (codes ".md") t
unfolding remove_suffix all text_eq list_beq
remove_suffix-digits [] t h = refl
remove_suffix-digits (c ∷ w) t h = ground (arith, remove_suffix-digits w t)

leading_digits-digits :
    (unicode : Unicode) (w t : Text)
    → unicode.is_decimal b'-' ≡ false
    → all is_digit w ≡ true
    → leading_digits unicode (w ++ b'-' ∷ t) ≡ some w
unfolding leading_digits all
leading_digits-digits unicode [] t k h = rw k refl
leading_digits-digits unicode (c ∷ w) t k h = ground (arith, leading_digits-digits unicode w t k)

starts_with-d :
    (s : Text) → starts_with (codes "d") s ≡ false → starts_with (codes "decision-") s ≡ false
unfolding starts_with
starts_with-d [] h = refl
starts_with-d (c ∷ s) h = ground arith

without_prefix-digit :
    (unicode : Unicode)
    → PlainDigits unicode
    → (c : ℕ) (s : Text) → is_digit c ≡ true
    → without_prefix unicode (c ∷ s) ≡ c ∷ s
without_prefix-digit unicode plain c s h =
    let low = plain.lower_digit c s h in
    rw (starts_with-d (unicode.lower (c ∷ s)) low) (rw low refl)

-- a name of digits, a hyphen and more claims the number of the digits
pub extract-digits :
    (unicode : Unicode)
    → PlainDigits unicode
    → (w t : Text) → all is_digit w ≡ true
    → w ≢ []
    → extract_decision_number unicode (w ++ b'-' ∷ t) ≡ some (read_digits 0 w)
unfolding extract_decision_number
extract-digits unicode plain [] t h n = absurd (n refl)
extract-digits unicode plain (c ∷ w) t h n =
    let rest = remove_suffix (codes ".md") t in
    let digit : is_digit c ≡ true = unfold all in ground arith in
    ap (λ x. number_of (leading_digits unicode (without_prefix unicode x)))
      (remove_suffix-digits (c ∷ w) t h)
    ∙ ap (λ x. number_of (leading_digits unicode x))
        (without_prefix-digit unicode plain c (w ++ b'-' ∷ rest) digit)
    ∙ ap number_of (leading_digits-digits unicode (c ∷ w) rest plain.hyphen_not_decimal h)

filled-ne_nil : (w : Text) → repeat (3 - length w) b'0' ++ w ≢ []
unfolding repeat
filled-ne_nil [] e = cc
filled-ne_nil (c ∷ w) e =
    let fill = repeat (3 - length (c ∷ w)) b'0' in
    let none_left : length fill + suc (length w) ≡ 0 =
      sym (length-append fill (c ∷ w)) ∙ ap length e in
    omega arith

pub padded_number-ne_nil : (n : ℕ) → padded_number n ≢ []
unfolding padded_number
padded_number-ne_nil n = filled-ne_nil (decimal n)

-- The name that a renumbering makes claims the number that it was made for.
pub extract-padded_number :
    (unicode : Unicode)
    → PlainDigits unicode
    → (n : ℕ) (t : Text) → extract_decision_number unicode (padded_number n ++ b'-' ∷ t) ≡ some n
extract-padded_number unicode plain n t =
    extract-digits unicode plain (padded_number n) t (padded_number-digits n)
      (padded_number-ne_nil n)
    ∙ ap some (read_digits-padded_number n)
