-- ===== src/Questions/Ids/Digits.antt =====
-- The digits of a number: `str` and the chunks that `_format_positive_ascii_decimal` of
-- packages/nauro-core/src/nauro_core/questions.py collects.
use nauro.Base.{
  ℕ, zero, suc, ◌+◌, ◌-◌, ◌*◌, ◌/◌, ◌%◌, ◌≤◌, ◌≡◌, refl, sym, ap, ◌∙◌, false, List, [], ◌∷◌, map,
  codes, nat_beq, nat_beq_iff, arith, Bool-cases, inl, inr,
}
use nauro.Questions.Ids.{digits_before, decimal, read_digits}

-- the number that digits of a base write after the number `n`
abbrev pub value_after : ℕ → ℕ → List ℕ → ℕ
value_after base n [] = n
value_after base n (d ∷ ds) = value_after base (n * base + d) ds

module _ (base : ℕ) (whole : (n : ℕ) → n / base * base + n % base ≡ n)
    (smaller : (n fuel : ℕ) → n ≤ suc fuel → nat_beq n 0 ≡ false → n / base ≤ fuel) where
  value-digits_before :
      (fuel n : ℕ) (more : List ℕ)
      → n ≤ fuel
      → value_after base 0 (digits_before base fuel n more) ≡ value_after base n more
  unfolding digits_before
  value-digits_before zero n more h =
      let none_left : 0 ≡ n = omega arith in ap (λ m. value_after base m more) none_left
  value-digits_before (suc fuel) n more h = elim (Bool-cases (nat_beq n 0)) [
    | inl nothing ↦
        let none_left : 0 ≡ n = sym ((nat_beq_iff n 0).0 nothing) in
        rw nothing (ap (λ m. value_after base m more) none_left)
    | inr some_left ↦ rw some_left (
        value-digits_before fuel (n / base) (n % base ∷ more) (smaller n fuel h some_left)
        ∙ ap (λ m. value_after base m more) (whole n))
  ]

read_digits-map : (n : ℕ) (ds : List ℕ) → read_digits n (map (λ d. 48 + d) ds) ≡ value_after 10 n ds
unfolding read_digits
read_digits-map n [] = refl
read_digits-map n (d ∷ ds) =
    let digit : n * 10 + (48 + d) - 48 ≡ n * 10 + d = omega arith in
    ap (λ m. read_digits m (map (λ e. 48 + e) ds)) digit ∙ read_digits-map (n * 10 + d) ds

zero_digit : read_digits 0 (codes "0") ≡ 0
unfolding read_digits
zero_digit = refl

-- The digits of a number, read one by one, give the number.
pub read_digits-decimal : (n : ℕ) → read_digits 0 (decimal n) ≡ n
unfolding decimal
read_digits-decimal n = elim (Bool-cases (nat_beq n 0)) [
  | inl nothing ↦ rw nothing (zero_digit ∙ sym ((nat_beq_iff n 0).0 nothing))
  | inr some_left ↦ rw some_left (
      read_digits-map 0 (digits_before 10 n n [])
      ∙ value-digits_before 10 (λ m. omega arith) (λ m fuel h left. omega arith) n n []
          (omega arith))
]
