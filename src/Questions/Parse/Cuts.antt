-- ===== src/Questions/Parse/Cuts.antt =====
-- Where the lines of entries are cut: packages/nauro-core/src/nauro_core/questions.py.
use nauro.Base.{
  ℕ, ◌≡◌, refl, sym, ap, ◌∙◌, true, false, [], ◌∷◌, ◌++◌, Option, some, Text, codes, is_space,
  starts_with, cut, lstrip_by, all, arith, Bool-cases, inl, inr, nat_beq, ◌==◌, text_eq, nat_eq,
  contains, Free,
}
use nauro.Questions.Ids.{decimal, is_digit, read_digits}
use nauro.Questions.Ids.Digits.{read_digits-decimal}
use nauro.Questions.Parse.{cut_text, resolved_prefix_sep}

pub cut-closed : (w t : Text) → Free b']' w → cut b']' (w ++ b']' ∷ t) ≡ (w, some t)
unfolding cut contains
cut-closed [] t h = refl
cut-closed (c ∷ w) t h = elim (Bool-cases (nat_beq c b']')) [
  | inl e ↦ ground (arith, h, e)
  | inr e ↦
      rw e (ap (λ (p : Text × Option Text). (c ∷ p.0, p.1)) (cut-closed w t (ground (arith, h, e))))
]

-- the digits before the separator
pub cut_text-digits :
    (w t : Text)
    → all is_digit w ≡ true
    → cut_text resolved_prefix_sep (w ++ (resolved_prefix_sep ++ t)) ≡ some (w, t)
unfolding cut_text all starts_with
cut_text-digits [] t h = refl
cut_text-digits (c ∷ w) t h =
    let apart : nat_beq b' ' c ≡ false = ground (arith, h) in
    rw apart (rw (cut_text-digits w t (ground (arith, h))) refl)

decimal_zero : decimal 0 ≡ codes "0"
unfolding decimal
decimal_zero = refl

read_nothing : read_digits 0 [] ≡ 0
unfolding read_digits
read_nothing = refl

pub decimal-filled : (n : ℕ) → (decimal n == []) ≡ false
decimal-filled n = elim (Bool-cases (decimal n == [])) [
  | inr e ↦ e
  | inl e ↦
      let nothing = (text_eq.beq_iff (decimal n) []).0 e in
      let is_zero = sym (read_digits-decimal n) ∙ ap (read_digits 0) nothing ∙ read_nothing in
      let zero_text = sym decimal_zero ∙ ap decimal (sym is_zero) ∙ nothing in cc
]

pub lstrip-blank : (s : Text) → lstrip_by is_space (b' ' ∷ s) ≡ lstrip_by is_space s
unfolding lstrip_by is_space
lstrip-blank s = refl

pub lstrip-bracket : (s : Text) → lstrip_by is_space (b'[' ∷ s) ≡ b'[' ∷ s
unfolding lstrip_by is_space
lstrip-bracket s = refl
