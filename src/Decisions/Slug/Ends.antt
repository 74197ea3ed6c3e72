-- ===== src/Decisions/Slug/Ends.antt =====
-- The last character of a slug: packages/nauro-core/src/nauro_core/operations/_decision_transitions.py.
use nauro.Base.{
  ℕ, zero, suc, ◌≤◌, ◌≡◌, refl, sym, Bool, true, false, not, ◌&&◌, ◌||◌, ◌∙◌, ap, [], ◌∷◌, Text,
  nat_beq, nat_beq_iff, length, take, contains, rstrip_by, if◌then◌else◌, arith, Bool-cases, inl,
  inr, nat_eq,
}
use nauro.Sync.Names.{Unicode}
use nauro.Decisions.Slug.{dash, before_last}
use nauro.Decisions.Slug.Laws.{spaced}

-- no dash at the end; the flag says that one came before
unfoldable pub closed : Bool → Text → Bool
closed after_dash [] = not after_dash
closed after_dash (c ∷ s) = closed (nat_beq dash c) s

closed-rstrip_tail :
    (c : ℕ) (s : Text)
    → closed false s ≡ true
    → closed false (elim s [ [] ↦ if nat_beq dash c then [] else c ∷ [] | x ∷ r ↦ c ∷ x ∷ r ])
      ≡ true
unfolding closed
closed-rstrip_tail c [] h = ground arith
closed-rstrip_tail c (x ∷ r) h = h

pub closed-rstrip : (s : Text) → closed false (rstrip_by (nat_beq dash) s) ≡ true
unfolding rstrip_by
closed-rstrip [] = unfold closed in refl
closed-rstrip (c ∷ s) = closed-rstrip_tail c (rstrip_by (nat_beq dash) s) (closed-rstrip s)

nat_beq_sym : (m n : ℕ) → nat_beq m n ≡ nat_beq n m
nat_beq_sym m n = elim (Bool-cases (nat_beq m n)) [
  | inl e ↦ e ∙ sym ((nat_beq_iff n m).1 (sym ((nat_beq_iff m n).0 e)))
  | inr e ↦ elim (Bool-cases (nat_beq n m)) [
    | inl o ↦ (nat_beq_iff m n).1 (sym ((nat_beq_iff n m).0 o)) ∙ sym o
    | inr o ↦ e ∙ sym o
  ]
]

and_false : (b : Bool) → (b && false) ≡ false
and_false true = refl
and_false false = refl

or_true : (b : Bool) → (b || true) ≡ true
or_true true = refl
or_true false = refl

contains-of_open : (s : Text) → closed false s ≡ false → contains s dash ≡ true
unfolding closed contains
contains-of_open [] h = ground arith
contains-of_open (c ∷ s) h = elim (Bool-cases (nat_beq dash c)) [
  | inl e ↦ rw (nat_beq_sym c dash ∙ e) refl
  | inr e ↦ rw (contains-of_open s (rw (← ap (λ b. closed b s) e) h)) (or_true (nat_beq c dash))
]

-- the character in front of a dash, or that is none, stays
before_last_keeps :
    (c : ℕ) (s : Text)
    → (nat_beq c dash && not (contains s dash)) ≡ false
    → before_last dash (c ∷ s) ≡ c ∷ before_last dash s
unfolding before_last
before_last_keeps c s h = rw h refl

before_last_drops :
    (c : ℕ) (s : Text)
    → (nat_beq c dash && not (contains s dash)) ≡ true
    → before_last dash (c ∷ s) ≡ []
unfolding before_last
before_last_drops c s h = rw h refl

pub length-before_last_open :
    (d : Bool) (c : ℕ) (s : Text)
    → closed d (c ∷ s) ≡ false
    → length (before_last dash (c ∷ s)) ≡ length s
length-before_last_open d c [] h =
    ap length (
      before_last_drops c []
        (unfold contains closed in rw (nat_beq_sym c dash) (ground (arith, h))))
length-before_last_open d c (x ∷ s) h =
    let there = contains-of_open (x ∷ s) (unfold closed in h) in
    rw (before_last_keeps c (x ∷ s) (rw there (and_false (nat_beq c dash))))
      (omega (arith, length-before_last_open false x s (unfold closed in h)))

pub length-take_long : (n : ℕ) (s : Text) → n ≤ length s → length (take n s) ≡ n
length-take_long zero s h = refl
length-take_long (suc n) [] h = omega arith
length-take_long (suc n) (c ∷ s) h = omega (arith, length-take_long n s (omega arith))

and_left : (a b : Bool) → (a && b) ≡ true → a ≡ true
and_left a b h = ground arith

kept_before : (a b : Bool) → a ≡ true → (a && not b) ≡ false → b ≡ true
kept_before a b e h = ground (arith, e, h)

closed_at_start : (d : Bool) → d ≡ false → closed d [] ≡ true
unfolding closed
closed_at_start d e = rw e refl

closed-cons :
    (d : Bool) (c : ℕ) (s : Text) → closed (nat_beq dash c) s ≡ true → closed d (c ∷ s) ≡ true
unfolding closed
closed-cons d c s h = h

branch_dash :
    (a b d x y : Bool)
    → a ≡ false
    → (if a then x else b && not d && y) ≡ true
    → (y ≡ true) × (d ≡ false)
branch_dash a b d x y e h = ground (arith, e, h)

branch_alnum : (a b d x y : Bool) → b ≡ false → (if a then x else b && not d && y) ≡ true → x ≡ true
branch_alnum a b d x y e h = ground (arith, e, h)

module _ (unicode : Unicode) (dash_not_alnum : unicode.is_alnum dash ≡ false) where
  -- a dash stands where it may, and the rest goes on after it
  spaced_tail :
      (d : Bool) (c : ℕ) (s : Text)
      → spaced unicode d (c ∷ s) ≡ true
      → (spaced unicode (nat_beq dash c) s ≡ true) × (nat_beq dash c ≡ true → d ≡ false)
  unfolding spaced
  spaced_tail d c s h = elim (Bool-cases (nat_beq dash c)) [
    | inl e ↦
        let alnum = ap unicode.is_alnum ((nat_beq_iff dash c).0 e) in
        let both =
          branch_dash (unicode.is_alnum c) (nat_beq dash c) d (spaced unicode false s)
            (spaced unicode true s) (sym alnum ∙ dash_not_alnum) h in
        (rw e both.0, λ p. both.1)
    | inr e ↦ (
      rw e (
          branch_alnum (unicode.is_alnum c) (nat_beq dash c) d (spaced unicode false s)
            (spaced unicode true s) e h),
      λ p. cc,
    )
  ]

  pub closed-before_last :
      (d : Bool) (s : Text)
      → spaced unicode d s ≡ true
      → (d ≡ true → contains s dash ≡ true)
      → closed d (before_last dash s) ≡ true
  closed-before_last d [] h k = unfold closed before_last contains in ground arith
  closed-before_last d (c ∷ s) h k = elim (Bool-cases (nat_beq c dash && not (contains s dash))) [
    | inl e ↦ rw (before_last_drops c s e) (
        closed_at_start d (
          (spaced_tail d c s h).1
            (nat_beq_sym dash c ∙ and_left (nat_beq c dash) (not (contains s dash)) e)))
    | inr e ↦ rw (before_last_keeps c s e) (
        closed-cons d c (before_last dash s) (
          closed-before_last (nat_beq dash c) s (spaced_tail d c s h).0
            (λ p. kept_before (nat_beq c dash) (contains s dash) (nat_beq_sym c dash ∙ p) e)))
  ]
