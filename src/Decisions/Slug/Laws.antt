-- ===== src/Decisions/Slug/Laws.antt =====
-- The shape of a slug: packages/nauro-core/src/nauro_core/operations/_decision_transitions.py.
use nauro.Base.{
  ℕ, zero, suc, ◌≤◌, ◌≡◌, refl, Bool, true, false, not, ◌&&◌, [], ◌∷◌, Text, nat_beq, ltb, leb,
  length, take, contains, lstrip_by, rstrip_by, strip_by, if◌then◌else◌, arith, Bool-cases, inl,
  inr, nat_eq,
}
use nauro.Sync.Names.{Unicode}
use nauro.Decisions.Slug.{dash, slug_max_length, before_last, slug_chars, slugify_decision_title}

module _ (unicode : Unicode) where
  -- Letters and digits, with single dashes between them; the flag forbids a dash in front.
  unfoldable pub spaced : Bool → Text → Bool
  spaced forbidden [] = true
  spaced forbidden (c ∷ s) =
      let after_char = spaced false s in
      let after_dash = spaced true s in
      if unicode.is_alnum c then after_char else nat_beq dash c && not forbidden && after_dash

  pub spaced_weaken : (s : Text) → spaced true s ≡ true → spaced false s ≡ true
  unfolding spaced
  spaced_weaken [] h = refl
  spaced_weaken (c ∷ s) h = ground arith

  spaced-dash : (s : Text) → spaced true s ≡ true → spaced false (dash ∷ s) ≡ true
  unfolding spaced
  spaced-dash s h = ground (arith, spaced_weaken s)

  spaced-alnum :
      (d : Bool) (c : ℕ) (s : Text)
      → unicode.is_alnum c ≡ true
      → spaced false s ≡ true
      → spaced d (c ∷ s) ≡ true
  unfolding spaced
  spaced-alnum d c s e h = rw e h

  pub spaced-slug_chars : (d : Bool) (title : Text) → spaced d (slug_chars unicode d title) ≡ true
  unfolding slug_chars
  spaced-slug_chars d [] = unfold spaced in refl
  spaced-slug_chars true (c ∷ title) = elim (Bool-cases (unicode.is_alnum c)) [
    | inl e ↦
        rw e
          (spaced-alnum true c (slug_chars unicode false title) e (spaced-slug_chars false title))
    | inr e ↦ rw e (spaced-slug_chars true title)
  ]
  spaced-slug_chars false (c ∷ title) = elim (Bool-cases (unicode.is_alnum c)) [
    | inl e ↦
        rw e
          (spaced-alnum false c (slug_chars unicode false title) e (spaced-slug_chars false title))
    | inr e ↦ rw e (spaced-dash (slug_chars unicode true title) (spaced-slug_chars true title))
  ]

  pub spaced-lstrip :
      (d : Bool) (s : Text) → spaced d s ≡ true → spaced true (lstrip_by (nat_beq dash) s) ≡ true
  unfolding spaced lstrip_by
  spaced-lstrip d [] h = refl
  spaced-lstrip d (c ∷ s) h = ground (arith, spaced-lstrip false s, spaced-lstrip true s)

  -- what comes after a character decides with it
  spaced_step :
      (d : Bool) (c : ℕ) (s t : Text)
      → ((e : Bool) → spaced e s ≡ true → spaced e t ≡ true)
      → spaced d (c ∷ s) ≡ true
      → spaced d (c ∷ t) ≡ true
  unfolding spaced
  spaced_step d c s t f h = ground (arith, f true, f false)

  spaced-rstrip_tail :
      (d : Bool) (c : ℕ) (s : Text)
      → spaced d (c ∷ s) ≡ true
      → spaced d (elim s [ [] ↦ if nat_beq dash c then [] else c ∷ [] | x ∷ r ↦ c ∷ x ∷ r ]) ≡ true
  spaced-rstrip_tail d c [] h = unfold spaced in ground arith
  spaced-rstrip_tail d c (x ∷ r) h = h

  pub spaced-rstrip :
      (d : Bool) (s : Text) → spaced d s ≡ true → spaced d (rstrip_by (nat_beq dash) s) ≡ true
  unfolding rstrip_by
  spaced-rstrip d [] h = h
  spaced-rstrip d (c ∷ s) h =
      spaced-rstrip_tail d c (rstrip_by (nat_beq dash) s)
        (spaced_step d c s (rstrip_by (nat_beq dash) s) (λ b. spaced-rstrip b s) h)

  pub spaced-take : (n : ℕ) (d : Bool) (s : Text) → spaced d s ≡ true → spaced d (take n s) ≡ true
  spaced-take zero d s h = unfold spaced in refl
  spaced-take (suc n) d [] h = h
  spaced-take (suc n) d (c ∷ s) h = spaced_step d c s (take n s) (λ e k. spaced-take n e s k) h

  spaced-nil : (d : Bool) → spaced d [] ≡ true
  unfolding spaced
  spaced-nil d = refl

  spaced-before_last :
      (d : Bool) (s : Text) → spaced d s ≡ true → spaced d (before_last dash s) ≡ true
  unfolding before_last
  spaced-before_last d [] h = h
  spaced-before_last d (c ∷ s) h = elim (Bool-cases (nat_beq c dash && not (contains s dash))) [
    | inl e ↦ rw e (spaced-nil d)
    | inr e ↦ rw e (spaced_step d c s (before_last dash s) (λ b. spaced-before_last b s) h)
  ]

  pub spaced-slugify : (title : Text) → spaced true (slugify_decision_title unicode title) ≡ true
  unfolding slugify_decision_title strip_by
  spaced-slugify title =
      let slug = strip_by (nat_beq dash) (slug_chars unicode false (unicode.lower title)) in
      let truncated = take slug_max_length slug in
      let slug_spaced =
        spaced-rstrip true _
          (spaced-lstrip false _ (spaced-slug_chars false (unicode.lower title))) in
      let truncated_spaced = spaced-take slug_max_length true slug slug_spaced in
      elim (Bool-cases (ltb slug_max_length (length slug))) [
        | inl long ↦ rw long (elim (Bool-cases (leb 30 (length (before_last dash truncated)))) [
          | inl e ↦ rw e (spaced-before_last true truncated truncated_spaced)
          | inr e ↦ rw e truncated_spaced
        ])
        | inr short ↦ rw short slug_spaced
      ]

length-take_le : (n : ℕ) (s : Text) → length (take n s) ≤ n
length-take_le zero s = omega arith
length-take_le (suc n) [] = omega arith
length-take_le (suc n) (c ∷ s) = omega (arith, length-take_le n s)

length-before_last : (s : Text) → length (before_last dash s) ≤ length s
unfolding before_last
length-before_last [] = omega arith
length-before_last (c ∷ s) = ground (arith, length-before_last s)

pub length-slugify :
    (unicode : Unicode) (title : Text) → length (slugify_decision_title unicode title) ≤ 60
unfolding slugify_decision_title
length-slugify unicode title =
    let slug = strip_by (nat_beq dash) (slug_chars unicode false (unicode.lower title)) in
    let truncated = take slug_max_length slug in
    let bound = length-take_le slug_max_length slug in
    elim (Bool-cases (ltb slug_max_length (length slug))) [
      | inl long ↦ rw long (elim (Bool-cases (leb 30 (length (before_last dash truncated)))) [
        | inl e ↦ rw e (omega (arith, bound, length-before_last truncated))
        | inr e ↦ rw e bound
      ])
      | inr short ↦ rw short (ground (arith, short))
    ]
