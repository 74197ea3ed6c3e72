-- ===== src/Decisions/Slug/Shape.antt =====
-- What every slug looks like: packages/nauro-core/src/nauro_core/operations/_decision_transitions.py.
use nauro.Base.{
  ◌≤◌, ◌≡◌, refl, true, false, [], ◌∷◌, Text, nat_beq, ltb, leb, length, take, strip_by, lstrip_by,
  arith, Bool-cases, inl, inr,
}
use nauro.Sync.Names.{Unicode}
use nauro.Decisions.Slug.{dash, slug_max_length, before_last, slug_chars, slugify_decision_title}
use nauro.Decisions.Slug.Laws.{
  spaced, spaced-slugify, spaced_weaken, spaced-take, spaced-rstrip, spaced-lstrip,
  spaced-slug_chars, length-slugify,
}
use nauro.Decisions.Slug.Ends.{
  closed, closed-rstrip, closed-before_last, length-before_last_open, length-take_long,
}

-- At most 60 characters: letters and digits, with single dashes between them, none of them first
-- or last.
pub record SlugShape (unicode : Unicode) (slug : Text) : Type 0 where
  pub short : length slug ≤ 60
  pub separated : spaced unicode true slug ≡ true
  pub ended : closed false slug ≡ true

-- a long text that is not trimmed has no dash at its end
closed_untrimmed :
    (t : Text)
    → length t ≡ 60
    → leb 30 (length (before_last dash t)) ≡ false
    → closed false t ≡ true
closed_untrimmed [] p q = unfold closed in refl
closed_untrimmed (c ∷ s) p q = elim (Bool-cases (closed false (c ∷ s))) [
  | inl e ↦ e
  | inr e ↦ ground (arith, length-before_last_open false c s e)
]

module _ (unicode : Unicode) (dash_not_alnum : unicode.is_alnum dash ≡ false) where
  closed-slugify : (title : Text) → closed false (slugify_decision_title unicode title) ≡ true
  unfolding slugify_decision_title strip_by
  closed-slugify title =
      let slug = strip_by (nat_beq dash) (slug_chars unicode false (unicode.lower title)) in
      let truncated = take slug_max_length slug in
      let slug_spaced =
        spaced-rstrip unicode true _
          (spaced-lstrip unicode false _ (spaced-slug_chars unicode false (unicode.lower title))) in
      let truncated_spaced =
        spaced_weaken unicode truncated
          (spaced-take unicode slug_max_length true slug slug_spaced) in
      elim (Bool-cases (ltb slug_max_length (length slug))) [
        | inl long ↦ rw long (elim (Bool-cases (leb 30 (length (before_last dash truncated)))) [
          | inl e ↦
              rw e (
                closed-before_last unicode dash_not_alnum false truncated truncated_spaced
                  (λ p. cc))
          | inr e ↦ rw e (
              closed_untrimmed truncated
                (length-take_long slug_max_length slug (ground (arith, long))) e)
        ])
        | inr short ↦ rw short (
            closed-rstrip
              (lstrip_by (nat_beq dash) (slug_chars unicode false (unicode.lower title))))
      ]

  -- Where a dash is not alphanumeric, the slug of every title has at most 60 characters, consists of
  -- alphanumeric characters with single dashes between them, and neither begins nor ends with a dash,
  -- also where the title was cut.
  pub slugify-SlugShape : (title : Text) → SlugShape unicode (slugify_decision_title unicode title)
  slugify-SlugShape title = record {
    short = length-slugify unicode title;
    separated = spaced-slugify unicode title;
    ended = closed-slugify title;
  }
