-- ===== src/Merge/Paths/Aliases.antt =====
-- The names that Windows takes for one entry fold to one component: `_fold_semantic_component` of
-- packages/nauro/src/nauro/sync/merge.py.
use nauro.Base.{
  ℕ, ◌≡◌, ◌≢◌, refl, ◌∙◌, ap, Bool, true, [], ◌∷◌, ◌++◌, Text, cut, contains, lstrip_by, rstrip_by,
  all, Free, all-Free, append-Free, arith, nat_eq, text_eq, Bool-cases, inl, inr,
}
use nauro.Merge.Paths.{is_blank, is_trimmed, trimmed_component, fold_semantic_component}

cut-append : (sep : ℕ) (w t : Text) → Free sep w → (cut sep (w ++ sep ∷ t)).0 ≡ w
unfolding cut contains
cut-append sep [] t h = ground arith
cut-append sep (c ∷ w) t h = ground (arith, cut-append sep w t)

cut-Free : (sep : ℕ) (w : Text) → Free sep w → (cut sep w).0 ≡ w
unfolding cut contains
cut-Free sep [] h = refl
cut-Free sep (c ∷ w) h = ground (arith, cut-Free sep w)

rstrip_by-all : (p : ℕ → Bool) (t : Text) → all p t ≡ true → rstrip_by p t ≡ []
unfolding rstrip_by all
rstrip_by-all p [] h = refl
rstrip_by-all p (c ∷ t) h = ground (arith, rstrip_by-all p t)

-- What the strip removes may as well be there as not.
rstrip_by-append :
    (p : ℕ → Bool) (w t : Text) → all p t ≡ true → rstrip_by p (w ++ t) ≡ rstrip_by p w
unfolding rstrip_by
rstrip_by-append p [] t h = rstrip_by-all p t h
rstrip_by-append p (c ∷ w) t h = rw (rstrip_by-append p w t h)

all-lstrip_by : (p q : ℕ → Bool) (t : Text) → all p t ≡ true → all p (lstrip_by q t) ≡ true
unfolding lstrip_by all
all-lstrip_by p q [] h = refl
all-lstrip_by p q (c ∷ t) h = ground (arith, all-lstrip_by p q t)

lstrip_by-append :
    (q : ℕ → Bool) (sp w : Text) → all q sp ≡ true → lstrip_by q (sp ++ w) ≡ lstrip_by q w
unfolding lstrip_by all
lstrip_by-append q [] w h = refl
lstrip_by-append q (c ∷ sp) w h = ground (arith, lstrip_by-append q sp w)

strip_tail :
    (p q : ℕ → Bool) (w t : Text)
    → all p t ≡ true
    → rstrip_by p (lstrip_by q (w ++ t)) ≡ rstrip_by p (lstrip_by q w)
unfolding lstrip_by
strip_tail p q [] t h = unfold rstrip_by in rstrip_by-all p (lstrip_by q t) (all-lstrip_by p q t h)
strip_tail p q (c ∷ w) t h = elim (Bool-cases (q c)) [
  | inl e ↦ rw e (strip_tail p q w t h)
  | inr e ↦ rw e (rstrip_by-append p (c ∷ w) t h)
]

-- A component, with blanks put before it, blanks and periods after it and a stream name at the
-- end, is trimmed to what the component itself is trimmed to.
pub trimmed_component-alias :
    (before component after stream : Text)
    → Free b':' component
    → all is_blank before ≡ true
    → all is_trimmed after ≡ true
    → trimmed_component (((before ++ component) ++ after) ++ b':' ∷ stream)
      ≡ trimmed_component component
unfolding trimmed_component
trimmed_component-alias before component after stream free blank trimmed =
    rw
      (cut-append b':' ((before ++ component) ++ after) stream (
        append-Free b':' (before ++ component) after
          (append-Free b':' before component (all-Free is_blank b':' before refl blank) free)
          (all-Free is_trimmed b':' after refl trimmed)))
      (rw (cut-Free b':' component free) (
        strip_tail is_trimmed is_blank (before ++ component) after trimmed
        ∙ ap (rstrip_by is_trimmed) (lstrip_by-append is_blank before component blank)))

module _ (casefold : Text → Text) where
  -- A component that keeps a name when it is trimmed folds to the same semantic component, or is
  -- refused for the same reason, with blanks put before it, blanks and periods after it and a
  -- stream name at the end.
  pub fold_semantic_component-alias :
      (before component after stream : Text)
      → Free b':' component
      → all is_blank before ≡ true
      → all is_trimmed after ≡ true
      → trimmed_component component ≢ []
      → fold_semantic_component casefold (((before ++ component) ++ after) ++ b':' ∷ stream)
        ≡ fold_semantic_component casefold component
  unfolding fold_semantic_component
  fold_semantic_component-alias before component after stream free blank trimmed named = ground (
    arith,
    trimmed_component-alias before component after stream free blank trimmed,
    text_eq.beq_iff (trimmed_component component) [],
  )
