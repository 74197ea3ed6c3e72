-- ===== src/Merge/Paths/Laws.antt =====
-- What the classification of a path lets through: packages/nauro/src/nauro/sync/merge.py.
use mathlib.Core.List.{append_assoc}
use nauro.Base.{
  ℕ, ◌≡◌, ◌≢◌, refl, sym, true, false, List, [], ◌∷◌, ◌++◌, Text, codes, contains, contains-append,
  split, replace, arith, text_eq, ◌==◌, Bool-cases, inl, inr, ◌⊎◌, Result, ok, err, ◌>>=◌,
  Result-cases, rstrip_by, lstrip_by, cut, Free, split_one, beq_refl,
}
use nauro.Merge.Paths.{
  trimmed_component, ordinary, UnsafeReason, fold_semantic_component, fold_pieces,
  normalize_component_path, semantic_class, component_class, component_pieces,
  submission_records_dir, is_control_root, slash, backslash,
}

component_pieces-append :
    (xs ys : List Text) → component_pieces (xs ++ ys) ≡ component_pieces xs ++ component_pieces ys
unfolding component_pieces
component_pieces-append [] ys = refl
component_pieces-append (x ∷ xs) ys = rw (component_pieces-append xs ys) (
    sym (
      append_assoc (split slash (replace backslash slash x)) (component_pieces xs)
        (component_pieces ys)))

replace-Free : (old new : ℕ) (w : Text) → Free old w → replace old new w ≡ w
unfolding replace contains
replace-Free old new [] h = refl
replace-Free old new (c ∷ w) h = ground (arith, replace-Free old new w)

-- A component with no separator in it is one piece.
component_pieces-one :
    (c : Text) (ys : List Text)
    → Free slash c
    → Free backslash c
    → component_pieces (c ∷ ys) ≡ c ∷ component_pieces ys
unfolding component_pieces
component_pieces-one c ys h k = rw (replace-Free backslash slash c k) (rw (split_one slash c h))

trimmed_component-nil : trimmed_component [] ≡ []
unfolding trimmed_component rstrip_by lstrip_by cut
trimmed_component-nil = refl

ne_false : (a b : Text) → a ≢ b → (a == b) ≡ false
ne_false a b h = ground (arith, text_eq.beq_iff a b)

abbrev Semantic : Type 0
Semantic = Result UnsafeReason (List Text)

abbrev joined : Semantic → Semantic → Semantic
joined m n = m >>= λ front. n >>= λ back. ok (front ++ back)

joined-nil : (n : Semantic) → n ≡ joined (ok []) n
joined-nil (ok back) = refl
joined-nil (err why) = refl

joined-cons :
    (p : Result UnsafeReason Text) (m n : Semantic)
    → (p >>= λ f. joined m n >>= λ s. ok (f ∷ s)) ≡ joined (p >>= λ f. m >>= λ s. ok (f ∷ s)) n
joined-cons (err why) m n = refl
joined-cons (ok f) (err why) n = refl
joined-cons (ok f) (ok a) (err why) = refl
joined-cons (ok f) (ok a) (ok b) = refl

module _ (casefold : Text → Text) where
  fold_pieces-append :
      (ps qs : List Text)
      → fold_pieces casefold (ps ++ qs) ≡ joined (fold_pieces casefold ps) (fold_pieces casefold qs)
  unfolding fold_pieces
  fold_pieces-append [] qs = joined-nil (fold_pieces casefold qs)
  fold_pieces-append (p ∷ ps) qs = elim (Bool-cases (p == [])) [
    | inl e ↦ rw e (fold_pieces-append ps qs)
    | inr e ↦
        rw (e, fold_pieces-append ps qs)
          (joined-cons (fold_semantic_component casefold p) (fold_pieces casefold ps)
            (fold_pieces casefold qs))
  ]

  normalize-append :
      (xs ys : List Text)
      → normalize_component_path casefold (xs ++ ys)
        ≡ joined (normalize_component_path casefold xs) (normalize_component_path casefold ys)
  unfolding normalize_component_path
  normalize-append xs ys =
      rw (component_pieces-append xs ys)
        (fold_pieces-append (component_pieces xs) (component_pieces ys))

  prefix_class :
      (m n : Semantic)
      → (joined m n >>= semantic_class casefold) ≡ ok ordinary
      → (m ≡ ok []) ⊎ ((m >>= semantic_class casefold) ≡ ok ordinary)
  unfolding semantic_class is_control_root
  prefix_class (err why) n h = cc
  prefix_class (ok []) n h = inl refl
  prefix_class (ok (a ∷ rest)) (err why) h = cc
  prefix_class (ok (a ∷ rest)) (ok b) h =
      inr (ground (arith, contains-append (a ∷ rest) b submission_records_dir))

  -- What is ordinary is so from the root on: each leading part of an ordinary path is ordinary,
  -- or has no semantic component at all.
  pub ordinary-prefix :
      (xs ys : List Text)
      → component_class casefold (xs ++ ys) ≡ ok ordinary
      → (normalize_component_path casefold xs ≡ ok []) ⊎ (component_class casefold xs ≡ ok ordinary)
  unfolding component_class
  ordinary-prefix xs ys h =
      prefix_class (normalize_component_path casefold xs) (normalize_component_path casefold ys)
        (rw (normalize-append xs ys) at h)

  -- a component that keeps a name when it is trimmed folds to that name
  fold_name :
      (c name : Text)
      → trimmed_component c ≢ []
      → casefold (trimmed_component c) ≡ name
      → (name == codes ".") ≡ false
      → (name == codes "..") ≡ false
      → fold_semantic_component casefold c ≡ ok name
  unfolding fold_semantic_component
  fold_name c name named e no_dot no_dots =
      rw (e) (rw (no_dot, no_dots) (ground (arith, text_eq.beq_iff (trimmed_component c) [])))

  normalize_name :
      (c name : Text) (ys : List Text)
      → Free slash c
      → Free backslash c
      → trimmed_component c ≢ []
      → fold_semantic_component casefold c ≡ ok name
      → normalize_component_path casefold (c ∷ ys)
        ≡ (normalize_component_path casefold ys >>= λ s. ok (name ∷ s))
  unfolding normalize_component_path fold_pieces
  normalize_name c name ys h k named e =
      rw (component_pieces-one c ys h k)
        (rw (ne_false c [] (λ p. named (rw p trimmed_component-nil)), e))

  submission_class :
      (m n : Semantic)
      → (joined m (n >>= λ s. ok (submission_records_dir ∷ s)) >>= semantic_class casefold)
        ≢ ok ordinary
  unfolding semantic_class contains
  submission_class (err why) n = λ e. cc
  submission_class (ok a) (err why) = λ e. cc
  submission_class (ok []) (ok b) = ground (arith, beq_refl submission_records_dir)
  submission_class (ok (x ∷ a)) (ok b) = ground (
    arith,
    contains-append a (submission_records_dir ∷ b) submission_records_dir,
    beq_refl submission_records_dir,
  )

  -- A path is never ordinary if one of its components, trimmed and case-folded, is the directory
  -- of the submission records.
  pub submission_records_never_ordinary :
      (xs ys : List Text) (c : Text)
      → Free slash c
      → Free backslash c
      → trimmed_component c ≢ []
      → casefold (trimmed_component c) ≡ submission_records_dir
      → component_class casefold (xs ++ c ∷ ys) ≢ ok ordinary
  unfolding component_class text_eq
  submission_records_never_ordinary xs ys c h k named e = rw (normalize-append xs (c ∷ ys)) (
      rw
        (normalize_name c submission_records_dir ys h k named
          (fold_name c submission_records_dir named e refl refl))
        (submission_class (normalize_component_path casefold xs)
          (normalize_component_path casefold ys)))

  control_class :
      (name : Text) (n : Semantic)
      → is_control_root casefold (name ∷ []) ≡ true
      → ((n >>= λ s. ok (name ∷ s)) >>= semantic_class casefold) ≢ ok ordinary
  unfolding semantic_class is_control_root
  control_class name (err why) h = λ e. cc
  control_class name (ok s) h = ground arith

  fold_ok :
      (c name : Text)
      → fold_semantic_component casefold c ≡ ok name
      → name ≡ casefold (trimmed_component c)
  unfolding fold_semantic_component
  fold_ok c name e = ground arith

  normalize_refused :
      (c : Text) (why : UnsafeReason) (ys : List Text)
      → Free slash c
      → Free backslash c
      → trimmed_component c ≢ []
      → fold_semantic_component casefold c ≡ err why
      → normalize_component_path casefold (c ∷ ys) ≡ err why
  unfolding normalize_component_path fold_pieces
  normalize_refused c why ys h k named e =
      rw (component_pieces-one c ys h k)
        (rw (ne_false c [] (λ p. named (rw p trimmed_component-nil)), e))

  -- A path is never ordinary if its first component, trimmed and case-folded, is the root or the
  -- lock of the replica control, case-folded.
  pub replica_control_never_ordinary :
      (ys : List Text) (c : Text)
      → Free slash c
      → Free backslash c
      → trimmed_component c ≢ []
      → is_control_root casefold (casefold (trimmed_component c) ∷ []) ≡ true
      → component_class casefold (c ∷ ys) ≢ ok ordinary
  unfolding component_class
  replica_control_never_ordinary ys c h k named e =
      elim (Result-cases (fold_semantic_component casefold c)) [
        | inl (name, folded) ↦ rw (normalize_name c name ys h k named folded) (
            control_class name (normalize_component_path casefold ys)
              (rw (fold_ok c name folded) e))
        | inr (why, folded) ↦ rw (normalize_refused c why ys h k named folded) (λ p. cc)
      ]
