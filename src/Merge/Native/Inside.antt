-- ===== src/Merge/Native/Inside.antt =====
-- What a component that is visited leads to: `_admit_native_path` of
-- packages/nauro/src/nauro/sync/merge.py pushes and lands only what it classified as ordinary.
use nauro.Base.{
  ◌≡◌, ◌≢◌, refl, Bool, true, false, not, List, [], ◌∷◌, ◌++◌, Option, none, some, Text, codes,
  ◌==◌, if◌then◌else◌, text_eq, nat_eq, Result, ok, err, ◌>>=◌, Bool-cases, inl, inr,
}
use nauro.Merge.Paths.{
  PathClass, ordinary, reserved_control, unsafe, UnsafeReason, PathAdmission, MissingPathPolicy,
  observed, optional_fixed_leaf, create_destination, component_class,
}
use nauro.Merge.Native.{
  Metadata, Lookup, found, missing, failed, FileSystem, Platform, StoreRoot, is_link_or_reparse,
  is_supported_link, Part, component, trailing_separator, absolute_target_suffix,
}
use nauro.Merge.Native.Walk.{
  ResolvedNative, Landing, arrived, absent, stack_components, LinkIdentity, was_followed, Next,
  landed, pushed, linked, require_ordinary, missing_parts, missing_admission, follow_parts,
  follow_target, visit_link, visit_entry, visit_found, visit_long, visit,
}

module _ (platform : Platform) where
  -- The components from the root to each entry of the stack are an ordinary path.
  abbrev pub Confined : List ResolvedNative → Type 0
  Confined [] = ⊥
  Confined (entry ∷ []) = entry.component ≡ none
  Confined (entry ∷ parent ∷ below) =
      (component_class platform.casefold (stack_components (entry ∷ parent ∷ below)) ≡ ok ordinary)
      × Confined (parent ∷ below)

  -- A landing is the root, an entry whose components are an ordinary path, or a name that would be.
  abbrev pub LandsInside : Landing → Type 0
  LandsInside (arrived top below) = Confined (top ∷ below)
  LandsInside (absent policy path) = component_class platform.casefold path ≡ ok ordinary

  abbrev pub Inside : Result PathAdmission Landing → Type 0
  Inside (err admission) = admission.path_class ≢ ordinary
  Inside (ok landing) = LandsInside landing

  abbrev Named : Result PathAdmission (List Text) → Type 0
  Named (err admission) = admission.path_class ≢ ordinary
  Named (ok path) = component_class platform.casefold path ≡ ok ordinary

  abbrev pub Advances : List ResolvedNative → Result PathAdmission Next → Type 0
  Advances stack (err admission) = admission.path_class ≢ ordinary
  Advances stack (ok (landed landing)) = LandsInside landing
  Advances stack (ok (pushed entry)) = Confined (entry ∷ stack)
  Advances stack (ok (linked parts absolute link)) = Unit

  if_Advances :
      (stack : List ResolvedNative) (b : Bool) (m n : Result PathAdmission Next)
      → Advances stack m
      → Advances stack n
      → Advances stack (if b then m else n)
  if_Advances stack true m n h k = h
  if_Advances stack false m n h k = k

  pub if_Inside :
      (b : Bool) (m n : Result PathAdmission Landing)
      → Inside m
      → Inside n
      → Inside (if b then m else n)
  if_Inside true m n h k = h
  if_Inside false m n h k = k

module _ (platform : Platform) (files : FileSystem) (root : StoreRoot) (policy : MissingPathPolicy)
    (raw : Text) where
  require_ordinary-Named :
      (r : Result UnsafeReason PathClass) (k : Result PathAdmission (List Text))
      → (r ≡ ok ordinary → Named platform k)
      → Named platform (require_ordinary platform files root policy raw r >>= λ _. k)
  unfolding require_ordinary
  require_ordinary-Named (ok ordinary) k h = h refl
  require_ordinary-Named (ok reserved_control) k h = λ e. cc
  require_ordinary-Named (ok unsafe) k h = λ e. cc
  require_ordinary-Named (err why) k h = λ e. cc

  require_ordinary-Advances :
      (stack : List ResolvedNative) (r : Result UnsafeReason PathClass)
      (k : Result PathAdmission Next)
      → (r ≡ ok ordinary → Advances platform stack k)
      → Advances platform stack (require_ordinary platform files root policy raw r >>= λ _. k)
  unfolding require_ordinary
  require_ordinary-Advances stack (ok ordinary) k h = h refl
  require_ordinary-Advances stack (ok reserved_control) k h = λ e. cc
  require_ordinary-Advances stack (ok unsafe) k h = λ e. cc
  require_ordinary-Advances stack (err why) k h = λ e. cc

  missing_parts-Named :
      (semantic : List Text) (pending : List Part)
      → component_class platform.casefold semantic ≡ ok ordinary
      → Named platform (missing_parts platform files root policy raw semantic pending)
  unfolding missing_parts
  missing_parts-Named semantic [] h = h
  missing_parts-Named semantic (trailing_separator ∷ pending) h =
      missing_parts-Named semantic pending h
  missing_parts-Named semantic (component c ∷ pending) h = elim (Bool-cases (c == codes ".")) [
    | inl e ↦ rw e (missing_parts-Named semantic pending h)
    | inr e ↦ elim (Bool-cases (c == codes "..")) [
      | inl f ↦ rw (e, f) (λ p. cc)
      | inr f ↦
          rw (e, f)
            (require_ordinary-Named (component_class platform.casefold (semantic ++ c ∷ [])) _
              (missing_parts-Named (semantic ++ c ∷ []) pending))
    ]
  ]

  landed_absent :
      (stack : List ResolvedNative) (r : Result PathAdmission (List Text))
      → Named platform r
      → Advances platform stack
          ((r >>= λ semantic. ok (absent create_destination semantic)) >>= λ l. ok (landed l))
  landed_absent stack (ok path) h = h
  landed_absent stack (err admission) h = h

  missing_admission-Advances :
      (given : MissingPathPolicy) (stack : List ResolvedNative) (name : Text) (pending : List Part)
      → component_class platform.casefold (stack_components stack ++ name ∷ []) ≡ ok ordinary
      → Advances platform stack (
          missing_admission platform files root policy raw given stack name pending >>= λ l.
          ok (landed l))
  unfolding missing_admission
  missing_admission-Advances observed stack name pending h = λ e. cc
  missing_admission-Advances optional_fixed_leaf stack name [] h = h
  missing_admission-Advances optional_fixed_leaf stack name (part ∷ pending) h = λ e. cc
  missing_admission-Advances create_destination stack name pending h =
      landed_absent stack _ (missing_parts-Named (stack_components stack ++ name ∷ []) pending h)

  follow_target-Advances :
      (target : Option Text) (link : LinkIdentity) (stack : List ResolvedNative)
      → Advances platform stack (follow_target platform files root policy raw target link)
  unfolding follow_target
  follow_target-Advances none link stack = λ e. cc
  follow_target-Advances (some target) link stack =
      suffix (absolute_target_suffix platform root target)
    where
      suffix :
          (r : Result UnsafeReason (List Text × Bool))
          → Advances platform stack (follow_parts platform files root policy raw target r link)
      suffix (err why) = λ e. cc
      suffix (ok (parts, absolute)) = tt

  visit_link-Advances :
      (exhausted : Bool) (followed : List LinkIdentity) (link : LinkIdentity)
      (stack : List ResolvedNative)
      → Advances platform stack (visit_link platform files root policy raw exhausted followed link)
  unfolding visit_link
  visit_link-Advances exhausted followed link stack =
      if_Advances platform stack (was_followed followed link) _ _ (λ e. cc)
        (if_Advances platform stack exhausted _ _ (λ e. cc)
          (follow_target-Advances (files.readlink link.path) link stack))

  visit_entry-Advances :
      (exhausted : Bool) (followed : List LinkIdentity) (candidate : List Text) (long : Text)
      (metadata : Metadata) (top : ResolvedNative) (below : List ResolvedNative)
      → component_class platform.casefold (stack_components (top ∷ below) ++ long ∷ [])
        ≡ ok ordinary
      → Confined platform (top ∷ below)
      → Advances platform
          (top ∷ below)
          (visit_entry platform files root policy raw exhausted followed candidate long metadata)
  unfolding visit_entry
  visit_entry-Advances exhausted followed candidate long metadata top below h k =
      if_Advances platform (top ∷ below) (not (is_link_or_reparse metadata)) _ _
        (unfold stack_components in (h, k))
        (if_Advances platform (top ∷ below) (not (is_supported_link metadata)) _ _ (λ e. cc)
          (visit_link-Advances exhausted followed
            (record { device = metadata.device; inode = metadata.inode; path = candidate })
            (top ∷ below)))

  pub visit-Advances :
      (exhausted : Bool) (followed : List LinkIdentity) (top : ResolvedNative)
      (below : List ResolvedNative) (parent : List Text) (c : Text) (pending : List Part)
      → Confined platform (top ∷ below)
      → Advances platform
          (top ∷ below)
          (visit platform files root policy raw exhausted followed (top ∷ below) parent c pending)
  unfolding visit
  visit-Advances exhausted followed top below parent c pending k =
      require_ordinary-Advances stack
        (component_class platform.casefold (stack_components stack ++ c ∷ [])) _
        λ lexical. on_long lexical (files.long_component parent c)
    where
      stack : List ResolvedNative
      stack = top ∷ below

      on_found :
          (long : Text)
          → component_class platform.casefold (stack_components stack ++ c ∷ []) ≡ ok ordinary
          → component_class platform.casefold (stack_components stack ++ long ∷ []) ≡ ok ordinary
          → (answer : Lookup Metadata)
          → Advances platform stack (
              visit_found platform files root policy raw exhausted followed stack parent c long
                pending answer)
      on_found long lexical named missing =
          unfold visit_found in missing_admission-Advances policy stack c pending lexical
      on_found long lexical named failed = unfold visit_found in λ e. cc
      on_found long lexical named (found metadata) =
          unfold visit_found in
          visit_entry-Advances exhausted followed (parent ++ c ∷ []) long metadata top below named k

      on_long :
          component_class platform.casefold (stack_components stack ++ c ∷ []) ≡ ok ordinary
          → (answer : Lookup Text)
          → Advances platform stack (
              visit_long platform files root policy raw exhausted followed stack parent c pending
                answer)
      on_long lexical failed = unfold visit_long in λ e. cc
      on_long lexical missing =
          unfold visit_long in missing_admission-Advances policy stack c pending lexical
      on_long lexical (found long) =
          unfold visit_long in
          require_ordinary-Advances stack
            (component_class platform.casefold (stack_components stack ++ long ∷ [])) _
            λ named. on_found long lexical named (files.lstat (parent ++ c ∷ []))
