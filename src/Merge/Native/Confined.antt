-- ===== src/Merge/Native/Confined.antt =====
-- Where an admitted path leads: `_admit_native_path` of
-- packages/nauro/src/nauro/sync/merge.py never lands in a reserved place, whatever the links.
use mathlib.Core.Path.{subst}
use nauro.Base.{
  ap, sym, ◌∙◌, ℕ, zero, suc, ◌≡◌, refl, Bool, true, false, not, List, [], ◌∷◌, ◌++◌, Text, codes,
  contains, ◌==◌, text_eq, nat_eq, Result, ok, err, inl, inr, Result-cases,
}
use nauro.Merge.Paths.{
  PathClass, ordinary, reserved_control, unsafe, PathAdmission, MissingPathPolicy,
  classify_sync_path,
}
use nauro.Merge.Native.{
  FileSystem, Platform, StoreRoot, Part, component, trailing_separator, native_relative_parts,
}
use nauro.Merge.Native.Walk.{
  ResolvedNative, store_root, Landing, LinkIdentity, Next, landed, pushed, linked, advance,
  pop_stack, is_directory, part_step, walk, native_landing, landing_admission, from_root,
  admit_native_path, max_native_link_hops,
}
use nauro.Merge.Native.Inside.{Confined, LandsInside, Inside, Advances, if_Inside, visit-Advances}

module _ (platform : Platform) (files : FileSystem) (root : StoreRoot) (policy : MissingPathPolicy)
    (raw : Text) where
  advance-Inside :
      (followed : List LinkIdentity) (top : ResolvedNative) (below : List ResolvedNative)
      (go : ResolvedNative → List ResolvedNative → Result PathAdmission Landing)
      (jump : List Part
        → ResolvedNative
        → List ResolvedNative
        → List LinkIdentity
        → Result PathAdmission Landing)
      (next : Result PathAdmission Next)
      → Confined platform (top ∷ below)
      → ((t : ResolvedNative) (b : List ResolvedNative)
          → Confined platform (t ∷ b)
          → Inside platform (go t b))
      → ((parts : List Part) (t : ResolvedNative) (b : List ResolvedNative)
            (links : List LinkIdentity)
          → Confined platform (t ∷ b)
          → Inside platform (jump parts t b links))
      → Advances platform (top ∷ below) next
      → Inside platform (advance platform files root policy raw followed top below go jump next)
  unfolding advance
  advance-Inside followed top below go jump (err admission) k hg hj a = a
  advance-Inside followed top below go jump (ok (landed landing)) k hg hj a = a
  advance-Inside followed top below go jump (ok (pushed entry)) k hg hj a = hg entry (top ∷ below) a
  advance-Inside followed top below go jump (ok (linked parts true link)) k hg hj a =
      hj parts store_root [] (link ∷ followed) refl
  advance-Inside followed top below go jump (ok (linked parts false link)) k hg hj a =
      hj parts top below (link ∷ followed) k

  pop_stack-Inside :
      (top : ResolvedNative) (below : List ResolvedNative)
      (go : ResolvedNative → List ResolvedNative → Result PathAdmission Landing)
      → Confined platform (top ∷ below)
      → ((t : ResolvedNative) (b : List ResolvedNative)
          → Confined platform (t ∷ b)
          → Inside platform (go t b))
      → Inside platform (pop_stack platform files root policy raw go below)
  unfolding pop_stack
  pop_stack-Inside top [] go k hg = λ e. cc
  pop_stack-Inside top (parent ∷ below) go k hg = hg parent below k.1

  part_step-Inside :
      (exhausted : Bool) (followed : List LinkIdentity) (top : ResolvedNative)
      (below : List ResolvedNative) (c : Text) (pending : List Part)
      (go : ResolvedNative → List ResolvedNative → Result PathAdmission Landing)
      (jump : List Part
        → ResolvedNative
        → List ResolvedNative
        → List LinkIdentity
        → Result PathAdmission Landing)
      → Confined platform (top ∷ below)
      → ((t : ResolvedNative) (b : List ResolvedNative)
          → Confined platform (t ∷ b)
          → Inside platform (go t b))
      → ((parts : List Part) (t : ResolvedNative) (b : List ResolvedNative)
            (links : List LinkIdentity)
          → Confined platform (t ∷ b)
          → Inside platform (jump parts t b links))
      → Inside platform
          (part_step platform files root policy raw exhausted followed top below c pending go jump)
  unfolding part_step
  part_step-Inside exhausted followed top below c pending go jump k hg hj =
      if_Inside platform (not (is_directory top.kind)) _ _ (λ e. cc)
        (if_Inside platform (c == codes ".") _ _ (hg top below k) (
          if_Inside platform (c == codes "..") _ _ (pop_stack-Inside top below go k hg) (
            advance-Inside followed top below go jump _ k hg hj (
              visit-Advances platform files root policy raw exhausted followed top below top.path c
                pending k))))

  walk-Inside :
      (hops : ℕ) (pending : List Part) (top : ResolvedNative) (below : List ResolvedNative)
      (followed : List LinkIdentity)
      → Confined platform (top ∷ below)
      → Inside platform (walk platform files root policy raw hops pending top below followed)
  unfolding walk
  walk-Inside hops [] top below followed k = k
  walk-Inside hops (trailing_separator ∷ pending) top below followed k =
      if_Inside platform (is_directory top.kind) _ _ (walk-Inside hops pending top below followed k)
        (λ e. cc)
  walk-Inside zero (component c ∷ pending) top below followed k =
      part_step-Inside true followed top below c pending _ _ k
        (λ t b. walk-Inside zero pending t b followed) (λ parts t b links h e. cc)
  walk-Inside (suc hops) (component c ∷ pending) top below followed k =
      part_step-Inside false followed top below c pending _ _ k
        (λ t b. walk-Inside (suc hops) pending t b followed)
        (λ parts t b links. walk-Inside hops (parts ++ pending) t b links)

  from_root-Inside :
      (initial : PathAdmission) (path_class : PathClass)
      → initial.path_class ≡ path_class
      → Inside platform (from_root platform files root policy raw initial path_class)
  from_root-Inside initial ordinary e =
      if_Inside platform (contains raw 0) _ _ (λ p. cc)
        (walk-Inside max_native_link_hops (native_relative_parts platform.windows raw) store_root []
          [] refl)
  from_root-Inside initial reserved_control e = λ p. cc
  from_root-Inside initial unsafe e = λ p. cc

  native_landing-Inside : Inside platform (native_landing platform files root policy raw)
  unfolding native_landing
  native_landing-Inside =
      from_root-Inside (classify_sync_path platform.casefold raw)
        (classify_sync_path platform.casefold raw).path_class refl

  -- An admission is ordinary only if its path leads to the root, to an entry whose components are
  -- an ordinary path, or to a name that would make one, whatever links stand on the way.
  pub ordinary_admission-LandsInside :
      (admit_native_path platform files root policy raw).path_class ≡ ordinary
      → (landing : Landing) × (native_landing platform files root policy raw ≡ ok landing)
        × LandsInside platform landing
  unfolding admit_native_path
  ordinary_admission-LandsInside h =
      elim (Result-cases (native_landing platform files root policy raw)) [
        | inl (landing, e) ↦ (landing, e, rw e at native_landing-Inside)
        | inr (admission, e) ↦ absurd (
            subst (Inside platform) e native_landing-Inside (
              ap (λ r. (landing_admission platform files root policy raw r).path_class) (sym e)
              ∙ h))
      ]
