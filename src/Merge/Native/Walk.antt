-- ===== src/Merge/Native/Walk.antt =====
-- packages/nauro/src/nauro/sync/merge.py: `_missing_admission` and `_admit_native_path`. The loop
-- over `pending` ends since each link followed takes one of the hops left and every other part
-- takes itself away: it is a recursion on both.
use nauro.Base.{
  ℕ, zero, suc, Bool, true, false, not, ◌&&◌, ◌||◌, List, [], ◌∷◌, ◌++◌, Option, none, some, Text,
  codes, contains, nat_beq, list_beq, ◌==◌, if◌then◌else◌, text_eq, nat_eq, Result, ok, err, ◌>>=◌,
}
use nauro.Merge.Paths.{
  PathClass, ordinary, reserved_control, unsafe, UnsafeReason, PathAdmission, unsafe_path,
  admission_of, MissingPathPolicy, observed, optional_fixed_leaf, create_destination, NativeKind,
  directory, component_class, classify_sync_path, observation_lost, folded_parent,
  non_directory_parent, outside_store, windows_name_lookup_failed, metadata_unavailable,
  unsupported_reparse, link_loop, link_hop_limit, link_target_unreadable,
}
use nauro.Merge.Native.{
  Metadata, Lookup, found, missing, failed, FileSystem, Platform, StoreRoot, metadata_kind,
  is_link_or_reparse, is_supported_link, Part, component, trailing_separator, ends_with_separator,
  with_trailing, native_relative_parts, absolute_target_suffix,
}

pub record ResolvedNative : Type 0 where
  pub path : List Text
  pub component : Option Text
  pub kind : NativeKind

abbrev pub store_root : ResolvedNative
store_root = record { path = []; component = none; kind = directory }

-- Where a path leads: to the entry on top of a stack, or to a name that is not there yet.
pub data Landing : Type 0 where
  arrived : ResolvedNative → List ResolvedNative → Landing
  absent : MissingPathPolicy → List Text → Landing

abbrev component_list : Option Text → List Text
component_list none = []
component_list (some c) = c ∷ []

-- `[entry.component for entry in stack[1:] if entry.component is not None]`; the stack has its top
-- first, and the root has no component
unfoldable pub stack_components : List ResolvedNative → List Text
stack_components [] = []
stack_components (entry ∷ below) = stack_components below ++ component_list entry.component

abbrev pub is_directory : NativeKind → Bool
is_directory directory = true
is_directory _ = false

-- a link that was followed: device, inode and path
pub record LinkIdentity : Type 0 where
  pub device : ℕ
  pub inode : ℕ
  pub path : List Text

unfoldable pub was_followed : List LinkIdentity → LinkIdentity → Bool
was_followed [] link = false
was_followed (seen ∷ rest) link =
    (nat_beq seen.device link.device
      && nat_beq seen.inode link.inode
      && list_beq seen.path link.path)
    || was_followed rest link

-- What a component leads to.
pub data Next : Type 0 where
  landed : Landing → Next
  pushed : ResolvedNative → Next
  linked : List Part → Bool → LinkIdentity → Next

abbrev pub max_native_link_hops : ℕ
max_native_link_hops = 40

module _ (platform : Platform) (files : FileSystem) (root : StoreRoot) (policy : MissingPathPolicy)
    (raw : Text) where
  -- `if admission.path_class is not ORDINARY: return admission`
  unfoldable pub require_ordinary : Result UnsafeReason PathClass → Result PathAdmission (Unit {0})
  require_ordinary (ok ordinary) = ok tt
  require_ordinary (ok reserved_control) =
      err (admission_of platform.casefold raw (ok reserved_control))
  require_ordinary (ok unsafe) = err (admission_of platform.casefold raw (ok unsafe))
  require_ordinary (err why) = err (unsafe_path raw why)

  -- the loop of `_missing_admission`
  unfoldable pub missing_parts : List Text → List Part → Result PathAdmission (List Text)
  missing_parts semantic [] = ok semantic
  missing_parts semantic (trailing_separator ∷ pending) = missing_parts semantic pending
  missing_parts semantic (component c ∷ pending) =
      let skip = missing_parts semantic pending in
      let rest = missing_parts (semantic ++ c ∷ []) pending in
      if c == codes "."
      then skip
      else if c == codes ".."
      then err (unsafe_path raw folded_parent)
      else (require_ordinary (component_class platform.casefold (semantic ++ c ∷ [])) >>= λ _. rest)

  unfoldable pub missing_admission :
      MissingPathPolicy → List ResolvedNative → Text → List Part → Result PathAdmission Landing
  missing_admission observed stack name pending = err (unsafe_path raw observation_lost)
  missing_admission optional_fixed_leaf stack name [] =
      ok (absent optional_fixed_leaf (stack_components stack ++ name ∷ []))
  missing_admission optional_fixed_leaf stack name (part ∷ pending) =
      err (unsafe_path raw observation_lost)
  missing_admission create_destination stack name pending = do
    semantic ← missing_parts (stack_components stack ++ name ∷ []) pending
    ok (absent create_destination semantic)

  -- from the target of a link, once it was read and taken apart
  unfoldable pub follow_parts :
      Text → Result UnsafeReason (List Text × Bool) → LinkIdentity → Result PathAdmission Next
  follow_parts target (err why) link = err (unsafe_path raw why)
  follow_parts target (ok (parts, absolute)) link =
      ok (linked (with_trailing (ends_with_separator target) parts) absolute link)

  unfoldable pub follow_target : Option Text → LinkIdentity → Result PathAdmission Next
  unfolding follow_parts
  follow_target none link = err (unsafe_path raw link_target_unreadable)
  follow_target (some target) link =
      follow_parts target (absolute_target_suffix platform root target) link

  -- a link: `exhausted` says that no hop is left
  unfoldable pub visit_link : Bool → List LinkIdentity → LinkIdentity → Result PathAdmission Next
  unfolding follow_target
  visit_link exhausted followed link =
      if was_followed followed link
      then err (unsafe_path raw link_loop)
      else if exhausted
      then err (unsafe_path raw link_hop_limit)
      else follow_target (files.readlink link.path) link

  unfoldable pub visit_entry :
      Bool → List LinkIdentity → List Text → Text → Metadata → Result PathAdmission Next
  visit_entry exhausted followed candidate long metadata =
      if not (is_link_or_reparse metadata)
      then ok (
          pushed (record {
            path = candidate;
            component = some long;
            kind = metadata_kind metadata.mode;
          }))
      else if not (is_supported_link metadata)
      then err (unsafe_path raw unsupported_reparse)
      else visit_link exhausted followed
          (record { device = metadata.device; inode = metadata.inode; path = candidate })

  -- from what `os.lstat` answers on
  unfoldable pub visit_found :
      Bool
      → List LinkIdentity
      → List ResolvedNative
      → List Text
      → Text
      → Text
      → List Part
      → Lookup Metadata
      → Result PathAdmission Next
  visit_found exhausted followed stack parent c long pending missing =
      missing_admission policy stack c pending >>= λ l. ok (landed l)
  visit_found exhausted followed stack parent c long pending failed =
      err (unsafe_path raw metadata_unavailable)
  visit_found exhausted followed stack parent c long pending (found metadata) =
      visit_entry exhausted followed (parent ++ c ∷ []) long metadata

  -- from what the long-name lookup answers on
  unfoldable pub visit_long :
      Bool
      → List LinkIdentity
      → List ResolvedNative
      → List Text
      → Text
      → List Part
      → Lookup Text
      → Result PathAdmission Next
  visit_long exhausted followed stack parent c pending failed =
      err (unsafe_path raw windows_name_lookup_failed)
  visit_long exhausted followed stack parent c pending missing =
      missing_admission policy stack c pending >>= λ l. ok (landed l)
  visit_long exhausted followed stack parent c pending (found long) =
      require_ordinary (component_class platform.casefold (stack_components stack ++ long ∷ []))
      >>= λ _.
          visit_found exhausted followed stack parent c long pending
            (files.lstat (parent ++ c ∷ []))

  -- the body of the loop from the lexical classification on
  unfoldable pub visit :
      Bool
      → List LinkIdentity
      → List ResolvedNative
      → List Text
      → Text
      → List Part
      → Result PathAdmission Next
  visit exhausted followed stack parent c pending =
      require_ordinary (component_class platform.casefold (stack_components stack ++ c ∷ []))
      >>= λ _. visit_long exhausted followed stack parent c pending (files.long_component parent c)

  -- the loop goes on: `go` with another stack, `jump` with the parts of a link first
  unfoldable pub advance :
      List LinkIdentity
      → ResolvedNative
      → List ResolvedNative
      → (ResolvedNative → List ResolvedNative → Result PathAdmission Landing)
      → (List Part
          → ResolvedNative
          → List ResolvedNative
          → List LinkIdentity
          → Result PathAdmission Landing)
      → Result PathAdmission Next
      → Result PathAdmission Landing
  advance followed top below go jump (err admission) = err admission
  advance followed top below go jump (ok (landed landing)) = ok landing
  advance followed top below go jump (ok (pushed entry)) = go entry (top ∷ below)
  advance followed top below go jump (ok (linked parts absolute link)) =
      if absolute
      then jump parts store_root [] (link ∷ followed)
      else jump parts top below (link ∷ followed)

  -- `stack.pop()`
  unfoldable pub pop_stack :
      (ResolvedNative → List ResolvedNative → Result PathAdmission Landing)
      → List ResolvedNative
      → Result PathAdmission Landing
  pop_stack go [] = err (unsafe_path raw outside_store)
  pop_stack go (parent ∷ below) = go parent below

  -- one round of the loop
  unfoldable pub part_step :
      Bool
      → List LinkIdentity
      → ResolvedNative
      → List ResolvedNative
      → Text
      → List Part
      → (ResolvedNative → List ResolvedNative → Result PathAdmission Landing)
      → (List Part
          → ResolvedNative
          → List ResolvedNative
          → List LinkIdentity
          → Result PathAdmission Landing)
      → Result PathAdmission Landing
  part_step exhausted followed top below c pending go jump =
      if not (is_directory top.kind)
      then err (unsafe_path raw non_directory_parent)
      else if c == codes "."
      then go top below
      else if c == codes ".."
      then pop_stack go below
      else advance followed top below go jump
          (visit exhausted followed (top ∷ below) top.path c pending)

  unfoldable pub walk :
      ℕ
      → List Part
      → ResolvedNative
      → List ResolvedNative
      → List LinkIdentity
      → Result PathAdmission Landing
  walk hops [] top below followed = ok (arrived top below)
  walk hops (trailing_separator ∷ pending) top below followed =
      if is_directory top.kind
      then walk hops pending top below followed
      else err (unsafe_path raw non_directory_parent)
  walk zero (component c ∷ pending) top below followed =
      part_step true followed top below c pending (λ t b. walk zero pending t b followed)
        (λ parts t b links. err (unsafe_path raw link_hop_limit))
  walk (suc hops) (component c ∷ pending) top below followed =
      part_step false followed top below c pending (λ t b. walk (suc hops) pending t b followed)
        (λ parts t b links. walk hops (parts ++ pending) t b links)

  abbrev pub from_root : PathAdmission → PathClass → Result PathAdmission Landing
  from_root initial ordinary =
      if contains raw 0
      then err (unsafe_path raw metadata_unavailable)
      else walk max_native_link_hops (native_relative_parts platform.windows raw) store_root [] []
  from_root initial _ = err initial

  unfoldable pub native_landing : Result PathAdmission Landing
  native_landing =
      let initial = classify_sync_path platform.casefold raw in from_root initial initial.path_class

  abbrev pub landing_admission : Result PathAdmission Landing → PathAdmission
  landing_admission (err admission) = admission
  landing_admission (ok (arrived top below)) = record {
    path_class = ordinary;
    raw_identity = raw;
    exists = some true;
    missing_policy = some policy;
    native_kind = some top.kind;
    reason = none;
  }
  landing_admission (ok (absent missing_policy path)) = record {
    path_class = ordinary;
    raw_identity = raw;
    exists = some false;
    missing_policy = some missing_policy;
    native_kind = none;
    reason = none;
  }

  unfoldable pub admit_native_path : PathAdmission
  admit_native_path = landing_admission native_landing
