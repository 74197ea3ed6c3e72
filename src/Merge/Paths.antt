-- ===== src/Merge/Paths.antt =====
-- packages/nauro/src/nauro/sync/merge.py: the classification of sync paths by their components,
-- with the result types of packages/nauro/src/nauro/sync/_path_diagnostics.py.
-- `str.casefold` goes by the Unicode tables, so it is a parameter.
pub mod Aliases
pub mod Laws
use nauro.Base.{
  ℕ, ◌≡◌, Bool, true, false, not, ◌&&◌, ◌||◌, List, [], ◌∷◌, ◌++◌, Option, none, some, Text, codes,
  starts_with, split, replace, cut, contains, nat_beq, ◌==◌, if◌then◌else◌, text_eq, nat_eq, Eq,
  refl, lstrip_by, rstrip_by, strip_by, Result, ok, err, ◌>>=◌,
}

pub data PathClass : Type 0 where
  ordinary reserved_control unsafe : PathClass

pub data UnsafeReason : Type 0 where
  raw_absolute raw_rooted raw_drive raw_unc raw_device raw_parent : UnsafeReason
  empty_path folded_empty folded_dot folded_parent : UnsafeReason
  outside_store observation_lost windows_name_lookup_failed metadata_unavailable : UnsafeReason
  link_target_unreadable unsupported_reparse link_loop link_hop_limit : UnsafeReason
  non_directory_parent : UnsafeReason

pub data MissingPathPolicy : Type 0 where
  observed optional_fixed_leaf create_destination : MissingPathPolicy

pub data NativeKind : Type 0 where
  directory regular_file irregular : NativeKind

pub record PathAdmission : Type 0 where
  pub path_class : PathClass
  pub raw_identity : Text
  pub exists : Option Bool
  pub missing_policy : Option MissingPathPolicy
  pub native_kind : Option NativeKind
  pub reason : Option UnsafeReason

-- `_unsafe` and `_classified`
abbrev pub unsafe_path : Text → UnsafeReason → PathAdmission
unsafe_path raw why = record {
  path_class = unsafe;
  raw_identity = raw;
  exists = none;
  missing_policy = none;
  native_kind = none;
  reason = some why;
}

abbrev pub classified : Text → PathClass → PathAdmission
classified raw path_class = record {
  path_class = path_class;
  raw_identity = raw;
  exists = none;
  missing_policy = none;
  native_kind = none;
  reason = none;
}

abbrev pub slash : ℕ
slash = b'/'

abbrev pub backslash : ℕ
backslash = b'\\'

abbrev pub is_blank : ℕ → Bool
is_blank c = nat_beq c b' '

abbrev pub is_trimmed : ℕ → Bool
is_trimmed c = nat_beq c b' ' || nat_beq c b'.'

abbrev pub submission_records_dir : Text
submission_records_dir = codes "submission-records"

abbrev pub replica_control_root_name : Text
replica_control_root_name = codes ".replica"

abbrev pub replica_control_lock_name : Text
replica_control_lock_name = codes ".replica-control.lock"

-- `base.lstrip(" ").rstrip(" .")` of the part before the first colon
unfoldable pub trimmed_component : Text → Text
trimmed_component component = rstrip_by is_trimmed (lstrip_by is_blank (cut b':' component).0)

-- the reason where nothing is left after trimming
unfoldable pub empty_reason : Text → UnsafeReason
empty_reason component =
    let spaced = strip_by is_blank (cut b':' component).0 in
    if spaced == codes "."
    then folded_dot
    else if spaced == codes ".."
    then folded_parent
    else folded_empty

-- `native_component.replace("\\", "/").split("/")` for each component
unfoldable pub component_pieces : List Text → List Text
component_pieces [] = []
component_pieces (component ∷ components) =
    split slash (replace backslash slash component) ++ component_pieces components

-- `ntpath.splitdrive(p)[0]` is not empty (Python 3.12)
unfoldable pub has_drive : Text → Bool
has_drive [] = false
has_drive (c ∷ []) = false
has_drive (c ∷ d ∷ rest) =
    if c == slash || c == backslash then d == slash || d == backslash else d == b':'

unfoldable pub path_parts : Text → List Text
path_parts raw = split slash (replace backslash slash raw)

module _ (casefold : Text → Text) where
  unfoldable pub fold_semantic_component : Text → Result UnsafeReason Text
  fold_semantic_component component =
      let trimmed = trimmed_component component in
      if trimmed == []
      then err (empty_reason component)
      else let folded = casefold trimmed in
        if folded == codes "."
        then err folded_dot
        else if folded == codes ".."
        then err folded_parent
        else ok folded

  -- the loops of `_normalize_component_path`, on the pieces of all components
  unfoldable pub fold_pieces : List Text → Result UnsafeReason (List Text)
  fold_pieces [] = ok []
  fold_pieces (piece ∷ pieces) =
      let rest = fold_pieces pieces in
      if piece == []
      then rest
      else do folded ← fold_semantic_component piece; semantic ← rest; ok (folded ∷ semantic)

  unfoldable pub normalize_component_path : List Text → Result UnsafeReason (List Text)
  normalize_component_path components = fold_pieces (component_pieces components)

  -- the test on the first semantic component
  unfoldable pub is_control_root : List Text → Bool
  is_control_root [] = false
  is_control_root (first ∷ rest) =
      first == casefold replica_control_root_name || first == casefold replica_control_lock_name

  unfoldable pub semantic_class : List Text → Result UnsafeReason PathClass
  semantic_class [] = err empty_path
  semantic_class (first ∷ rest) =
      if contains (first ∷ rest) submission_records_dir || is_control_root (first ∷ rest)
      then ok reserved_control
      else ok ordinary

  unfoldable pub component_class : List Text → Result UnsafeReason PathClass
  component_class components = do
    semantic ← normalize_component_path components
    semantic_class semantic

  abbrev pub admission_of : Text → Result UnsafeReason PathClass → PathAdmission
  admission_of raw (ok path_class) = classified raw path_class
  admission_of raw (err why) = unsafe_path raw why

  unfoldable pub classify_component_path : List Text → Text → PathAdmission
  classify_component_path components raw = admission_of raw (component_class components)

  unfoldable pub is_device : Text → Bool
  is_device folded =
      starts_with (codes "\\\\?\\") folded
      || starts_with (codes "\\??\\") folded
      || starts_with (codes "\\\\.\\") folded
      || starts_with (codes "\\device\\") folded

  unfoldable pub sync_input_failure : Text → Option UnsafeReason
  sync_input_failure raw =
      if is_device (casefold (replace slash backslash raw))
      then some raw_device
      else if starts_with (codes "\\\\") raw || starts_with (codes "//") raw
      then some raw_unc
      else if has_drive raw
      then some raw_drive
      else if starts_with (codes "/") raw
      then some raw_absolute
      else if starts_with (codes "\\") raw
      then some raw_rooted
      else if contains (path_parts raw) (codes "..")
      then some raw_parent
      else none

  -- `component not in {"", "."}`
  unfoldable pub named_parts : List Text → List Text
  named_parts [] = []
  named_parts (part ∷ parts) =
      let rest = named_parts parts in if part == [] || part == codes "." then rest else part ∷ rest

  unfoldable pub classify_sync_path : Text → PathAdmission
  classify_sync_path raw = elim (sync_input_failure raw) [
    | some why ↦ unsafe_path raw why
    | none ↦ classify_component_path (named_parts (path_parts raw)) raw
  ]
