-- ===== src/Merge/Tests.antt =====
-- Runs of the merge at concrete inputs: packages/nauro/src/nauro/sync/merge.py.
use nauro.Base.{
  ℕ, ◌+◌, ◌≡◌, ◌≢◌, ◌⊎◌, refl, arith, false, List, [], ◌∷◌, ◌++◌, Option, none, some, Text, codes,
  split, join, count, min, list_beq, if◌then◌else◌, replace, cut, cons_head, lstrip_by, rstrip_by,
  strip_by, nonempty, contains, starts_with, ends_with, text_eq, nat_eq, ok, all,
}
use nauro.Merge.Union.{set_union_markdown, union_lines, text_lines}
use nauro.Merge.Union.Laws.{count-union_lines_blank}
use nauro.Merge.Union.Documents.{count-set_union_markdown}
use nauro.Merge.Paths.{
  ordinary, observed, classify_sync_path, sync_input_failure, is_device, has_drive, path_parts,
  classify_component_path, fold_pieces, component_pieces, named_parts, empty_reason,
  is_control_root, semantic_class, component_class, normalize_component_path, trimmed_component,
  fold_semantic_component,
}
use nauro.Merge.Paths.Laws.{
  ordinary-prefix, submission_records_never_ordinary, replica_control_never_ordinary,
}
use nauro.Merge.Paths.Aliases.{fold_semantic_component-alias}
use nauro.Merge.Native.{
  Metadata, FileMode, Lookup, found, missing, FileSystem, Platform, StoreRoot, link_mode,
  directory_mode, regular_mode, absolute_target_suffix, below_root, is_link_or_reparse,
  is_supported_link, metadata_kind, native_relative_parts,
}
use nauro.Merge.Native.Walk.{
  advance, follow_parts, follow_target, missing_admission, missing_parts, part_step, pop_stack,
  require_ordinary, stack_components, visit, visit_entry, visit_found, visit_link, visit_long, walk,
  was_followed, Landing, native_landing, admit_native_path,
}
use nauro.Merge.Native.Inside.{LandsInside}
use nauro.Merge.Native.Confined.{ordinary_admission-LandsInside}
use nauro.Merge.Conflict.{Bytes, Codec, local, remote, read_backup, backup_name, resolve_conflict}
use nauro.Merge.Conflict.Laws.{backup_name_injective, conflict_keeps_both, conflict_keeps_others}

abbrev mine : Text
mine = codes "# Q\n- a\n- b\n"

abbrev theirs : Text
theirs = codes "# Q\n- b\n- c\n"

count-set_union_markdown_example :
    count (codes "- b") (split 10 (set_union_markdown mine theirs))
    ≡ min 1 (count (codes "- b") (split 10 mine) + count (codes "- b") (split 10 theirs))
count-set_union_markdown_example = count-set_union_markdown (codes "- b") mine theirs (λ e. cc)

count-union_lines_blank_example :
    count [] (union_lines (codes "a" ∷ [] ∷ []) ([] ∷ codes "b" ∷ []))
    ≡ count [] (codes "a" ∷ [] ∷ []) + count [] ([] ∷ codes "b" ∷ [])
count-union_lines_blank_example =
    count-union_lines_blank (codes "a" ∷ [] ∷ []) ([] ∷ codes "b" ∷ [])

-- a platform without case folding
abbrev same : Text → Text
same t = t

abbrev plain : Platform
plain = record { windows = false; casefold = same; normcase = same }

abbrev metadata : FileMode → ℕ → Metadata
metadata mode inode = record {
  mode = mode;
  reparse = false;
  reparse_tag = none;
  device = 1;
  inode = inode;
}

-- a store with a folder `d` that holds `f`, and a link `l` to the folder
abbrev entry_at : List Text → Lookup Metadata
entry_at path =
    if list_beq path (codes "l" ∷ [])
    then found (metadata link_mode 7)
    else if list_beq path (codes "d" ∷ [])
    then found (metadata directory_mode 8)
    else if list_beq path (codes "d" ∷ codes "f" ∷ [])
    then found (metadata regular_mode 9)
    else missing

abbrev files : FileSystem
files = record {
  long_component = λ parent c. found c;
  lstat = entry_at;
  readlink = λ path. some (codes "d");
}

abbrev root : StoreRoot
root = record { native_anchor = codes "/"; canonical_parts = codes "store" ∷ [] }

abbrev linked_file : Text
linked_file = codes "l/f"

linked_file_admitted :
    (admit_native_path plain files root observed linked_file).path_class ≡ ordinary
unfolding admit_native_path native_landing classify_sync_path sync_input_failure is_device
    starts_with replace has_drive contains path_parts split text_eq classify_component_path
    component_class normalize_component_path fold_pieces component_pieces named_parts list_beq
    cons_head cut ends_with lstrip_by nonempty rstrip_by strip_by advance follow_parts follow_target
    missing_admission missing_parts part_step pop_stack require_ordinary stack_components visit
    visit_entry visit_found visit_link visit_long walk was_followed absolute_target_suffix
    below_root is_link_or_reparse is_supported_link metadata_kind native_relative_parts empty_reason
    fold_semantic_component is_control_root semantic_class trimmed_component
linked_file_admitted = refl

ordinary_admission-LandsInside_example :
    (landing : Landing) × (native_landing plain files root observed linked_file ≡ ok landing)
    × LandsInside plain landing
ordinary_admission-LandsInside_example =
    ordinary_admission-LandsInside plain files root observed linked_file linked_file_admitted

ordinary-prefix_example :
    (normalize_component_path same (codes "decisions" ∷ []) ≡ ok [])
    ⊎ (component_class same (codes "decisions" ∷ []) ≡ ok ordinary)
unfolding component_class normalize_component_path fold_pieces component_pieces split replace
    text_eq fold_semantic_component trimmed_component rstrip_by lstrip_by cut semantic_class
    contains is_control_root
ordinary-prefix_example = ordinary-prefix same (codes "decisions" ∷ []) (codes "d.md" ∷ []) refl

submission_records_never_ordinary_example :
    component_class same (codes "a" ∷ codes "submission-records ." ∷ codes "b" ∷ []) ≢ ok ordinary
unfolding contains trimmed_component rstrip_by lstrip_by cut
submission_records_never_ordinary_example =
    submission_records_never_ordinary same (codes "a" ∷ []) (codes "b" ∷ [])
      (codes "submission-records .") refl refl (λ e. cc) refl

replica_control_never_ordinary_example :
    component_class same (codes ".replica ." ∷ codes "b" ∷ []) ≢ ok ordinary
unfolding contains trimmed_component rstrip_by lstrip_by cut is_control_root text_eq
replica_control_never_ordinary_example =
    replica_control_never_ordinary same (codes "b" ∷ []) (codes ".replica .") refl refl (λ e. cc)
      refl

fold_semantic_component-alias_example :
    fold_semantic_component same ((codes " " ++ codes "notes") ++ codes ". " ++ b':' ∷ codes "s")
    ≡ fold_semantic_component same (codes "notes")
unfolding all contains trimmed_component rstrip_by lstrip_by cut
fold_semantic_component-alias_example =
    fold_semantic_component-alias same (codes " ") (codes "notes") (codes ". ") (codes "s") refl
      refl refl (λ e. cc)

abbrev codec : Codec
codec = record { decode = same; encode = same }

abbrev state : Text
state = codes "state.md"

conflict_keeps_both_example :
    let (installed, kept) = resolve_conflict codec (codes "20260101") mine theirs state local [] in
    ◌≡◌ {A = Bytes × Option Bytes}
      (installed, read_backup (backup_name (codes "20260101") state) kept)
      (mine, some theirs)
conflict_keeps_both_example =
    conflict_keeps_both codec (codes "20260101") mine theirs state local []
      (unfold contains in unfold text_eq in refl)

conflict_keeps_others_example :
    read_backup
      (backup_name (codes "20260101") (codes "stack.md"))
      (resolve_conflict codec (codes "20260101") mine theirs state remote []).1
    ≡ read_backup (backup_name (codes "20260101") (codes "stack.md")) []
conflict_keeps_others_example =
    conflict_keeps_others codec (codes "20260101") mine theirs state (codes "stack.md") remote []
      (λ e. absurd (ground arith))

backup_name_injective_example : codes "a/b" ≡ codes "a/b"
backup_name_injective_example =
    backup_name_injective (codes "20260101") (codes "a/b") (codes "a/b") refl

merges_sections :
    set_union_markdown (codes "# T\n## A\nx\n## B\ny\n") (codes "# T\n## B\nz\ny\n## C\nx\nw\n")
    ≡ codes "# T\n## A\nx\n## B\ny\nz\n## C\nw\n"
unfolding set_union_markdown union_lines text_lines join ends_with contains starts_with text_eq
merges_sections = refl
