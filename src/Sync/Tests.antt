-- ===== src/Sync/Tests.antt =====
-- Runs of the pull at concrete inputs: packages/nauro/src/nauro/sync.
use nauro.Base.{
  nat_beq, zero, ℕ, suc, ◌∙◌, leb, ap, ◌-◌, ◌==◌, ◌+◌, ◌*◌, ◌≤◌, ◌<◌, ◌≡◌, ◌≢◌, refl, arith, Bool,
  true, false, not, List, [], ◌∷◌, ◌++◌, map, Option, none, some, Text, codes, ok, err, Result, All,
  length, max, split, cut, starts_with, ends_with, contains, text_eq, list_beq, select, any, all,
  lstrip_by, rstrip_by, strip_by, drop_end, nonempty, replace, cons_head, if◌then◌else◌,
}
use mathlib.Core.List.{Mem}
use nauro.Questions.Ids.{is_digit, read_digits, decimal, digits_before, repeat, is_ascii_decimal}
use nauro.Sync.Names.{
  Unicode, padded_number, remove_suffix, leading_digits, extract_decision_number, after_digits,
  strip_number_prefix, is_canonical_filename, is_canonical_decision_path,
}
use nauro.Sync.Names.Laws.{PlainDigits}
use nauro.Sync.Headings.{
  splitlines, join_lines, heading_line_number, heading_of_lines, heading_number, is_rewritable,
  rewrite_lines, has_rewritable_line, has_rewritable_heading, rewrite_decision_heading,
}
use nauro.Sync.Corpus.{
  Readers, ParsedDecision, Directory, regular, find_entry, read_bytes, DecisionFile, DecisionCorpus,
  holders, holders_in, irregular_holders, irregular_numbers, claimed_numbers, file_named, named_in,
  is_irregular, has_name, case_variant, least_text, parsed_decision, unparseable_files,
  supersession_refs_of, references, verifiable, put_file, pop_file, replace_file, record_renamed,
  record_rewritten,
}
use nauro.Sync.Corpus.Laws.{Valid}
use nauro.Sync.Collisions.{
  Surroundings, classify_decision, classify_same_path, classify_number, classify_collider,
  classify_unpublished, isolation_defect, verdict, refuse,
}
use nauro.Sync.Collisions.Laws.{Movable, moves, moved_file-Movable}
use nauro.Sync.Collisions.Installs.{installs, Unclaimed, install-Unclaimed}
use nauro.Sync.Collisions.Apply.{
  Store, RenumberResult, RenumberError, apply_renumber, fresh_number, maximum, read_text_lenient,
  renumber_writes, renumbered_name, rename_decision, rewrite_decision, retarget_store, rename_entry,
  write_entry, without_entry, retarget_hash_index, destination_occupied_error,
}
use nauro.Sync.Corpus.Scan.{scan}
use nauro.Sync.Collisions.Holders.{NoNewRival}
use nauro.Sync.Collisions.Freed.{renumber_frees}
use nauro.Sync.Corpus.Files.{Listed}
use nauro.Merge.Native.{FileSystem, found, missing}
use nauro.Sync.State.{SyncState, Digests, holds, absent, find_state}
use nauro.Sync.Route.{
  needs_decision_gate, ManifestEntry, Destination, LocalStore, Routing, route_entry,
}
use nauro.Sync.Route as Route
use nauro.Sync.Route.Laws.{Installable, route_install-Installable}
use nauro.Sync.Quarantine.{encode_path, truncate_encoded, decoded_bytes, decode_path}
use nauro.Sync.Quarantine.Laws.{AsciiBytes, decode-encode_path, decoded-truncate_encoded}
use nauro.Sync.Pull.{Transfer, PullContext, Run, Write, file_write, apply_batch}
use nauro.Sync.Pull.Laws.{apply_batch-NoNewRival}
use nauro.Sync.Pull.Writes.{Work}
use nauro.Sync.Pull.Triage.{AdoptedFile, Worklists, empty_worklists, triage, sort_entries}
use nauro.Sync.Pull.Sorted.{
  Routed, route_all, sorted, picked, contested_gate, free_gate, triage-sorted,
}
use nauro.Sync.Collisions.Views.{InStep, is_decision_name, renumber-InStep}
use nauro.Sync.Collisions.Crash.{renumber_on_disk}
use nauro.Sync.Collisions.Twins.{canonicalizes}
use nauro.Sync.Collisions.Renumber.{renumber_above, renumber_destination_free}

-- a platform that knows ASCII
abbrev same : Text → Text
same t = t

abbrev ascii : Unicode
ascii = record {
  lower = same;
  upper = same;
  casefold = same;
  is_alnum = is_digit;
  is_str_digit = is_digit;
  is_decimal = is_digit;
}

ascii-PlainDigits : PlainDigits ascii
unfolding starts_with
ascii-PlainDigits = record {
  lower_digit = λ c s h. ground arith;
  str_digit = λ c h. h;
  hyphen_not_decimal = refl;
  hyphen_not_digit = refl;
}

abbrev no_references : ParsedDecision
no_references = record { supersedes = none; superseded_by = none }

abbrev readers : Readers
readers = record {
  unicode = ascii;
  decode = same;
  encode = same;
  parse_decision = λ text name. some no_references;
}

-- a local decision 3, and a remote one of that number
abbrev local_name : Text
local_name = codes "003-1.md"

abbrev local_text : Text
local_text = codes "# 003 - A\n"

abbrev local_file : DecisionFile
local_file = record { name = local_name; number = 3; text = some local_text; in_memory = false }

abbrev view : DecisionCorpus
view = record {
  files = local_file ∷ [];
  irregular = [];
  names = local_name ∷ [];
  questions = some [];
}

abbrev directory : Directory
directory = (local_name, regular (some local_text)) ∷ []

abbrev store : Store
store = record {
  directory = directory;
  corpus = view;
  hashes = (codes "h", some (codes "003-1")) ∷ [];
}

abbrev around : Surroundings
around = record {
  readers = readers;
  corpus = view;
  directory = directory;
  tracked = [];
  manifest = codes "decisions/003-2.md" ∷ [];
}

view-Valid : Valid readers view
unfolding extract_decision_number remove_suffix leading_digits text_eq list_beq starts_with
    read_digits contains any
view-Valid = record {
  numbered = (refl, tt);
  irregular_numbered = tt;
  listed = λ name n c e. ground arith;
}

abbrev collision : Text
collision = codes "decisions/003-2.md"

abbrev remote_text : Text
remote_text = codes "# 003 - B\n"

-- what a renumbering of the local file gives
abbrev result_or : RenumberResult → Result RenumberError RenumberResult → RenumberResult
result_or other (ok r) = r
result_or other (err e) = other

abbrev nothing : RenumberResult
nothing = record {
  new_name = [];
  new_num = 0;
  renamed = store;
  rewritten = store;
  finished = store;
}

abbrev moved_store : RenumberResult
moved_store = result_or nothing (apply_renumber readers store local_name 3 (5 ∷ []))

local_file_moves : apply_renumber readers store local_name 3 (5 ∷ []) ≡ ok moved_store
unfolding apply_renumber has_name contains text_eq renumbered_name padded_number repeat decimal
    fresh_number maximum claimed_numbers irregular_numbers digits_before read_text_lenient
    read_bytes find_entry heading_number heading_of_lines list_beq all select cut lstrip_by
    starts_with read_digits rename_decision rename_entry renumber_writes retarget_hash_index
    retarget_store rewrite_decision without_entry write_entry pop_file put_file record_renamed
    record_rewritten replace_file heading_line_number is_rewritable join_lines
    rewrite_decision_heading rewrite_lines splitlines after_digits extract_decision_number
    leading_digits remove_suffix strip_number_prefix is_ascii_decimal
local_file_moves = refl

renumber_above_example : All (λ n. n < moved_store.new_num) (claimed_numbers view ++ 5 ∷ [])
renumber_above_example =
    renumber_above readers store local_name 3 (5 ∷ []) moved_store local_file_moves

renumber_destination_free_example :
    (has_name view (renumbered_name readers (fresh_number view (5 ∷ [])) local_name) ≡ false)
    × (apply_renumber readers store local_name 3 (5 ∷ []) ≢ err destination_occupied_error)
renumber_destination_free_example =
    renumber_destination_free readers store local_name 3 (5 ∷ []) ascii-PlainDigits view-Valid

view-Listed : Listed view
unfolding has_name contains text_eq list_beq any
view-Listed = record { names_listed = (refl, tt); unique = (refl, tt) }

renumber_frees_example :
    (length (holders moved_store.finished.corpus moved_store.new_num) ≡ 1)
    × ((m : ℕ)
        → m ≢ moved_store.new_num
        → length (holders moved_store.finished.corpus m) + (if nat_beq 3 m then 1 else 0)
          ≡ length (holders view m))
    × (3 ≢ moved_store.new_num)
unfolding file_named named_in text_eq list_beq
renumber_frees_example =
    renumber_frees readers store local_name 3 (5 ∷ []) local_file moved_store ascii-PlainDigits
      view-Valid view-Listed refl local_file_moves

local_name_named : is_decision_name readers local_name ≡ true
unfolding is_decision_name nauro.Merge.Paths.classify_sync_path nauro.Merge.Paths.sync_input_failure
    nauro.Merge.Paths.is_device starts_with replace nauro.Merge.Paths.has_drive contains
    nauro.Merge.Paths.path_parts split text_eq nauro.Merge.Paths.classify_component_path
    nauro.Merge.Paths.component_class nauro.Merge.Paths.normalize_component_path
    nauro.Merge.Paths.fold_pieces nauro.Merge.Paths.component_pieces nauro.Merge.Paths.named_parts
    list_beq all any cons_head cut ends_with lstrip_by nonempty rstrip_by strip_by
    nauro.Merge.Paths.empty_reason nauro.Merge.Paths.fold_semantic_component
    nauro.Merge.Paths.is_control_root nauro.Merge.Paths.semantic_class
    nauro.Merge.Paths.trimmed_component extract_decision_number leading_digits read_digits
    remove_suffix
local_name_named = refl

store-InStep : InStep readers store
unfolding any find_entry
store-InStep name =
    ground (arith, local_name_named, text_eq.beq_iff local_name name, ap (is_decision_name readers))

moved_name : moved_store.new_name ≡ codes "006-1.md"
unfolding apply_renumber has_name contains text_eq renumbered_name padded_number repeat decimal
    fresh_number maximum claimed_numbers irregular_numbers digits_before read_text_lenient
    read_bytes find_entry heading_number heading_of_lines list_beq all select cut lstrip_by
    starts_with read_digits rename_decision rename_entry renumber_writes retarget_hash_index
    retarget_store rewrite_decision without_entry write_entry pop_file put_file record_renamed
    record_rewritten replace_file heading_line_number is_rewritable join_lines
    rewrite_decision_heading rewrite_lines splitlines after_digits extract_decision_number
    leading_digits remove_suffix strip_number_prefix is_ascii_decimal
moved_name = refl

six_named : is_decision_name readers (codes "006-1.md") ≡ true
unfolding is_decision_name nauro.Merge.Paths.classify_sync_path nauro.Merge.Paths.sync_input_failure
    nauro.Merge.Paths.is_device starts_with replace nauro.Merge.Paths.has_drive contains
    nauro.Merge.Paths.path_parts split text_eq nauro.Merge.Paths.classify_component_path
    nauro.Merge.Paths.component_class nauro.Merge.Paths.normalize_component_path
    nauro.Merge.Paths.fold_pieces nauro.Merge.Paths.component_pieces nauro.Merge.Paths.named_parts
    list_beq all any cons_head cut ends_with lstrip_by nonempty rstrip_by strip_by
    nauro.Merge.Paths.empty_reason nauro.Merge.Paths.fold_semantic_component
    nauro.Merge.Paths.is_control_root nauro.Merge.Paths.semantic_class
    nauro.Merge.Paths.trimmed_component extract_decision_number leading_digits read_digits
    remove_suffix
six_named = refl

new_name_named : is_decision_name readers moved_store.new_name ≡ true
new_name_named = ap (is_decision_name readers) moved_name ∙ six_named

renumber-InStep_example :
    InStep readers moved_store.renamed
    × InStep readers moved_store.rewritten
    × InStep readers moved_store.finished
renumber-InStep_example =
    renumber-InStep readers store local_name 3 (5 ∷ []) moved_store store-InStep local_file_moves
      new_name_named

renumber_on_disk_example :
    (text : Text) × ((read_bytes moved_store.finished.directory moved_store.new_name
        ≡ some (readers.encode text))
      × (heading_number text ≡ some moved_store.new_num)
      × (find_entry moved_store.finished.directory local_name ≡ none)
      × ((name : Text)
          → name ≢ local_name
          → name ≢ moved_store.new_name
          → find_entry moved_store.finished.directory name ≡ find_entry directory name))
unfolding has_name contains text_eq list_beq
renumber_on_disk_example =
    renumber_on_disk readers store local_name 3 (5 ∷ []) moved_store refl local_file_moves

-- the store as the next run scans it, after a rename that was cut off
abbrev cut_store : Store
cut_store = record {
  directory = moved_store.renamed.directory;
  corpus = scan readers (some []) moved_store.renamed.directory;
  hashes = store.hashes;
}

abbrev cut_file : DecisionFile
cut_file = record {
  name = moved_store.new_name;
  number = moved_store.new_num;
  text = some local_text;
  in_memory = false;
}

collision-moves : moves (classify_decision around collision remote_text).outcome ≡ true
unfolding classify_decision is_canonical_decision_path split text_eq is_canonical_filename ends_with
    drop_end any all contains cut has_name case_variant least_text select classify_number
    extract_decision_number leading_digits list_beq cons_head starts_with decimal digits_before
    read_digits repeat classify_collider classify_same_path classify_unpublished isolation_defect
    refuse verdict find_entry holders holders_in irregular_holders is_irregular parsed_decision
    read_bytes references supersession_refs_of unparseable_files verifiable has_rewritable_heading
    has_rewritable_line is_rewritable splitlines padded_number remove_suffix
collision-moves = refl

newcomer_installs :
    installs (classify_decision around (codes "decisions/007-1.md") remote_text).outcome ≡ true
unfolding classify_decision is_canonical_decision_path split text_eq is_canonical_filename ends_with
    drop_end any all contains cut has_name case_variant least_text select classify_number
    extract_decision_number leading_digits list_beq cons_head starts_with decimal digits_before
    read_digits repeat classify_collider classify_same_path classify_unpublished isolation_defect
    refuse verdict find_entry holders holders_in irregular_holders is_irregular parsed_decision
    read_bytes references supersession_refs_of unparseable_files verifiable has_rewritable_heading
    has_rewritable_line is_rewritable splitlines padded_number remove_suffix
newcomer_installs = refl

twin_canonicalizes : canonicalizes (classify_decision around collision local_text).outcome ≡ true
unfolding classify_decision is_canonical_decision_path split text_eq is_canonical_filename ends_with
    drop_end any all contains cut has_name case_variant least_text select classify_number
    extract_decision_number leading_digits list_beq cons_head starts_with decimal digits_before
    read_digits repeat classify_collider classify_same_path classify_unpublished isolation_defect
    refuse verdict find_entry holders holders_in irregular_holders is_irregular parsed_decision
    read_bytes references supersession_refs_of unparseable_files verifiable has_rewritable_heading
    has_rewritable_line is_rewritable splitlines padded_number remove_suffix
twin_canonicalizes = refl

moved_file-Movable_example :
    (f : DecisionFile) × (Mem f view.files
      × (f.name ≢ codes "003-2.md")
      × Movable around remote_text (classify_decision around collision remote_text) f)
moved_file-Movable_example =
    moved_file-Movable around collision remote_text view-Listed collision-moves

install-Unclaimed_example :
    (is_canonical_decision_path ascii (codes "decisions/007-1.md") ≡ true)
    × (has_name view (codes "007-1.md") ≡ false)
    × (case_variant readers view (codes "007-1.md") ≡ none)
    × Unclaimed view (extract_decision_number ascii (codes "007-1.md"))
install-Unclaimed_example =
    install-Unclaimed around (codes "decisions/007-1.md") remote_text newcomer_installs

-- Backups

abbrev hex_digit : ℕ → ℕ
hex_digit c = if leb c b'9' then c - b'0' else c - 55

abbrev int16 : ℕ → ℕ → Option ℕ
int16 h l = some (16 * hex_digit h + hex_digit l)

ascii-AsciiBytes : AsciiBytes (λ c. c ∷ []) int16
ascii-AsciiBytes = record { ascii = λ c h. refl; hex = λ h l p q. ap some (ground arith) }

abbrev dotted_path : Text
dotted_path = codes "Decisions/a b."

decode-encode_path_example :
    decode_path (λ c. c ∷ []) int16 (λ bytes. bytes) (encode_path dotted_path) ≡ dotted_path
decode-encode_path_example =
    decode-encode_path (λ c. c ∷ []) int16 (λ text. text) (λ bytes. bytes) dotted_path
      ascii-AsciiBytes (ground arith) refl

-- 40 letters of two bytes each, of which the cut splits one
abbrev accents : ℕ → Text
accents zero = []
accents (suc n) = 0xC3 ∷ 0xA9 ∷ accents n

abbrev long_path : Text
long_path = codes "decisions/aaaa" ++ accents 40

decoded-truncate_encoded_example :
    (length (truncate_encoded (encode_path long_path)) ≤ 145)
    × ((left : Text) × (long_path
          ≡ decoded_bytes (λ c. c ∷ []) int16 (truncate_encoded (encode_path long_path)) ++ left))
decoded-truncate_encoded_example =
    decoded-truncate_encoded (λ c. c ∷ []) int16 long_path ascii-AsciiBytes (ground arith)

-- Pulls

abbrev no_files : FileSystem
no_files = record {
  long_component = λ parent c. found c;
  lstat = λ path. missing;
  readlink = λ path. none;
}

abbrev inside : Destination
inside = record {
  inside_store = true;
  inside_decisions = false;
  is_directory = false;
  exists = false;
}

abbrev digests : Digests
digests = record { sha256 = same; md5 = same; lower = same }

abbrev around_store : LocalStore
around_store = record {
  platform = record { windows = false; casefold = same; normcase = same };
  filesystem = no_files;
  root = record { native_anchor = codes "/"; canonical_parts = codes "store" ∷ [] };
  unicode = ascii;
  digests = digests;
  resolve_destination = λ rel. inside;
  file_at = λ rel. if rel == codes "notes.md" then holds (codes "old") else absent;
}

abbrev synced : SyncState
synced = record {
  files =
      (
        codes "notes.md",
        record { local_sha256 = codes "old"; remote_etag = codes "1"; last_sync = [] },
      )
      ∷ [];
  last_full_sync = [];
}

abbrev changed_entry : ManifestEntry
changed_entry = record { path = codes "notes.md"; etag = codes "2" }

abbrev installed : Routing
installed = record { route = Route.install; local_sha256 = []; decision_domain = false }

changed_entry_installs : route_entry around_store changed_entry synced true ≡ ok installed
unfolding route_entry nauro.Merge.Skip.should_skip nauro.Merge.Paths.classify_sync_path
    nauro.Merge.Paths.sync_input_failure nauro.Merge.Paths.is_device starts_with replace
    nauro.Merge.Paths.has_drive contains nauro.Merge.Paths.path_parts split text_eq
    nauro.Merge.Paths.classify_component_path nauro.Merge.Paths.component_class
    nauro.Merge.Paths.normalize_component_path nauro.Merge.Paths.fold_pieces
    nauro.Merge.Paths.component_pieces nauro.Merge.Paths.named_parts list_beq all any
    nauro.Base.after_last cons_head cut drop_end ends_with lstrip_by nonempty rstrip_by strip_by
    nauro.Merge.Native.Walk.admit_native_path nauro.Merge.Native.Walk.advance
    nauro.Merge.Native.Walk.follow_parts nauro.Merge.Native.Walk.follow_target
    nauro.Merge.Native.Walk.missing_admission nauro.Merge.Native.Walk.missing_parts
    nauro.Merge.Native.Walk.native_landing nauro.Merge.Native.Walk.part_step
    nauro.Merge.Native.Walk.pop_stack nauro.Merge.Native.Walk.require_ordinary
    nauro.Merge.Native.Walk.stack_components nauro.Merge.Native.Walk.visit
    nauro.Merge.Native.Walk.visit_entry nauro.Merge.Native.Walk.visit_found
    nauro.Merge.Native.Walk.visit_link nauro.Merge.Native.Walk.visit_long
    nauro.Merge.Native.Walk.walk nauro.Merge.Native.is_link_or_reparse
    nauro.Merge.Native.metadata_kind nauro.Merge.Native.native_relative_parts
    nauro.Merge.Paths.empty_reason nauro.Merge.Paths.fold_semantic_component
    nauro.Merge.Paths.is_control_root nauro.Merge.Paths.semantic_class
    nauro.Merge.Paths.trimmed_component nauro.Merge.Skip.is_tmp_sibling
    nauro.Merge.Skip.normalize_rel Route.destination_admitted Route.is_canonical_snapshot_path
    Route.is_decision_path Route.needs_decision_gate Route.route_admitted Route.route_destination
    nauro.Sync.State.compare_local_file nauro.Sync.State.content_md5
    nauro.Sync.State.file_changed_locally nauro.Sync.State.file_changed_remotely find_state
changed_entry_installs = refl

route_install-Installable_example : Installable around_store changed_entry synced
route_install-Installable_example =
    route_install-Installable around_store changed_entry synced true installed
      changed_entry_installs refl

abbrev one_pull : Worklists
one_pull = record empty_worklists {
  pulls = record { rel = codes "notes.md"; etag = codes "2"; decision_domain = false } ∷ [];
}

changed_entry_sorted : triage around_store synced true view (changed_entry ∷ []) ≡ ok one_pull
unfolding triage sort_entries
changed_entry_sorted = rw changed_entry_installs refl

triage-sorted_example :
    (routed : List Routed) × (route_all around_store synced true (changed_entry ∷ []) ≡ ok routed)
    × (one_pull ≡ record (sorted around_store synced true view routed) {
      contested = [];
      decisions =
          picked (contested_gate around_store synced true view) routed
          ++ picked (free_gate around_store synced true view) routed;
    })
triage-sorted_example =
    triage-sorted around_store synced true view (changed_entry ∷ []) one_pull changed_entry_sorted

-- a disk that refuses one file
abbrev refused_write : Write → Bool
refused_write (file_write path) = path == codes "notes.md"
refused_write _ = false

abbrev context : PullContext
context = record {
  readers = readers;
  local_store = around_store;
  codec = record { decode = same; encode = same };
  now = codes "now";
  encode_utf8 = same;
  decode_replace = same;
  digest = same;
  manifest_paths = collision ∷ [];
  decision_numbers = 3 ∷ 5 ∷ [];
  write_fails = refused_write;
}

abbrev start : Run
start = record {
  store = store;
  files = (codes "notes.md", regular (some (codes "old"))) ∷ [];
  state = synced;
  backups = [];
  tally = record { merged = 0; adopted = 0; refused = 0; skipped_permanent = 0 };
}

abbrev batch : List (Option Transfer)
batch = some (record { rel = collision; etag = codes "3"; content = remote_text }) ∷ none ∷ []

apply_batch-NoNewRival_example : NoNewRival view (apply_batch context start batch).store.corpus
apply_batch-NoNewRival_example = apply_batch-NoNewRival context start batch ascii-PlainDigits

abbrev clean_pull : Transfer
clean_pull = record { rel = codes "notes.md"; etag = codes "2"; content = codes "new" }

abbrev adopted : AdoptedFile
adopted = record {
  rel = codes "a.md";
  etag = codes "9";
  local_sha256 = codes "a";
  decision_domain = false;
}

abbrev work : Work
work = record {
  decisions = batch;
  ignored_decisions = 0;
  adopted = adopted ∷ [];
  pulls =
      record { rel = codes "notes.md"; decision_domain = false; fetched = some clean_pull } ∷ [];
  conflicts = [];
}

-- a heading with two blanks comes before one that can be rewritten
abbrev lax_heading_first : Text
lax_heading_first = codes "#  005 - x\n# 005 - y\n"

lax_heading_stays : heading_number (rewrite_decision_heading lax_heading_first 5 9) ≡ some 5
unfolding heading_number heading_of_lines list_beq all cut lstrip_by starts_with read_digits repeat
    decimal digits_before padded_number heading_line_number is_rewritable join_lines
    rewrite_decision_heading rewrite_lines splitlines is_ascii_decimal contains text_eq
lax_heading_stays = refl
