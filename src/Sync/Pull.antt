-- ===== src/Sync/Pull.antt =====
-- packages/nauro/src/nauro/sync/pull.py: the treatment of one remote decision under the decision lock, and
-- the tally of a batch. An `OSError` comes from a read of what is not there or from a write that the
-- context says fails, and leaves the run as it was at that point.
pub mod Triage
pub mod Laws
pub mod Writes
pub mod Tallies
pub mod Sorted
use nauro.Base.{
  ℕ, suc, Bool, true, false, not, ◌&&◌, ◌||◌, List, [], ◌∷◌, ◌++◌, map, Option, none, some, Text,
  codes, nat_beq, contains, ◌==◌, if◌then◌else◌, text_eq, nat_eq, Eq, Result, ok, err, ◌>>=◌,
}
use nauro.Merge.Conflict.{
  Bytes, Backups, Codec, Side, local, remote, read_backup, set_union_paths, resolve_conflict,
}
use nauro.Sync.Names.{extract_decision_number}
use nauro.Sync.Corpus.{Directory, Readers, read_bytes, DecisionCorpus, record_added}
use nauro.Sync.State.{SyncState, is_tracked, update_file_state}
use nauro.Sync.Route.{
  LocalStore, destination_admitted, Admitted, admitted, refused, decision_name, needs_decision_gate,
  Destination,
}
use nauro.Sync.Quarantine.{save_quarantine_backup}
use nauro.Sync.Collisions.{
  DecisionOutcome, install, adopt, canonicalize, renumber_local, quarantine, QuarantineReason,
  ambiguous_colliders, destination_occupied, heading_not_rewritable, DecisionVerdict, refuse,
  Surroundings, classify_decision, filename_of,
}
use nauro.Sync.Collisions as Collisions
use nauro.Sync.Collisions.Apply.{
  Store, RenumberError, destination_occupied_error, heading_rewrite_error, os_error, RenumberResult,
  apply_renumber, apply_canonicalize, write_entry,
}

pub record Transfer : Type 0 where
  pub rel : Text
  pub etag : Text
  pub content : Bytes

pub record Tally : Type 0 where
  pub merged : ℕ
  pub adopted : ℕ
  pub refused : ℕ
  pub skipped_permanent : ℕ

-- the writes that the operating system may refuse: a file under its path, a backup under its name, the
-- renaming of a decision to a name, and the hash index, which may be refused where nothing in it changes
pub data Write : Type 0 where
  file_write backup_write rename_write : Text → Write
  index_write : Write

-- what a pull works with: the readers, the store around the decisions, the clock, the codecs, a digest, and the
-- paths and the decision numbers of the server's manifest
pub record PullContext : Type 0 where
  pub readers : Readers
  pub local_store : LocalStore
  pub codec : Codec
  pub now : Text
  pub encode_utf8 : Text → Bytes
  pub decode_replace : Bytes → Text
  pub digest : Bytes → Text
  pub manifest_paths : List Text
  pub decision_numbers : List ℕ
  pub write_fails : Write → Bool

-- `files`: the files that are written without classification, by their paths; a tracked decision that
-- is pulled after the gated ones is among them
pub record Run : Type 0 where
  pub store : Store
  pub files : Directory
  pub state : SyncState
  pub backups : Backups
  pub tally : Tally

abbrev pub count_merged : Tally → Tally
count_merged t = record t { merged = suc t.merged }

abbrev pub count_adopted : Tally → Tally
count_adopted t = record t { adopted = suc t.adopted }

abbrev pub count_refused : Tally → Tally
count_refused t = record t { refused = suc t.refused }

abbrev pub count_skipped : Tally → Tally
count_skipped t = record t { skipped_permanent = suc t.skipped_permanent }

unfoldable pub conflict_side : Text → SyncState → Side
conflict_side rel state = if is_tracked state rel then local else remote

abbrev pub is_refused : Admitted → Bool
is_refused (refused why) = true
is_refused (admitted a) = false

-- the last check before a write that is not classified
unfoldable pub generic_write_allowed : LocalStore → Text → SyncState → Bool
generic_write_allowed store rel state =
    let destination = store.resolve_destination rel in
    if is_refused (destination_admitted store rel)
    then false
    else if not destination.inside_store
    then false
    else if destination.is_directory
    then false
    else not (needs_decision_gate store rel destination state)

module _ (context : PullContext) where
  abbrev pub surroundings : Run → Surroundings
  surroundings run = record {
    readers = context.readers;
    corpus = run.store.corpus;
    directory = run.store.directory;
    tracked = map (λ f. f.0) run.state.files;
    manifest = context.manifest_paths;
  }

  -- a write that gives the second run, or stops with the first
  abbrev pub attempt : Write → Run → Run → Result Run Run
  attempt write before after = if context.write_fails write then err before else ok after

  abbrev pub merged_run : Run → Run
  merged_run run = record run { tally = count_merged run.tally }

  abbrev pub skip_transfer : Run → Run
  skip_transfer run = record run { tally = count_skipped run.tally }

  -- a backup that is there is not written again
  abbrev pub backup_attempt : Option Bytes → Text → Run → Run → Result Run Run
  backup_attempt (some existing) name before after = ok after
  backup_attempt none name before after = attempt (backup_write name) before after

  -- `_quarantine`
  unfoldable pub quarantine_transfer : Run → Transfer → Result Run Run
  quarantine_transfer run t =
      let (name, backups) =
        save_quarantine_backup context.digest (context.encode_utf8 t.rel) t.content
          (context.encode_utf8 t.etag) run.backups in
      backup_attempt (read_backup name run.backups) name run (record run { backups = backups })
      >>= λ saved. ok (skip_transfer saved)

  -- `update_file_state(state, rel, compute_sha256(file), etag)`
  abbrev pub record_state : Run → Transfer → Bytes → Run
  record_state run t content = record run {
    state =
        update_file_state context.now run.state t.rel (context.local_store.digests.sha256 content)
          t.etag;
  }

  abbrev pub adopt_content : Run → Transfer → Option Bytes → Result Run Run
  adopt_content run t none = err run
  adopt_content run t (some content) =
      let next = record_state run t content in ok (record next { tally = count_adopted next.tally })

  -- the rename comes before the hash index
  abbrev pub adopt_renamed : Run → Transfer → Result RenumberError Store → Result Run Run
  adopt_renamed run t (err e) = err run
  adopt_renamed run t (ok store) =
      attempt (rename_write (filename_of t.rel)) run
        (record run { store = record store { hashes = run.store.hashes } })
      >>= λ renamed. attempt index_write renamed (record renamed { store = store }) >>= λ done.
          adopt_content done t (read_bytes store.directory (filename_of t.rel))

  -- a union has no losing side, so nothing is backed up
  abbrev pub attempt_backup : Run → Transfer → Run → Result Run Run
  attempt_backup run t saved =
      if contains set_union_paths t.rel then ok saved else attempt (backup_write t.rel) run saved

  -- `_resolve_and_record`: the backup comes before the file
  abbrev pub resolve_and_record : Run → Transfer → Side → Option Bytes → Result Run Run
  resolve_and_record run t keeps none = err run
  resolve_and_record run t keeps (some mine) =
      let (content, backups) =
        resolve_conflict context.codec context.now mine t.content t.rel keeps run.backups in
      attempt_backup run t (record run { backups = backups }) >>= λ saved.
      attempt (file_write t.rel) saved (record saved {
        store = record saved.store {
          directory = write_entry saved.store.directory (filename_of t.rel) content;
        };
      })
      >>= λ written. ok (merged_run (record_state written t content))

  abbrev pub install_transfer : Run → Transfer → Result Run Run
  install_transfer run t =
      let name = filename_of t.rel in
      attempt (file_write t.rel) run (record run {
        store = record run.store {
          directory = write_entry run.store.directory name t.content;
          corpus =
              record_added context.readers run.store.corpus name (context.decode_replace t.content);
        };
      })
      >>= λ written. ok (merged_run (record_state written t t.content))

  abbrev pub first_of : List Text → Text
  first_of [] = []
  first_of (name ∷ names) = name

  -- a verdict that asks for no renumbering
  abbrev pub act_on : Run → Transfer → DecisionVerdict → DecisionOutcome → Result Run Run
  act_on run t v quarantine = quarantine_transfer run t
  act_on run t v canonicalize =
      adopt_renamed run t
        (apply_canonicalize context.readers run.store (first_of v.colliders) (filename_of t.rel))
  act_on run t v adopt = adopt_content run t (read_bytes run.store.directory (first_of v.colliders))
  act_on run t v Collisions.resolve_conflict =
      if is_refused (destination_admitted context.local_store t.rel)
      then ok (skip_transfer run)
      else resolve_and_record run t local (read_bytes run.store.directory (filename_of t.rel))
  act_on run t v install =
      if is_refused (destination_admitted context.local_store t.rel)
      then ok (skip_transfer run)
      else install_transfer run t
  act_on run t v renumber_local = quarantine_transfer run t

  abbrev pub classify_transfer : Run → Transfer → DecisionVerdict
  classify_transfer run t = classify_decision (surroundings run) t.rel t.content

  unfoldable pub after_renumber :
      Run → Transfer → Result RenumberError RenumberResult → Result Run Run
  after_renumber run t (err os_error) = err run
  after_renumber run t (err _) = quarantine_transfer run t
  after_renumber run t (ok r) =
      attempt (rename_write r.new_name) run (record run { store = r.renamed }) >>= λ renamed.
      attempt (file_write r.new_name) renamed (record renamed { store = r.rewritten })
      >>= λ rewritten.
          attempt index_write rewritten (record rewritten { store = r.finished }) >>= λ next.
          let v = classify_transfer next t in act_on next t v v.outcome

  -- a renumber verdict names a numbered collider, which the source asserts
  abbrev pub renumber_for : Run → Transfer → DecisionVerdict → Option ℕ → Result Run Run
  renumber_for run t v none = err run
  renumber_for run t v (some number) = after_renumber run t (
      apply_renumber context.readers run.store (first_of v.colliders) number
        context.decision_numbers)

  abbrev pub apply_verdict : Run → Transfer → DecisionVerdict → DecisionOutcome → Result Run Run
  apply_verdict run t v renumber_local =
      renumber_for run t v (extract_decision_number context.readers.unicode (decision_name t.rel))
  apply_verdict run t v outcome = act_on run t v outcome

  -- `_apply_decision`
  unfoldable pub apply_decision : Run → Transfer → Result Run Run
  apply_decision run t = let v = classify_transfer run t in apply_verdict run t v v.outcome

  -- `_guarded_step`
  abbrev pub guarded_step : Result Run Run → Run
  guarded_step (ok run) = run
  guarded_step (err run) = record run { tally = count_refused run.tally }

  -- one planned decision: none where it was not fetched
  unfoldable pub apply_planned : Run → Option Transfer → Run
  apply_planned run none = record run { tally = count_refused run.tally }
  apply_planned run (some t) = guarded_step (apply_decision run t)

  unfoldable pub apply_batch : Run → List (Option Transfer) → Run
  apply_batch run [] = run
  apply_batch run (planned ∷ batch) = apply_batch (apply_planned run planned) batch
