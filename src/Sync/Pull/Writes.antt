-- ===== src/Sync/Pull/Writes.antt =====
-- packages/nauro/src/nauro/sync/pull.py: the write phase of a run. It finishes interrupted renumberings and
-- applies the gated decisions, records the adopted files, and writes the clean pulls and the conflicts,
-- in that order. A transfer is none where the file could not be fetched.
pub mod Laws
use nauro.Base.{
  ℕ, suc, ◌+◌, ◌≡◌, refl, ap, ◌∙◌, Bool, true, false, not, ◌&&◌, ◌||◌, List, [], ◌∷◌, Option, none,
  some, Text, nat_beq, arith, Bool-cases, inl, inr, length, select, contains, text_eq, nat_eq, Eq,
  if◌then◌else◌, Result, ok, err, ◌>>=◌,
}
use nauro.Merge.Conflict.{Bytes, resolve_conflict, set_union_paths}
use nauro.Sync.Corpus.{read_bytes, DecisionFile, DecisionCorpus}
use nauro.Sync.State.{update_file_state}
use nauro.Sync.Collisions.Apply.{Store, write_entry}
use nauro.Sync.Collisions.Complete.{
  Completion, repair, complete_heading, complete_all, is_contested, mismatched_files,
  repair_dangling_stems, run_completion_pass,
}
use nauro.Sync.Pull.{
  Transfer, Tally, PullContext, Run, Write, file_write, backup_write, index_write, count_adopted,
  count_refused, conflict_side, attempt, attempt_backup, merged_run, generic_write_allowed,
  record_state, skip_transfer, guarded_step, apply_batch,
}
use nauro.Sync.Pull.Tallies.{
  total, total-apply_batch, Counted, err_Counted, skip-Counted, merged-Counted, attempt-Counted,
  attempt_backup-Counted,
}
use nauro.Sync.Pull.Triage.{AdoptedFile}

-- a file that is queued, with what was fetched for it
pub record Queued : Type 0 where
  pub rel : Text
  pub decision_domain : Bool
  pub fetched : Option Transfer

-- whether `decisions/` is usable under the lock, is not usable any more, or was not at the triage
pub data DecisionWork : Type 0 where
  usable lost unready : DecisionWork

-- the lists of a run
pub record Work : Type 0 where
  pub decisions : List (Option Transfer)
  pub ignored_decisions : ℕ
  pub adopted : List AdoptedFile
  pub pulls : List Queued
  pub conflicts : List Queued

-- a repair of the completion pass is a write
abbrev pub repairs : Completion → Bool
repairs (repair r) = true
repairs _ = false

module _ (context : PullContext) where
  -- the completion pass, up to a write that fails
  unfoldable pub complete_attempts :
      DecisionCorpus → List (DecisionFile × ℕ) → Store → Result Store Store
  complete_attempts listed [] s = ok s
  complete_attempts listed ((entry, heading) ∷ mismatches) s =
      let (completion, next) =
        complete_heading context.readers s entry heading (is_contested listed entry.number) in
      let rest = complete_attempts listed mismatches next in
      if repairs completion && context.write_fails (file_write entry.name) then err s else rest

  abbrev pub repoint : Store → Result Store Store
  repoint s =
      if context.write_fails index_write
      then err s
      else ok (record s { hashes = repair_dangling_stems context.readers s.corpus.files s.hashes })

  abbrev pub complete_store : Store → Result Store Store
  complete_store s = complete_attempts s.corpus (mismatched_files s.corpus.files) s >>= repoint

  -- a pass that is stopped is counted as one refusal
  abbrev pub completed : Run → Result Store Store → Run
  completed run (ok s) = record run { store = s }
  completed run (err s) = record run { store = s; tally = count_refused run.tally }

  abbrev pub refused_if : Result Store Store → ℕ
  refused_if (ok s) = 0
  refused_if (err s) = 1

  unfoldable pub completion_step : Run → Run
  completion_step run = completed run (complete_store run.store)

  unfoldable pub pull_file : Run → Transfer → Result Run Run
  pull_file run t =
      if generic_write_allowed context.local_store t.rel run.state
      then (attempt context (file_write t.rel) run
            (record run { files = write_entry run.files t.rel t.content })
          >>= λ written. ok (merged_run context (record_state context written t t.content)))
      else ok (skip_transfer context run)

  -- the backup comes before the file
  abbrev pub resolve_file : Run → Transfer → Option Bytes → Result Run Run
  resolve_file run t none = err run
  resolve_file run t (some mine) =
      let (content, backups) =
        resolve_conflict context.codec context.now mine t.content t.rel
          (conflict_side t.rel run.state) run.backups in
      attempt_backup context run t (record run { backups = backups }) >>= λ saved.
      attempt context (file_write t.rel) saved
        (record saved { files = write_entry saved.files t.rel content })
      >>= λ written. ok (merged_run context (record_state context written t content))

  unfoldable pub merge_file : Run → Transfer → Result Run Run
  merge_file run t =
      if generic_write_allowed context.local_store t.rel run.state
      then resolve_file run t (read_bytes run.files t.rel)
      else ok (skip_transfer context run)

  -- one item of `_stream` under a guard
  abbrev pub apply_fetched : (Run → Transfer → Result Run Run) → Run → Option Transfer → Run
  apply_fetched step run none = record run { tally = count_refused run.tally }
  apply_fetched step run (some t) = guarded_step context (step run t)

  unfoldable pub apply_stream : (Run → Transfer → Result Run Run) → Run → List Queued → Run
  apply_stream step run [] = run
  apply_stream step run (item ∷ items) =
      apply_stream step (apply_fetched step run item.fetched) items

  abbrev pub adopt_file : Run → AdoptedFile → Run
  adopt_file run file = record run {
    state = update_file_state context.now run.state file.rel file.local_sha256 file.etag;
    tally = count_adopted run.tally;
  }

  unfoldable pub record_adopted : Run → List AdoptedFile → Run
  record_adopted run [] = run
  record_adopted run (file ∷ files) = record_adopted (adopt_file run file) files

  -- the stamp of a full sync, only where nothing was refused
  abbrev pub stamp : Run → Run
  stamp run =
      if nat_beq run.tally.refused 0
      then record run { state = record run.state { last_full_sync = context.now } }
      else run

  -- `in_domain` of `drop_decision_domain`
  abbrev pub in_domain : Text → Bool → Bool
  in_domain rel decision_domain =
      decision_domain || (context.local_store.resolve_destination rel).inside_decisions

  abbrev pub adopted_in_domain : AdoptedFile → Bool
  adopted_in_domain file = in_domain file.rel file.decision_domain

  abbrev pub queued_in_domain : Queued → Bool
  queued_in_domain item = in_domain item.rel item.decision_domain

  unfoldable pub drop_decision_domain : Work → Work × ℕ
  drop_decision_domain work = (
    record work {
      pulls = select (λ item. not (queued_in_domain item)) work.pulls;
      conflicts = select (λ item. not (queued_in_domain item)) work.conflicts;
      adopted = select (λ file. not (adopted_in_domain file)) work.adopted;
    },
    length (select queued_in_domain work.pulls)
        + length (select queued_in_domain work.conflicts)
        + length (select adopted_in_domain work.adopted),
  )

  abbrev pub refuse_many : ℕ → Run → Run
  refuse_many n run = record run { tally = record run.tally { refused = run.tally.refused + n } }

  -- the decisions, under the lock
  unfoldable pub decision_phase : DecisionWork → Run → Work → Run × Work
  decision_phase usable run work = (apply_batch context (completion_step run) work.decisions, work)
  decision_phase lost run work =
      let (kept, dropped) = drop_decision_domain work in
      (refuse_many (length work.decisions + dropped + work.ignored_decisions) run, kept)
  decision_phase unready run work = (run, work)

  abbrev pub generic_phase : Run × Work → Run
  generic_phase (run, work) = stamp (
      apply_stream merge_file (apply_stream pull_file (record_adopted run work.adopted) work.pulls)
        work.conflicts)

  unfoldable pub write_phase : DecisionWork → Run → Work → Run
  write_phase state run work = generic_phase (decision_phase state run work)
