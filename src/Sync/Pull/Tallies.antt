-- ===== src/Sync/Pull/Tallies.antt =====
-- How a batch of remote decisions is counted: packages/nauro/src/nauro/sync/pull.py.
use nauro.Base.{
  Text, refl, ap, contains, text_eq, nat_eq, ◌>>=◌, ℕ, suc, ◌+◌, ◌≡◌, ◌∙◌, List, [], ◌∷◌, Option,
  none, some, arith, Bool-cases, inl, inr, length, Result, ok, err,
}
use nauro.Merge.Conflict.{Bytes, Side, local, set_union_paths, read_backup, resolve_conflict}
use nauro.Sync.Corpus.{record_added}
use nauro.Sync.Quarantine.{save_quarantine_backup}
use nauro.Sync.Route.{destination_admitted}
use nauro.Sync.Collisions.{
  DecisionOutcome, install, adopt, canonicalize, renumber_local, quarantine, DecisionVerdict,
  filename_of,
}
use nauro.Sync.Collisions as Collisions
use nauro.Sync.Collisions.Apply.{
  Store, write_entry, RenumberError, destination_occupied_error, heading_rewrite_error, os_error,
  RenumberResult,
}
use nauro.Sync.Pull.{
  Transfer, Tally, PullContext, Run, Write, file_write, backup_write, index_write, attempt,
  backup_attempt, attempt_backup, merged_run, skip_transfer, record_state, install_transfer,
  quarantine_transfer, adopt_content, adopt_renamed, resolve_and_record, act_on, classify_transfer,
  after_renumber, renumber_for, apply_verdict, apply_decision, guarded_step, apply_planned,
  apply_batch, is_refused,
}

unfoldable pub total : Tally → ℕ
total t = t.merged + t.adopted + t.refused + t.skipped_permanent

module _ (context : PullContext) where
  -- a step that is counted once
  abbrev pub Counted : Tally → Result Run Run → Type 0
  Counted tally m = total (guarded_step context m).tally ≡ suc (total tally)

  pub err_Counted : (run : Run) → Counted run.tally (err run)
  unfolding total
  err_Counted run = omega arith

  pub attempt-Counted :
      (tally : Tally) (w : Write) (before after : Run) (next : Run → Result Run Run)
      → total before.tally ≡ total tally
      → Counted tally (next after)
      → Counted tally (attempt context w before after >>= next)
  attempt-Counted tally w before after next h k = elim (Bool-cases (context.write_fails w)) [
    | inl e ↦ rw e (err_Counted before ∙ ap suc h)
    | inr e ↦ rw e k
  ]

  backup_attempt-Counted :
      (o : Option Bytes) (name : Text) (before after : Run) (next : Run → Result Run Run)
      → Counted before.tally (next after)
      → Counted before.tally (backup_attempt context o name before after >>= next)
  backup_attempt-Counted none name before after next k =
      attempt-Counted before.tally (backup_write name) before after next refl k
  backup_attempt-Counted (some existing) name before after next k = k

  pub attempt_backup-Counted :
      (run : Run) (t : Transfer) (saved : Run) (next : Run → Result Run Run)
      → Counted run.tally (next saved)
      → Counted run.tally (attempt_backup context run t saved >>= next)
  attempt_backup-Counted run t saved next k = elim (Bool-cases (contains set_union_paths t.rel)) [
    | inl e ↦ rw e k
    | inr e ↦ rw e (attempt-Counted run.tally (backup_write t.rel) run saved next refl k)
  ]

  pub skip-Counted : (run : Run) → Counted run.tally (ok (skip_transfer context run))
  unfolding total
  skip-Counted run = omega arith

  pub merged-Counted :
      (tally : Tally) (run : Run) (t : Transfer) (content : Bytes)
      → total run.tally ≡ total tally
      → Counted tally (ok (merged_run context (record_state context run t content)))
  unfolding total
  merged-Counted tally run t content h = omega (arith, h)

  quarantine-Counted :
      (run : Run) (t : Transfer) → Counted run.tally (quarantine_transfer context run t)
  unfolding quarantine_transfer
  quarantine-Counted run t =
      let (name, backups) =
        save_quarantine_backup context.digest (context.encode_utf8 t.rel) t.content
          (context.encode_utf8 t.etag) run.backups in
      backup_attempt-Counted (read_backup name run.backups) name run
        (record run { backups = backups }) (λ saved. ok (skip_transfer context saved))
        (skip-Counted (record run { backups = backups }))

  adopt_content-Counted :
      (run : Run) (t : Transfer) (o : Option Bytes)
      → Counted run.tally (adopt_content context run t o)
  unfolding total
  adopt_content-Counted run t none = err_Counted run
  adopt_content-Counted run t (some content) = omega arith

  adopt_renamed-Counted :
      (run : Run) (t : Transfer) (m : Result RenumberError Store)
      → Counted run.tally (adopt_renamed context run t m)
  adopt_renamed-Counted run t (err e) = err_Counted run
  adopt_renamed-Counted run t (ok store) = attempt-Counted run.tally _ run _ _ refl (
      attempt-Counted run.tally index_write _ _ _ refl
        (adopt_content-Counted (record run { store = store }) t _))

  resolve_and_record-Counted :
      (run : Run) (t : Transfer) (keeps : Side) (o : Option Bytes)
      → Counted run.tally (resolve_and_record context run t keeps o)
  resolve_and_record-Counted run t keeps none = err_Counted run
  resolve_and_record-Counted run t keeps (some mine) =
      let (content, backups) =
        resolve_conflict context.codec context.now mine t.content t.rel keeps run.backups in
      let saved = record run { backups = backups } in
      let written = record saved {
        store = record run.store {
          directory = write_entry run.store.directory (filename_of t.rel) content;
        };
      } in
      attempt_backup-Counted run t saved _ (
        attempt-Counted run.tally (file_write t.rel) saved written
          (λ w. ok (merged_run context (record_state context w t content))) refl
          (merged-Counted run.tally written t content refl))

  install-Counted : (run : Run) (t : Transfer) → Counted run.tally (install_transfer context run t)
  install-Counted run t =
      let name = filename_of t.rel in
      let written = record run {
        store = record run.store {
          directory = write_entry run.store.directory name t.content;
          corpus =
              record_added context.readers run.store.corpus name (context.decode_replace t.content);
        };
      } in
      attempt-Counted run.tally (file_write t.rel) run written
        (λ w. ok (merged_run context (record_state context w t t.content))) refl
        (merged-Counted run.tally written t t.content refl)

  act_on-Counted :
      (run : Run) (t : Transfer) (v : DecisionVerdict) (o : DecisionOutcome)
      → Counted run.tally (act_on context run t v o)
  unfolding total
  act_on-Counted run t v quarantine = quarantine-Counted run t
  act_on-Counted run t v renumber_local = quarantine-Counted run t
  act_on-Counted run t v adopt = adopt_content-Counted run t _
  act_on-Counted run t v canonicalize = adopt_renamed-Counted run t _
  act_on-Counted run t v install =
      elim (Bool-cases (is_refused (destination_admitted context.local_store t.rel))) [
        | inl e ↦ rw e (omega arith)
        | inr e ↦ rw e (install-Counted run t)
      ]
  act_on-Counted run t v Collisions.resolve_conflict =
      elim (Bool-cases (is_refused (destination_admitted context.local_store t.rel))) [
        | inl e ↦ rw e (omega arith)
        | inr e ↦ rw e (resolve_and_record-Counted run t local _)
      ]

  after_renumber-Counted :
      (run : Run) (t : Transfer) (m : Result RenumberError RenumberResult)
      → Counted run.tally (after_renumber context run t m)
  unfolding after_renumber
  after_renumber-Counted run t (err os_error) = err_Counted run
  after_renumber-Counted run t (err destination_occupied_error) = quarantine-Counted run t
  after_renumber-Counted run t (err heading_rewrite_error) = quarantine-Counted run t
  after_renumber-Counted run t (ok r) =
      let next = record run { store = r.finished } in
      attempt-Counted run.tally _ run _ _ refl (
        attempt-Counted run.tally _ _ _ _ refl (
          attempt-Counted run.tally index_write _ _ _ refl
            (act_on-Counted next t (classify_transfer context next t) _)))

  renumber_for-Counted :
      (run : Run) (t : Transfer) (v : DecisionVerdict) (o : Option ℕ)
      → Counted run.tally (renumber_for context run t v o)
  renumber_for-Counted run t v none = err_Counted run
  renumber_for-Counted run t v (some number) = after_renumber-Counted run t _

  apply_verdict-Counted :
      (run : Run) (t : Transfer) (v : DecisionVerdict) (o : DecisionOutcome)
      → Counted run.tally (apply_verdict context run t v o)
  apply_verdict-Counted run t v renumber_local = renumber_for-Counted run t v _
  apply_verdict-Counted run t v install = act_on-Counted run t v install
  apply_verdict-Counted run t v adopt = act_on-Counted run t v adopt
  apply_verdict-Counted run t v canonicalize = act_on-Counted run t v canonicalize
  apply_verdict-Counted run t v quarantine = act_on-Counted run t v quarantine
  apply_verdict-Counted run t v Collisions.resolve_conflict =
      act_on-Counted run t v Collisions.resolve_conflict

  apply_planned-total :
      (run : Run) (planned : Option Transfer)
      → total (apply_planned context run planned).tally ≡ suc (total run.tally)
  unfolding apply_planned apply_decision total
  apply_planned-total run none = omega arith
  apply_planned-total run (some t) = apply_verdict-Counted run t (classify_transfer context run t) _

-- A batch of planned decisions is counted in full: each of them, whether it was merged, adopted, set aside,
-- not fetched or stopped by an error, is counted once.
pub total-apply_batch :
    (context : PullContext) (run : Run) (batch : List (Option Transfer))
    → total (apply_batch context run batch).tally ≡ total run.tally + length batch
unfolding apply_batch
total-apply_batch context run [] = omega arith
total-apply_batch context run (planned ∷ batch) =
    total-apply_batch context (apply_planned context run planned) batch
    ∙ omega (arith, apply_planned-total context run planned)
