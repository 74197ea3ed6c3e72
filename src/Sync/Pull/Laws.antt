-- ===== src/Sync/Pull/Laws.antt =====
-- Laws of the treatment of remote decisions: packages/nauro/src/nauro/sync/pull.py.
use nauro.Base.{
  ℕ, ◌≡◌, refl, sym, ap, true, List, [], ◌∷◌, Option, none, some, Text, arith, Bool-cases, inl, inr,
  text_eq, nat_eq, contains, ◌>>=◌, Result, ok, err, >>=-eq-ok,
}
use nauro.Merge.Conflict.{Bytes, Side, local, set_union_paths, read_backup}
use nauro.Sync.Names.{extract_decision_number}
use nauro.Sync.Names.Laws.{PlainDigits}
use nauro.Sync.Corpus.{DecisionCorpus, DecisionFile, holders, read_bytes, record_renamed}
use nauro.Sync.Quarantine.{save_quarantine_backup}
use nauro.Sync.Route.{destination_admitted, decision_name}
use nauro.Sync.Collisions.{
  DecisionOutcome, install, adopt, canonicalize, renumber_local, quarantine, DecisionVerdict,
  classify_decision, filename_of,
}
use nauro.Sync.Collisions as Collisions
use nauro.Sync.Collisions.Apply.{
  Store, RenumberError, destination_occupied_error, heading_rewrite_error, os_error, RenumberResult,
  apply_renumber, apply_canonicalize, read_text_lenient, rename_decision, retarget_store,
}
use nauro.Sync.Collisions.Renumber.{ok_inj}
use nauro.Sync.Collisions.Installs.{installs, Unclaimed, install-Unclaimed}
use nauro.Sync.Collisions.Twins.{canonicalizes, canonicalize-Twin}
use nauro.Sync.Collisions.Holders.{
  NoNewRival, renumber-NoNewRival, rename-NoNewRival, added-NoNewRival,
}
use nauro.Sync.Pull.{
  Transfer, PullContext, Run, Write, file_write, backup_write, index_write, attempt, backup_attempt,
  skip_transfer, surroundings, quarantine_transfer, adopt_content, adopt_renamed,
  resolve_and_record, install_transfer, act_on, classify_transfer, after_renumber, renumber_for,
  apply_verdict, apply_decision, guarded_step, apply_planned, apply_batch, is_refused, first_of,
}

same-NoNewRival : (corpus : DecisionCorpus) → NoNewRival corpus corpus
same-NoNewRival corpus m = omega arith

after-NoNewRival : (a b c : DecisionCorpus) → NoNewRival a b → NoNewRival b c → NoNewRival a c
after-NoNewRival a b c h k m = omega (arith, h m, k m)

-- the run that a step ends with
abbrev settled : Result Run Run → Run
settled (ok run) = run
settled (err run) = run

Unclaimed-holders :
    (corpus : DecisionCorpus) (o : Option ℕ)
    → Unclaimed corpus o
    → (n : ℕ) → o ≡ some n
    → holders corpus n ≡ []
Unclaimed-holders corpus none u n e = cc
Unclaimed-holders corpus (some k) u n e = let same : k ≡ n = cc in rw (← same) u.0

module _ (context : PullContext) where
  adopt_content-corpus :
      (run : Run) (t : Transfer) (o : Option Bytes)
      → (settled (adopt_content context run t o)).store.corpus ≡ run.store.corpus
  adopt_content-corpus run t none = refl
  adopt_content-corpus run t (some content) = refl

  -- what holds of the view before a write and of the view after all that follows it
  attempt_settled :
      (P : DecisionCorpus → Type 0) (w : Write) (before after : Run) (next : Run → Result Run Run)
      → P before.store.corpus
      → P (settled (next after)).store.corpus
      → P (settled (attempt context w before after >>= next)).store.corpus
  attempt_settled P w before after next h k = elim (Bool-cases (context.write_fails w)) [
    | inl e ↦ rw e h
    | inr e ↦ rw e k
  ]

  resolve_and_record-corpus :
      (run : Run) (t : Transfer) (keeps : Side) (o : Option Bytes)
      → (settled (resolve_and_record context run t keeps o)).store.corpus ≡ run.store.corpus
  resolve_and_record-corpus run t keeps none = refl
  resolve_and_record-corpus run t keeps (some mine) =
      let same : DecisionCorpus → Type 0 = λ corpus. corpus ≡ run.store.corpus in
      elim (Bool-cases (contains set_union_paths t.rel)) [
        | inl e ↦ rw e (attempt_settled same (file_write t.rel) _ _ _ refl refl)
        | inr e ↦ rw e (
            attempt_settled same (backup_write t.rel) _ _ _ refl
              (attempt_settled same (file_write t.rel) _ _ _ refl refl))
      ]

  backup_attempt-corpus :
      (o : Option Bytes) (name : Text) (before after : Run)
      → after.store.corpus ≡ before.store.corpus
      → (settled (
          backup_attempt context o name before after >>= λ saved.
          ok (skip_transfer context saved))).store.corpus
        ≡ before.store.corpus
  backup_attempt-corpus (some existing) name before after h = h
  backup_attempt-corpus none name before after h =
      attempt_settled (λ corpus. corpus ≡ before.store.corpus) (backup_write name) before after _
        refl h

  quarantine-corpus :
      (run : Run) (t : Transfer)
      → (settled (quarantine_transfer context run t)).store.corpus ≡ run.store.corpus
  unfolding quarantine_transfer
  quarantine-corpus run t =
      let (name, backups) =
        save_quarantine_backup context.digest (context.encode_utf8 t.rel) t.content
          (context.encode_utf8 t.etag) run.backups in
      backup_attempt-corpus (read_backup name run.backups) name run
        (record run { backups = backups }) refl

  canonicalized_corpus :
      (run : Run) (old new : Text) (store : Store)
      → apply_canonicalize context.readers run.store old new ≡ ok store
      → (text : Text) × (store.corpus
          ≡ record_renamed context.readers run.store.corpus old new text)
  unfolding apply_canonicalize rename_decision retarget_store
  canonicalized_corpus run old new store h =
      let (text, e, k) =
        >>=-eq-ok (read_text_lenient context.readers run.store.directory old) _ h in
      (text, ap (λ s. s.corpus) (sym (ok_inj k)))

  canonicalized-NoNewRival :
      (run : Run) (t : Transfer) (f : DecisionFile) (n : ℕ) (m : Result RenumberError Store)
      → extract_decision_number context.readers.unicode (filename_of t.rel) ≡ some n
      → holders run.store.corpus n ≡ f ∷ []
      → apply_canonicalize context.readers run.store f.name (filename_of t.rel) ≡ m
      → NoNewRival run.store.corpus (settled (adopt_renamed context run t m)).store.corpus
  canonicalized-NoNewRival run t f n (err problem) e sole h = same-NoNewRival run.store.corpus
  canonicalized-NoNewRival run t f n (ok store) e sole h =
      let (text, corpus) = canonicalized_corpus run f.name (filename_of t.rel) store h in
      let moved : NoNewRival run.store.corpus store.corpus =
        rw corpus (
          rename-NoNewRival context.readers run.store.corpus f (filename_of t.rel) text n e sole) in
      attempt_settled (NoNewRival run.store.corpus) _ run _ _ (same-NoNewRival run.store.corpus) (
        attempt_settled (NoNewRival run.store.corpus) index_write _ _ _ moved (
          rw
            (adopt_content-corpus (record run { store = store }) t
              (read_bytes store.directory (filename_of t.rel)))
            moved))

  installed-NoNewRival :
      (run : Run) (t : Transfer)
      → installs (classify_transfer context run t).outcome ≡ true
      → NoNewRival run.store.corpus (settled (install_transfer context run t)).store.corpus
  installed-NoNewRival run t h =
      let (canonical, unlisted, variant, free) =
        install-Unclaimed (surroundings context run) t.rel t.content h in
      let added =
        added-NoNewRival context.readers run.store.corpus (filename_of t.rel)
          (context.decode_replace t.content) _ refl (Unclaimed-holders run.store.corpus _ free) in
      attempt_settled (NoNewRival run.store.corpus) (file_write t.rel) run _ _
        (same-NoNewRival run.store.corpus) added

  act_on-NoNewRival :
      (run : Run) (t : Transfer) (o : DecisionOutcome)
      → (classify_transfer context run t).outcome ≡ o
      → NoNewRival run.store.corpus
          (settled (act_on context run t (classify_transfer context run t) o)).store.corpus
  act_on-NoNewRival run t quarantine h =
      rw (quarantine-corpus run t) (same-NoNewRival run.store.corpus)
  act_on-NoNewRival run t renumber_local h =
      rw (quarantine-corpus run t) (same-NoNewRival run.store.corpus)
  act_on-NoNewRival run t adopt h =
      rw (adopt_content-corpus run t _) (same-NoNewRival run.store.corpus)
  act_on-NoNewRival run t canonicalize h =
      let (n, f, e, sole, named) =
        canonicalize-Twin (surroundings context run) t.rel t.content (ap canonicalizes h) in
      rw named (canonicalized-NoNewRival run t f n _ e sole refl)
  act_on-NoNewRival run t install h =
      elim (Bool-cases (is_refused (destination_admitted context.local_store t.rel))) [
        | inl e ↦ rw e (same-NoNewRival run.store.corpus)
        | inr e ↦ rw e (installed-NoNewRival run t (ap installs h))
      ]
  act_on-NoNewRival run t Collisions.resolve_conflict h =
      elim (Bool-cases (is_refused (destination_admitted context.local_store t.rel))) [
        | inl e ↦ rw e (same-NoNewRival run.store.corpus)
        | inr e ↦
            rw e (rw (resolve_and_record-corpus run t local _) (same-NoNewRival run.store.corpus))
      ]

module _ (context : PullContext) (plain : PlainDigits context.readers.unicode) where
  after_renumber-NoNewRival :
      (run : Run) (t : Transfer) (collider : Text) (number : ℕ)
      (m : Result RenumberError RenumberResult)
      → apply_renumber context.readers run.store collider number context.decision_numbers ≡ m
      → NoNewRival run.store.corpus (settled (after_renumber context run t m)).store.corpus
  unfolding after_renumber
  after_renumber-NoNewRival run t collider number (err os_error) h =
      same-NoNewRival run.store.corpus
  after_renumber-NoNewRival run t collider number (err destination_occupied_error) h =
      rw (quarantine-corpus context run t) (same-NoNewRival run.store.corpus)
  after_renumber-NoNewRival run t collider number (err heading_rewrite_error) h =
      rw (quarantine-corpus context run t) (same-NoNewRival run.store.corpus)
  after_renumber-NoNewRival run t collider number (ok r) h =
      let next = record run { store = r.finished } in
      let (renamed, rewritten, finished) =
        renumber-NoNewRival context.readers run.store collider number context.decision_numbers r
          plain h in
      let kept = NoNewRival run.store.corpus in
      attempt_settled context kept _ run _ _ (same-NoNewRival run.store.corpus) (
        attempt_settled context kept _ _ _ _ renamed (
          attempt_settled context kept index_write _ _ _ rewritten (
            after-NoNewRival _ r.finished.corpus _ finished
              (act_on-NoNewRival context next t _ refl))))

  apply_verdict-NoNewRival :
      (run : Run) (t : Transfer) (o : DecisionOutcome)
      → (classify_transfer context run t).outcome ≡ o
      → NoNewRival run.store.corpus
          (settled (apply_verdict context run t (classify_transfer context run t) o)).store.corpus
  apply_verdict-NoNewRival run t renumber_local h =
      numbered (extract_decision_number context.readers.unicode (decision_name t.rel))
    where
      numbered :
          (o : Option ℕ)
          → NoNewRival run.store.corpus
              (settled
                (renumber_for context run t (classify_transfer context run t) o)).store.corpus
      numbered none = same-NoNewRival run.store.corpus
      numbered (some number) =
          after_renumber-NoNewRival run t
            (first_of context (classify_transfer context run t).colliders) number _ refl
  apply_verdict-NoNewRival run t install h = act_on-NoNewRival context run t install h
  apply_verdict-NoNewRival run t adopt h = act_on-NoNewRival context run t adopt h
  apply_verdict-NoNewRival run t canonicalize h = act_on-NoNewRival context run t canonicalize h
  apply_verdict-NoNewRival run t quarantine h = act_on-NoNewRival context run t quarantine h
  apply_verdict-NoNewRival run t Collisions.resolve_conflict h =
      act_on-NoNewRival context run t Collisions.resolve_conflict h

  guarded_step-corpus :
      (m : Result Run Run) → (guarded_step context m).store.corpus ≡ (settled m).store.corpus
  guarded_step-corpus (ok run) = refl
  guarded_step-corpus (err run) = refl

  apply_planned-NoNewRival :
      (run : Run) (planned : Option Transfer)
      → NoNewRival run.store.corpus (apply_planned context run planned).store.corpus
  unfolding apply_planned apply_decision
  apply_planned-NoNewRival run none = same-NoNewRival run.store.corpus
  apply_planned-NoNewRival run (some t) =
      rw
        (guarded_step-corpus (
          apply_verdict context run t (classify_transfer context run t)
            (classify_transfer context run t).outcome))
        (apply_verdict-NoNewRival run t _ refl)

-- However the remote decisions of a batch are installed, adopted or set aside, and whatever local files are
-- renamed for them, no number comes to have more than one holder that had one or none before, and
-- none gains a holder that had several.
pub apply_batch-NoNewRival :
    (context : PullContext) (run : Run) (batch : List (Option Transfer))
    → PlainDigits context.readers.unicode
    → NoNewRival run.store.corpus (apply_batch context run batch).store.corpus
unfolding apply_batch
apply_batch-NoNewRival context run [] plain = same-NoNewRival run.store.corpus
apply_batch-NoNewRival context run (planned ∷ batch) plain =
    after-NoNewRival _ (apply_planned context run planned).store.corpus _
      (apply_planned-NoNewRival context plain run planned)
      (apply_batch-NoNewRival context (apply_planned context run planned) batch plain)
