-- ===== src/Sync/Pull/Writes/Laws.antt =====
-- How the write phase counts: packages/nauro/src/nauro/sync/pull.py.
use nauro.Base.{
  ℕ, ◌+◌, ◌≡◌, refl, false, List, [], ◌∷◌, Bool-cases, inl, inr, length, text_eq, nat_eq, Result,
  ok,
}
use nauro.Sync.Corpus.{DecisionFile, DecisionCorpus}
use nauro.Sync.Collisions.Apply.{Store}
use nauro.Sync.Collisions.Complete.{complete_heading, complete_all, is_contested}
use nauro.Sync.Pull.{Transfer, PullContext, Run, Write, file_write}
use nauro.Sync.Pull.Tallies.{Counted}
use nauro.Sync.Pull.Writes.{
  DecisionWork, usable, lost, unready, Work, repairs, complete_attempts, complete_store, refused_if,
}

module _ (context : PullContext) where
  -- Where no write fails, the pass is the completion pass.
  complete_attempts-all :
      (listed : DecisionCorpus) (mismatches : List (DecisionFile × ℕ)) (s : Store)
      → ((w : Write) → context.write_fails w ≡ false)
      → complete_attempts context listed mismatches s
        ≡ ok (complete_all context.readers listed mismatches s).1
  unfolding complete_attempts complete_all
  complete_attempts-all listed [] s h = refl
  complete_attempts-all listed ((entry, heading) ∷ mismatches) s h =
      let (completion, next) =
        complete_heading context.readers s entry heading (is_contested listed entry.number) in
      let rest = complete_attempts-all listed mismatches next h in
      elim (Bool-cases (repairs completion)) [
        | inl e ↦ rw e (rw (h (file_write entry.name)) rest)
        | inr e ↦ rw e rest
      ]

  -- a step that is counted once on every transfer
  abbrev Counting : (Run → Transfer → Result Run Run) → Type 0
  Counting step = (run : Run) (t : Transfer) → Counted context run.tally (step run t)

-- what the decisions add to the tally
abbrev pub decision_total : PullContext → DecisionWork → Run → Work → ℕ
decision_total context usable run work =
    refused_if context (complete_store context run.store) + length work.decisions
decision_total context lost run work = length work.decisions + work.ignored_decisions
decision_total context unready run work = 0
