-- ===== src/Sync/Collisions/Complete.antt =====
-- packages/nauro/src/nauro/sync/collisions.py: `run_completion_pass`, which finishes a renumbering
-- that was cut off between its writes.
use nauro.Base.{
  ℕ, Bool, not, ◌||◌, List, [], ◌∷◌, ◌++◌, map, Option, none, some, Text, nat_beq, ltb, select,
  contains, ◌==◌, if◌then◌else◌, text_eq, nat_eq, length,
}
use nauro.Sync.Names.{strip_number_prefix}
use nauro.Sync.Headings.{has_rewritable_heading, rewrite_decision_heading}
use nauro.Sync.Corpus.{
  Readers, DecisionFile, DecisionCorpus, is_nil, holders, irregular_holders, heading_of_file,
}
use nauro.Sync.Collisions.{isolation_defect}
use nauro.Sync.Collisions.Apply.{HashIndex, stem, Store, rewrite_decision}

pub record HeadingRepair : Type 0 where
  pub path : Text
  pub from_num : ℕ
  pub to_num : ℕ

pub data Completion : Type 0 where
  repair : HeadingRepair → Completion
  store_state : Completion
  heading_not_rewritable : Completion

pub record CompletionOutcome : Type 0 where
  pub repaired : List HeadingRepair
  pub unrepairable : List Text
  pub quarantined : List Text
  pub retargeted_stems : List Text

abbrev pub complete_text : Readers → Store → DecisionFile → ℕ → Option Text → Completion × Store
complete_text readers s entry heading none = (heading_not_rewritable, s)
complete_text readers s entry heading (some text) =
    if has_rewritable_heading text heading
    then (
      repair (record { path = entry.name; from_num = heading; to_num = entry.number }),
      rewrite_decision readers s entry.name (rewrite_decision_heading text heading entry.number),
    )
    else (heading_not_rewritable, s)

unfoldable pub complete_heading : Readers → Store → DecisionFile → ℕ → Bool → Completion × Store
complete_heading readers s entry heading contested =
    if contested
    then (store_state, s)
    else elim (isolation_defect readers s.corpus entry (entry.number ∷ heading ∷ [])) [
      | some defect ↦ (store_state, s)
      | none ↦ complete_text readers s entry heading entry.text
    ]

abbrev pub has_mismatch : DecisionFile → Option ℕ → List (DecisionFile × ℕ)
has_mismatch entry none = []
has_mismatch entry (some heading) =
    if nat_beq heading entry.number then [] else (entry, heading) ∷ []

unfoldable pub mismatched_files : List DecisionFile → List (DecisionFile × ℕ)
mismatched_files [] = []
mismatched_files (entry ∷ entries) =
    has_mismatch entry (heading_of_file entry) ++ mismatched_files entries

unfoldable pub is_contested : DecisionCorpus → ℕ → Bool
is_contested corpus number =
    ltb 1 (length (holders corpus number)) || not (is_nil (irregular_holders corpus number))

abbrev pub nothing_completed : CompletionOutcome
nothing_completed = record {
  repaired = [];
  unrepairable = [];
  quarantined = [];
  retargeted_stems = [];
}

abbrev note : Text → Completion → CompletionOutcome → CompletionOutcome
note name (repair r) o = record o { repaired = r ∷ o.repaired }
note name store_state o = record o { unrepairable = name ∷ o.unrepairable }
note name heading_not_rewritable o = record o { quarantined = name ∷ o.quarantined }

-- `listed`: the view before the first repair, in which the holders of a number are counted
unfoldable pub complete_all :
    Readers → DecisionCorpus → List (DecisionFile × ℕ) → Store → CompletionOutcome × Store
complete_all readers listed [] s = (nothing_completed, s)
complete_all readers listed ((entry, heading) ∷ rest) s =
    let (completion, next) =
      complete_heading readers s entry heading (is_contested listed entry.number) in
    let (outcome, final) = complete_all readers listed rest next in
    (note entry.name completion outcome, final)

-- The hash index

unfoldable pub stems_of_slug : Readers → Text → List DecisionFile → List Text
stems_of_slug readers slug files =
    select (λ s. strip_number_prefix readers.unicode s == slug)
      (map (λ entry. stem entry.name) files)

abbrev sole_stem : List Text → Option Text
sole_stem (s ∷ []) = some s
sole_stem _ = none

-- the stem that an entry is pointed at, where it is repaired
unfoldable pub new_stem : Readers → List DecisionFile → Option Text → Option Text
new_stem readers files none = none
new_stem readers files (some s) =
    if contains (map (λ entry. stem entry.name) files) s
    then none
    else sole_stem (stems_of_slug readers (strip_number_prefix readers.unicode s) files)

unfoldable pub repair_dangling_stems : Readers → List DecisionFile → HashIndex → HashIndex
repair_dangling_stems readers files [] = []
repair_dangling_stems readers files ((key, value) ∷ index) =
    (key, elim (new_stem readers files value) [ none ↦ value | some s ↦ some s ])
    ∷ repair_dangling_stems readers files index

abbrev stem_list : Option Text → List Text
stem_list none = []
stem_list (some s) = s ∷ []

unfoldable pub retargeted : Readers → List DecisionFile → HashIndex → List Text
retargeted readers files [] = []
retargeted readers files ((key, value) ∷ index) =
    elim (new_stem readers files value) [ none ↦ [] | some s ↦ stem_list value ]
    ++ retargeted readers files index

unfoldable pub run_completion_pass : Readers → Store → CompletionOutcome × Store
run_completion_pass readers s =
    let (outcome, done) = complete_all readers s.corpus (mismatched_files s.corpus.files) s in
    let files = done.corpus.files in
    (
      record outcome { retargeted_stems = retargeted readers files done.hashes },
      record done { hashes = repair_dangling_stems readers files done.hashes },
    )
