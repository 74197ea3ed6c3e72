-- ===== src/Sync/Collisions.antt =====
-- packages/nauro/src/nauro/sync/collisions.py: what a pull does with a remote decision. A path below
-- `decisions/` is its file name, a collider is named likewise.
pub mod Apply
pub mod Complete
pub mod Laws
pub mod Installs
pub mod Renumber
pub mod Holders
pub mod Freed
pub mod Heals
pub mod Twins
pub mod Crash
pub mod Views
use nauro.Base.{
  ℕ, zero, suc, ◌+◌, Bool, true, false, not, ◌&&◌, ◌||◌, List, [], ◌∷◌, ◌++◌, map, Option, none,
  some, Text, codes, nat_beq, any, select, contains, split, ◌==◌, if◌then◌else◌, text_eq, nat_eq,
  Eq, length, drop,
}
use nauro.Sync.Names.{decisions_dir, is_canonical_decision_path, extract_decision_number}
use nauro.Sync.Headings.{has_rewritable_heading}
use nauro.Sync.Corpus.{
  Readers, Directory, read_bytes, DecisionFile, IrregularEntry, DecisionCorpus, ParsedDecision,
  holders, irregular_holders, file_named, is_irregular, has_name, case_variant, parsed_decision,
  references, verifiable,
}

pub data DecisionOutcome : Type 0 where
  install adopt resolve_conflict canonicalize renumber_local quarantine : DecisionOutcome

pub data QuarantineReason : Type 0 where
  tracked_locally published_remotely ambiguous_colliders unparseable_collider store_unverifiable :
      QuarantineReason
  referenced question_reference heading_not_rewritable irregular_entry non_canonical_path :
      QuarantineReason
  case_variant_present destination_occupied : QuarantineReason

pub record DecisionVerdict : Type 0 where
  pub outcome : DecisionOutcome
  pub colliders : List Text
  pub reason : Option QuarantineReason

unfoldable pub verdict : DecisionOutcome → List Text → DecisionVerdict
verdict outcome colliders = record { outcome = outcome; colliders = colliders; reason = none }

unfoldable pub refuse : List Text → QuarantineReason → DecisionVerdict
refuse colliders reason = record {
  outcome = quarantine;
  colliders = colliders;
  reason = some reason;
}

-- `verdict.quarantined_as(reason)`
abbrev pub quarantined_as : DecisionVerdict → QuarantineReason → DecisionVerdict
quarantined_as v reason = refuse v.colliders reason

abbrev pub relative_path : DecisionFile → Text
relative_path entry = decisions_dir ++ b'/' ∷ entry.name

-- what classification reads: the readers, the view, the directory, and the paths that the state
-- tracks and that the server's manifest holds
pub record Surroundings : Type 0 where
  pub readers : Readers
  pub corpus : DecisionCorpus
  pub directory : Directory
  pub tracked : List Text
  pub manifest : List Text

abbrev is_none : {A : Type 0} → Option A → Bool
is_none none = true
is_none (some a) = false

abbrev parsed_defect : DecisionCorpus → Readers → List ℕ → ParsedDecision → Option QuarantineReason
parsed_defect corpus readers numbers decision =
    let index = references readers corpus in
    if not (verifiable index)
    then some store_unverifiable
    else if not (is_none decision.supersedes) || not (is_none decision.superseded_by)
    then some referenced
    else if any (contains index.supersession_refs) numbers
    then some referenced
    else if any (contains index.question_refs) numbers
    then some question_reference
    else none

unfoldable pub isolation_defect :
    Readers → DecisionCorpus → DecisionFile → List ℕ → Option QuarantineReason
isolation_defect readers corpus candidate numbers = elim (parsed_decision readers candidate) [
  | none ↦ some unparseable_collider
  | some decision ↦ parsed_defect corpus readers numbers decision
]

abbrev pub is_rewritable_text : Option Text → ℕ → Bool
is_rewritable_text none number = false
is_rewritable_text (some text) number = has_rewritable_heading text number

unfoldable pub classify_unpublished :
    Surroundings → DecisionFile → ℕ → Text → Text → DecisionVerdict
classify_unpublished s collider number remote_content local_bytes =
    let colliders = collider.name ∷ [] in
    if local_bytes == remote_content
    then verdict canonicalize colliders
    else elim (isolation_defect s.readers s.corpus collider (number ∷ [])) [
      | some defect ↦ refuse colliders defect
      | none ↦
          if is_rewritable_text collider.text number
          then verdict renumber_local colliders
          else refuse colliders heading_not_rewritable
    ]

unfoldable pub classify_collider : Surroundings → DecisionFile → ℕ → Text → DecisionVerdict
classify_collider s collider number remote_content =
    let colliders = collider.name ∷ [] in
    if contains s.tracked (relative_path collider)
    then refuse colliders tracked_locally
    else if contains s.manifest (relative_path collider)
    then refuse colliders published_remotely
    else elim (read_bytes s.directory collider.name) [
      | none ↦ refuse colliders store_unverifiable
      | some local_bytes ↦ classify_unpublished s collider number remote_content local_bytes
    ]

abbrev pub sibling_verdict : DecisionVerdict → DecisionVerdict
sibling_verdict v = elim v.outcome [
  | renumber_local ↦ v
  | canonicalize ↦ quarantined_as v destination_occupied
  | _ ↦ elim v.reason [ none ↦ quarantined_as v ambiguous_colliders | some reason ↦ v ]
]

abbrev pub siblings_defect :
    Surroundings → DecisionFile → Text → List DecisionFile → Option DecisionVerdict
siblings_defect s entry remote_content [] = none
siblings_defect s entry remote_content (sibling ∷ []) =
    some (sibling_verdict (classify_collider s sibling entry.number remote_content))
siblings_defect s entry remote_content siblings =
    some (refuse (map (λ f. f.name) siblings) ambiguous_colliders)

abbrev pub contested_defect :
    Surroundings → DecisionFile → Text → List IrregularEntry → Option DecisionVerdict
contested_defect s entry remote_content [] =
    siblings_defect s entry remote_content
      (select (λ holder. not (holder.name == entry.name)) (holders s.corpus entry.number))
contested_defect s entry remote_content (_ ∷ _) = some (refuse (entry.name ∷ []) irregular_entry)

unfoldable pub sibling_defect : Surroundings → DecisionFile → Text → Option DecisionVerdict
sibling_defect s entry remote_content =
    contested_defect s entry remote_content (irregular_holders s.corpus entry.number)

unfoldable pub compare_bytes : Text → Option Text → Text → DecisionVerdict
compare_bytes filename none remote_content = refuse (filename ∷ []) store_unverifiable
compare_bytes filename (some local_bytes) remote_content =
    if local_bytes == remote_content
    then verdict adopt (filename ∷ [])
    else verdict resolve_conflict (filename ∷ [])

abbrev pub listed_defect : Surroundings → Text → Option DecisionFile → Option DecisionVerdict
listed_defect s remote_content none = none
listed_defect s remote_content (some entry) = sibling_defect s entry remote_content

abbrev pub classify_listed : Surroundings → Text → Text → Option DecisionVerdict → DecisionVerdict
classify_listed s filename remote_content (some v) = v
classify_listed s filename remote_content none =
    compare_bytes filename (read_bytes s.directory filename) remote_content

unfoldable pub classify_same_path : Surroundings → Text → Text → DecisionVerdict
classify_same_path s filename remote_content =
    if is_irregular s.corpus filename
    then refuse (filename ∷ []) irregular_entry
    else classify_listed s filename remote_content
        (listed_defect s remote_content (file_named s.corpus filename))

abbrev pub classify_holders : Surroundings → ℕ → Text → List DecisionFile → DecisionVerdict
classify_holders s number remote_content [] = verdict install []
classify_holders s number remote_content (collider ∷ []) =
    classify_collider s collider number remote_content
classify_holders s number remote_content colliding =
    refuse (map (λ f. f.name) colliding) ambiguous_colliders

abbrev pub classify_irregular : Surroundings → ℕ → Text → List IrregularEntry → DecisionVerdict
classify_irregular s number remote_content [] =
    classify_holders s number remote_content (holders s.corpus number)
classify_irregular s number remote_content (entry ∷ _) = refuse (entry.name ∷ []) irregular_entry

abbrev pub classify_claimed : Surroundings → Text → Option ℕ → DecisionVerdict
classify_claimed s remote_content none = verdict install []
classify_claimed s remote_content (some number) =
    classify_irregular s number remote_content (irregular_holders s.corpus number)

unfoldable pub classify_number : Surroundings → Text → Text → DecisionVerdict
classify_number s filename remote_content =
    classify_claimed s remote_content (extract_decision_number s.readers.unicode filename)

-- `remote_path.split("/", 1)[1]` of a canonical path
abbrev pub filename_of : Text → Text
filename_of remote_path = drop (suc (length decisions_dir)) remote_path

abbrev pub classify_unlisted : Surroundings → Text → Text → Option Text → DecisionVerdict
classify_unlisted s filename remote_content (some variant) =
    refuse (variant ∷ []) case_variant_present
classify_unlisted s filename remote_content none = classify_number s filename remote_content

abbrev pub classify_named : Surroundings → Text → Text → DecisionVerdict
classify_named s filename remote_content =
    if has_name s.corpus filename
    then classify_same_path s filename remote_content
    else classify_unlisted s filename remote_content (case_variant s.readers s.corpus filename)

unfoldable pub classify_decision : Surroundings → Text → Text → DecisionVerdict
classify_decision s remote_path remote_content =
    if is_canonical_decision_path s.readers.unicode remote_path
    then classify_named s (filename_of remote_path) remote_content
    else refuse [] non_canonical_path
