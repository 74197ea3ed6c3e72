-- ===== src/Sync/Corpus/Scan.antt =====
-- The scan of an admitted `decisions/` and the reading of the questions' references:
-- packages/nauro/src/nauro/sync/corpus.py.
pub mod Laws
use nauro.Base.{
  ℕ, Bool, true, false, not, List, [], ◌∷◌, ◌++◌, Option, none, some, Text, codes, ends_with,
  if◌then◌else◌, text_eq, nat_eq,
}
use nauro.Merge.Paths.{PathClass, unsafe, classify_sync_path}
use nauro.Questions.Parse.{parse}
use nauro.Questions.{Block, entry_block}
use nauro.Sync.Names.{extract_decision_number}
use nauro.Sync.Corpus.{
  Readers, DirEntry, regular, not_regular, Directory, put_numbered, SkipReason, not_a_regular_file,
  unreadable_name, unsafe_name, IrregularEntry, DecisionCorpus,
}

-- what admission says of open-questions.md, with its text where it can be read
pub data QuestionsFile : Type 0 where
  absent unusable : QuestionsFile
  readable : Text → QuestionsFile

module _ {Stamp Day : Type 0} where
  unfoldable pub resolving_numbers : List (Block Stamp Day) → List ℕ
  resolving_numbers [] = []
  resolving_numbers (entry_block e ∷ blocks) =
      let rest = resolving_numbers blocks in
      elim e.resolved_by [ none ↦ rest | some ref ↦ ref.decision_num ∷ rest ]
  resolving_numbers (_ ∷ blocks) = resolving_numbers blocks

  unfoldable pub read_question_references :
      (Text → Option Day)
      → (Text → Text)
      → (Text → Option Stamp)
      → (Stamp → Text)
      → QuestionsFile
      → Option (List ℕ)
  read_question_references fromisoformat lower strptime strftime absent = some []
  read_question_references fromisoformat lower strptime strftime unusable = none
  read_question_references fromisoformat lower strptime strftime (readable text) =
      some (resolving_numbers (parse strptime strftime fromisoformat lower text).blocks)

-- The scan of an admitted directory

abbrev pub file_text : Readers → Option Text → Option Text
file_text readers none = none
file_text readers (some bytes) = some (readers.decode bytes)

unfoldable pub listed_file : Readers → Text → Option Text → DecisionCorpus → DecisionCorpus
listed_file readers name bytes corpus =
    put_numbered corpus name (file_text readers bytes) false
      (extract_decision_number readers.unicode name)

abbrev pub skipped : Readers → Text → SkipReason → DecisionCorpus → DecisionCorpus
skipped readers name reason corpus =
    let entry : IrregularEntry = record {
      name = name;
      number = extract_decision_number readers.unicode name;
      reason = reason;
    } in
    record corpus { irregular = corpus.irregular ++ entry ∷ [] }

abbrev pub named : Text → DecisionCorpus → DecisionCorpus
named name corpus = record corpus { names = name ∷ corpus.names }

abbrev pub is_unsafe : PathClass → Bool
is_unsafe unsafe = true
is_unsafe _ = false

abbrev pub scan_named : Readers → Text → DirEntry → DecisionCorpus → DecisionCorpus
scan_named readers name not_regular corpus = skipped readers name not_a_regular_file corpus
scan_named readers name (regular bytes) corpus =
    if ends_with (codes ".md") name
    then listed_file readers name bytes corpus
    else skipped readers name unreadable_name corpus

unfoldable pub list_entry : Readers → Text → DirEntry → DecisionCorpus → DecisionCorpus
list_entry readers name entry corpus =
    if is_unsafe
      (classify_sync_path readers.unicode.casefold (codes "decisions/" ++ name)).path_class
    then skipped readers name unsafe_name corpus
    else if not (ends_with (codes ".md") (readers.unicode.casefold name))
    then corpus
    else scan_named readers name entry (named name corpus)

unfoldable pub list_entries : Readers → Directory → DecisionCorpus → DecisionCorpus
list_entries readers [] corpus = corpus
list_entries readers ((name, entry) ∷ dir) corpus =
    list_entries readers dir (list_entry readers name entry corpus)

-- of the entries in the order of their names
unfoldable pub scan : Readers → Option (List ℕ) → Directory → DecisionCorpus
scan readers questions dir =
    list_entries readers dir
      (record { files = []; irregular = []; names = []; questions = questions })
