-- ===== src/Sync/Corpus.antt =====
-- packages/nauro/src/nauro/sync/corpus.py: the view of `decisions/` that one sync run keeps.
-- A directory is a list of names with what stands under them. What the source reads once, when it
-- is first asked, the model reads at the scan: the run holds the lock of the decisions meanwhile.
-- The parser of decisions, which rests on a YAML library, is a function of the `Readers`.
pub mod Scan
pub mod Laws
pub mod Files
use nauro.Base.{
  ℕ, zero, suc, ◌+◌, Bool, true, false, not, ◌&&◌, ◌||◌, List, [], ◌∷◌, ◌++◌, map, Option, none,
  some, Text, codes, nat_beq, ltb, all, any, select, contains, ends_with, ◌==◌, if◌then◌else◌,
  text_eq, nat_eq, Eq, split,
}
use nauro.Merge.Paths.{PathClass, unsafe, ordinary, reserved_control, classify_sync_path}
use nauro.Questions.Parse.{parse}
use nauro.Questions.{ResolvedRef, QuestionEntry, Block, entry_block, OpenQuestionsFile}
use nauro.Sync.Headings.{heading_line_number, heading_number}
use nauro.Sync.Names.{Unicode, extract_decision_number}

-- the references of a decision that `parse_decision` accepts
pub record ParsedDecision : Type 0 where
  pub supersedes : Option ℕ
  pub superseded_by : Option ℕ

pub record Readers : Type 0 where
  pub unicode : Unicode
  -- `read_text_lenient` on bytes, the bytes of a text, `parse_decision(text, name)`
  pub decode : Text → Text
  pub encode : Text → Text
  pub parse_decision : Text → Text → Option ParsedDecision

-- what stands under a name: a regular file, with its bytes where they can be read, or another entry
pub data DirEntry : Type 0 where
  regular : Option Text → DirEntry
  not_regular : DirEntry

abbrev pub Directory : Type 0
Directory = List (Text × DirEntry)

unfoldable pub find_entry : Directory → Text → Option DirEntry
find_entry [] name = none
find_entry ((listed, entry) ∷ dir) name =
    let rest = find_entry dir name in if listed == name then some entry else rest

abbrev pub entry_bytes : Option DirEntry → Option Text
entry_bytes (some (regular bytes)) = bytes
entry_bytes _ = none

unfoldable pub read_bytes : Directory → Text → Option Text
read_bytes dir name = entry_bytes (find_entry dir name)

-- `in_memory`: the text came from a write of this run, not from the file
pub record DecisionFile : Type 0 where
  pub name : Text
  pub number : ℕ
  pub text : Option Text
  pub in_memory : Bool

pub data SkipReason : Type 0 where
  not_a_regular_file unreadable_name unsafe_name : SkipReason

pub record IrregularEntry : Type 0 where
  pub name : Text
  pub number : Option ℕ
  pub reason : SkipReason

-- `questions`: the decisions that resolve a question, where the questions can be read
pub record DecisionCorpus : Type 0 where
  pub files : List DecisionFile
  pub irregular : List IrregularEntry
  pub names : List Text
  pub questions : Option (List ℕ)

pub record ReferenceIndex : Type 0 where
  pub unparseable : List Text
  pub supersession_refs : List ℕ
  pub question_refs : List ℕ
  pub questions_readable : Bool

abbrev pub is_nil : {A : Type 0} → List A → Bool
is_nil [] = true
is_nil (x ∷ xs) = false

unfoldable pub verifiable : ReferenceIndex → Bool
verifiable index = is_nil index.unparseable && index.questions_readable

-- Listing

unfoldable pub holders_in : ℕ → List DecisionFile → List DecisionFile
holders_in number files = select (λ entry. nat_beq entry.number number) files

unfoldable pub holders : DecisionCorpus → ℕ → List DecisionFile
unfolding holders_in
holders corpus number = holders_in number corpus.files

abbrev claims : ℕ → IrregularEntry → Bool
claims number entry = elim entry.number [ none ↦ false | some n ↦ nat_beq n number ]

unfoldable pub irregular_holders : DecisionCorpus → ℕ → List IrregularEntry
irregular_holders corpus number = select (claims number) corpus.irregular

unfoldable pub irregular_numbers : List IrregularEntry → List ℕ
irregular_numbers [] = []
irregular_numbers (entry ∷ entries) =
    let rest = irregular_numbers entries in elim entry.number [ none ↦ rest | some n ↦ n ∷ rest ]

unfoldable pub claimed_numbers : DecisionCorpus → List ℕ
claimed_numbers corpus =
    map (λ entry. entry.number) corpus.files ++ irregular_numbers corpus.irregular

unfoldable pub named_in : Text → List DecisionFile → Option DecisionFile
named_in name [] = none
named_in name (entry ∷ entries) =
    let rest = named_in name entries in if entry.name == name then some entry else rest

unfoldable pub file_named : DecisionCorpus → Text → Option DecisionFile
file_named corpus name = named_in name corpus.files

unfoldable pub is_irregular : DecisionCorpus → Text → Bool
is_irregular corpus name = any (λ entry. entry.name == name) corpus.irregular

unfoldable pub has_name : DecisionCorpus → Text → Bool
has_name corpus name = contains corpus.names name

-- the order of `sorted` on texts
unfoldable pub text_before : Text → Text → Bool
text_before [] t = true
text_before (c ∷ s) [] = false
text_before (c ∷ s) (d ∷ t) = ltb c d || nat_beq c d && text_before s t

unfoldable pub least_text : List Text → Option Text
least_text [] = none
least_text (t ∷ ts) =
    let rest = least_text ts in
    elim rest [ none ↦ some t | some u ↦ some (if text_before t u then t else u) ]

unfoldable pub case_variant : Readers → DecisionCorpus → Text → Option Text
case_variant readers corpus name =
    let lower = readers.unicode.lower in
    if contains corpus.names name
    then none
    else least_text (select (λ listed. lower listed == lower name) corpus.names)

unfoldable pub heading_of_contents : List Text → Option ℕ
heading_of_contents [] = none
heading_of_contents (line ∷ lines) =
    let rest = heading_of_contents lines in
    elim (heading_line_number line) [ none ↦ rest | some n ↦ some n ]

-- `DecisionFile.heading_number`: a file's lines end only in line feeds
unfoldable pub heading_of_file : DecisionFile → Option ℕ
heading_of_file entry = elim entry.text [
  | none ↦ none
  | some text ↦ if entry.in_memory then heading_number text else heading_of_contents (split 10 text)
]

-- References

abbrev refs_of : ParsedDecision → List ℕ
refs_of decision =
    elim decision.supersedes [ none ↦ [] | some n ↦ n ∷ [] ]
    ++ elim decision.superseded_by [ none ↦ [] | some n ↦ n ∷ [] ]

unfoldable pub parsed_decision : Readers → DecisionFile → Option ParsedDecision
parsed_decision readers entry = elim entry.text [
  | none ↦ none
  | some text ↦ readers.parse_decision text entry.name
]

unfoldable pub unparseable_files : Readers → List DecisionFile → List Text
unparseable_files readers [] = []
unparseable_files readers (entry ∷ entries) =
    let rest = unparseable_files readers entries in
    elim (parsed_decision readers entry) [ none ↦ entry.name ∷ rest | some decision ↦ rest ]

unfoldable pub supersession_refs_of : Readers → List DecisionFile → List ℕ
supersession_refs_of readers [] = []
supersession_refs_of readers (entry ∷ entries) =
    let rest = supersession_refs_of readers entries in
    elim (parsed_decision readers entry) [ none ↦ rest | some decision ↦ refs_of decision ++ rest ]

unfoldable pub references : Readers → DecisionCorpus → ReferenceIndex
references readers corpus = record {
  unparseable = unparseable_files readers corpus.files;
  supersession_refs = supersession_refs_of readers corpus.files;
  question_refs = elim corpus.questions [ none ↦ [] | some numbers ↦ numbers ];
  questions_readable = elim corpus.questions [ none ↦ false | some numbers ↦ true ];
}

-- Mutation notices

-- `_files[name] = entry` on a dictionary in the order of insertion
unfoldable pub put_file : DecisionFile → List DecisionFile → List DecisionFile
put_file entry [] = entry ∷ []
put_file entry (f ∷ files) =
    let rest = put_file entry files in if f.name == entry.name then entry ∷ files else f ∷ rest

unfoldable pub pop_file : Text → List DecisionFile → List DecisionFile
pop_file name files = select (λ f. not (f.name == name)) files

abbrev pub put_numbered : DecisionCorpus → Text → Option Text → Bool → Option ℕ → DecisionCorpus
put_numbered corpus name text in_memory none = corpus
put_numbered corpus name text in_memory (some number) = record corpus {
  files =
      put_file (record { name = name; number = number; text = text; in_memory = in_memory })
        corpus.files;
}

unfoldable pub replace_file : Readers → DecisionCorpus → Text → Text → DecisionCorpus
replace_file readers corpus name text =
    put_numbered corpus name (some text) true (extract_decision_number readers.unicode name)

unfoldable pub record_added : Readers → DecisionCorpus → Text → Text → DecisionCorpus
record_added readers corpus name text =
    replace_file readers (record corpus { names = name ∷ corpus.names }) name text

unfoldable pub record_renamed : Readers → DecisionCorpus → Text → Text → Text → DecisionCorpus
record_renamed readers corpus old new text =
    replace_file readers
      (record corpus {
        files = pop_file old corpus.files;
        names = new ∷ select (λ name. not (name == old)) corpus.names;
      })
      new text

unfoldable pub record_rewritten : Readers → DecisionCorpus → Text → Text → DecisionCorpus
record_rewritten readers corpus name text = replace_file readers corpus name text
