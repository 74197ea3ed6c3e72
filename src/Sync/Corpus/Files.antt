-- ===== src/Sync/Corpus/Files.antt =====
-- The files of the view as a table by name: packages/nauro/src/nauro/sync/corpus.py.
use nauro.Base.{
  ℕ, ◌≡◌, refl, sym, ap, ◌∙◌, Bool, true, false, List, [], ◌∷◌, Option, none, some, Text, All,
  arith, Bool-cases, inl, inr, codes, contains, any, ends_with, if◌then◌else◌, text_eq, beq_refl,
}
use nauro.Sync.Names.{extract_decision_number}
use nauro.Sync.Corpus.{
  Readers, Directory, DirEntry, regular, not_regular, DecisionFile, DecisionCorpus, has_name,
  put_file, put_numbered, SkipReason,
}
use nauro.Sync.Corpus.Scan.{scan, list_entry, list_entries, listed_file, scan_named, skipped, named}
use nauro.Sync.Corpus.Laws.{is_file, is_file-put}

-- no two files under one name
abbrev pub Unique : List DecisionFile → Type 0
Unique [] = Unit
Unique (f ∷ files) = (is_file files f.name ≡ false) × Unique files

-- The files have different names, all of which are listed.
pub record Listed (corpus : DecisionCorpus) : Type 0 where
  pub names_listed : All (λ f. has_name corpus f.name ≡ true) corpus.files
  pub unique : Unique corpus.files

All-put_file :
    (P : DecisionFile → Type 0) (entry : DecisionFile) (files : List DecisionFile)
    → All P files
    → P entry
    → All P (put_file entry files)
unfolding put_file
All-put_file P entry [] h e = (e, tt)
All-put_file P entry (f ∷ files) h e = elim (Bool-cases (text_eq.beq f.name entry.name)) [
  | inl same ↦ rw same (e, h.1)
  | inr differ ↦ rw differ (h.0, All-put_file P entry files h.1 e)
]

put_file-Unique :
    (entry : DecisionFile) (files : List DecisionFile)
    → Unique files
    → Unique (put_file entry files)
unfolding put_file
put_file-Unique entry [] h = (unfold any in refl, tt)
put_file-Unique entry (f ∷ files) h = elim (Bool-cases (text_eq.beq f.name entry.name)) [
  | inl same ↦
      rw same (ap (is_file files) (sym ((text_eq.beq_iff f.name entry.name).0 same)) ∙ h.0, h.1)
  | inr differ ↦ rw differ (
    is_file-put entry files f.name
        ∙ ground (arith, h.0, text_eq.beq_iff f.name entry.name, text_eq.beq_iff entry.name f.name),
    put_file-Unique entry files h.1,
  )
]

put_numbered-Listed :
    (corpus : DecisionCorpus) (name : Text) (text : Option Text) (in_memory : Bool) (o : Option ℕ)
    → Listed corpus
    → has_name corpus name ≡ true
    → Listed (put_numbered corpus name text in_memory o)
unfolding has_name
put_numbered-Listed corpus name text in_memory none h l = h
put_numbered-Listed corpus name text in_memory (some n) h l = record {
  names_listed = All-put_file _ _ corpus.files h.names_listed l;
  unique = put_file-Unique _ corpus.files h.unique;
}

pub All-weaken :
    (P Q : DecisionFile → Type 0) (files : List DecisionFile)
    → ((f : DecisionFile) → P f → Q f)
    → All P files
    → All Q files
All-weaken P Q [] f h = tt
All-weaken P Q (x ∷ files) f h = (f x h.0, All-weaken P Q files f h.1)

named-Listed : (name : Text) (corpus : DecisionCorpus) → Listed corpus → Listed (named name corpus)
unfolding has_name contains
named-Listed name corpus h = record {
  names_listed = All-weaken _ _ corpus.files (λ f k. ground (arith, k)) h.names_listed;
  unique = h.unique;
}

module _ (readers : Readers) where
  skipped-Listed :
      (name : Text) (reason : SkipReason) (corpus : DecisionCorpus)
      → Listed corpus
      → Listed (skipped readers name reason corpus)
  unfolding has_name
  skipped-Listed name reason corpus h = record { names_listed = h.names_listed; unique = h.unique }

  if_Listed : (b : Bool) (c d : DecisionCorpus) → Listed c → Listed d → Listed (if b then c else d)
  if_Listed true c d h k = h
  if_Listed false c d h k = k

  scan_named-Listed :
      (name : Text) (entry : DirEntry) (corpus : DecisionCorpus)
      → Listed corpus
      → Listed (scan_named readers name entry (named name corpus))
  unfolding listed_file
  scan_named-Listed name not_regular corpus h = skipped-Listed _ _ _ (named-Listed name corpus h)
  scan_named-Listed name (regular bytes) corpus h =
      if_Listed (ends_with (codes ".md") name) _ _
        (put_numbered-Listed (named name corpus) name _ false
          (extract_decision_number readers.unicode name) (named-Listed name corpus h)
          (unfold has_name contains in rw (beq_refl name) refl))
        (skipped-Listed _ _ _ (named-Listed name corpus h))

  list_entry-Listed :
      (name : Text) (entry : DirEntry) (corpus : DecisionCorpus)
      → Listed corpus
      → Listed (list_entry readers name entry corpus)
  unfolding list_entry
  list_entry-Listed name entry corpus h =
      if_Listed _ _ _ (skipped-Listed _ _ _ h)
        (if_Listed _ _ _ h (scan_named-Listed name entry corpus h))

  list_entries-Listed :
      (dir : Directory) (corpus : DecisionCorpus)
      → Listed corpus
      → Listed (list_entries readers dir corpus)
  unfolding list_entries
  list_entries-Listed [] corpus h = h
  list_entries-Listed ((name, entry) ∷ dir) corpus h =
      list_entries-Listed dir _ (list_entry-Listed name entry corpus h)

  -- A scan lists the names of its files, each once.
  pub scan-Listed :
      (questions : Option (List ℕ)) (dir : Directory) → Listed (scan readers questions dir)
  unfolding scan
  scan-Listed questions dir = list_entries-Listed dir _ (record { names_listed = tt; unique = tt })
