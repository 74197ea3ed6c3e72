-- ===== src/Sync/Corpus/Scan/Laws.antt =====
-- What the scan makes of a directory: packages/nauro/src/nauro/sync/corpus.py.
use nauro.Base.{
  ℕ, ◌≡◌, refl, Bool, true, false, List, [], ◌∷◌, Option, some, Text, arith, Bool-cases, inl, inr,
  codes, ends_with, contains, if◌then◌else◌, text_eq, nat_eq, All, All-append,
}
use nauro.Sync.Names.{extract_decision_number}
use nauro.Sync.Corpus.{
  SkipReason, not_a_regular_file, unreadable_name, unsafe_name, Readers, Directory, DirEntry,
  regular, not_regular, DecisionCorpus, IrregularEntry,
}
use nauro.Sync.Corpus.Scan.{scan, list_entry, listed_file, scan_named, skipped, named, list_entries}
use nauro.Sync.Corpus.Laws.{is_entry-append, Valid, Stands, put_numbered-Valid}

module _ (readers : Readers) where
  skipped-Valid :
      (corpus : DecisionCorpus) (name : Text) (reason : SkipReason)
      → All (λ f. extract_decision_number readers.unicode f.name ≡ some f.number) corpus.files
      → All (λ e. e.number ≡ extract_decision_number readers.unicode e.name) corpus.irregular
      → Stands readers corpus name
      → Valid readers (skipped readers name reason corpus)
  skipped-Valid corpus name reason h k l =
      let entry : IrregularEntry = record {
        name = name;
        number = extract_decision_number readers.unicode name;
        reason = reason;
      } in
      record {
        numbered = h;
        irregular_numbered = All-append _ corpus.irregular (entry ∷ []) k (refl, tt);
        listed = λ other n c q.
            rw (is_entry-append corpus.irregular entry other) (ground (arith, l other n));
      }

  scan_named-Valid :
      (name : Text) (entry : DirEntry) (corpus : DecisionCorpus)
      → Valid readers corpus
      → Valid readers (scan_named readers name entry (named name corpus))
  unfolding listed_file contains
  scan_named-Valid name not_regular corpus v =
      skipped-Valid _ name not_a_regular_file v.numbered v.irregular_numbered
        (λ other n c q. ground (arith, v.listed other n))
  scan_named-Valid name (regular bytes) corpus v =
      elim (Bool-cases (ends_with (codes ".md") name)) [
        | inl e ↦ rw e (
            put_numbered-Valid readers (named name corpus) name _ false _ refl v.numbered
              v.irregular_numbered (λ other n c q. ground (arith, v.listed other n)))
        | inr e ↦ rw e (
            skipped-Valid (named name corpus) name unreadable_name v.numbered v.irregular_numbered
              (λ other n c q. ground (arith, v.listed other n)))
      ]

  if_Valid :
      (b : Bool) (corpus other : DecisionCorpus)
      → Valid readers corpus
      → Valid readers other
      → Valid readers (if b then corpus else other)
  if_Valid true corpus other v w = v
  if_Valid false corpus other v w = w

  list_entry-Valid :
      (name : Text) (entry : DirEntry) (corpus : DecisionCorpus)
      → Valid readers corpus
      → Valid readers (list_entry readers name entry corpus)
  unfolding list_entry
  list_entry-Valid name entry corpus v =
      if_Valid _ _ _
        (skipped-Valid corpus name unsafe_name v.numbered v.irregular_numbered
          (λ other n c q. ground (arith, v.listed other n)))
        (if_Valid _ _ _ v (scan_named-Valid name entry corpus v))

  list_entries-Valid :
      (dir : Directory) (corpus : DecisionCorpus)
      → Valid readers corpus
      → Valid readers (list_entries readers dir corpus)
  unfolding list_entries
  list_entries-Valid [] corpus v = v
  list_entries-Valid ((name, entry) ∷ dir) corpus v =
      list_entries-Valid dir _ (list_entry-Valid name entry corpus v)

  -- A scan makes a valid view of whatever the directory holds: every file and every entry that is
  -- never read has the number of its name, and a listed name with a number stands for one of them.
  pub scan-Valid :
      (questions : Option (List ℕ)) (dir : Directory) → Valid readers (scan readers questions dir)
  unfolding scan contains
  scan-Valid questions dir =
      list_entries-Valid dir _
        (record { numbered = tt; irregular_numbered = tt; listed = λ name n c q. cc })
