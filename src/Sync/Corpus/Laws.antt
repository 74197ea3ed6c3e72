-- ===== src/Sync/Corpus/Laws.antt =====
-- What the view keeps to: packages/nauro/src/nauro/sync/corpus.py.
use nauro.Base.{
  ℕ, ◌≡◌, refl, sym, ap, ◌∙◌, Bool, true, not, ◌&&◌, ◌||◌, List, [], ◌∷◌, ◌++◌, map, Option, none,
  some, Text, arith, Bool-cases, inl, inr, nat_beq_iff, select, contains, contains-append, any,
  text_eq, nat_eq, ◌==◌, All, beq_refl,
}
use nauro.Sync.Names.{extract_decision_number}
use nauro.Sync.Corpus.{
  Readers, DecisionFile, DecisionCorpus, IrregularEntry, claimed_numbers, irregular_numbers,
  has_name, put_file, pop_file, replace_file, put_numbered, record_added, record_renamed,
  record_rewritten,
}

abbrev pub is_file : List DecisionFile → Text → Bool
is_file files name = any (λ f. f.name == name) files

abbrev pub is_entry : List IrregularEntry → Text → Bool
is_entry entries name = any (λ e. e.name == name) entries

-- The numbers are those of the names, and a listed name with a number stands for a file or for an
-- entry that is never read.
pub record Valid (readers : Readers) (corpus : DecisionCorpus) : Type 0 where
  pub numbered :
      All (λ f. extract_decision_number readers.unicode f.name ≡ some f.number) corpus.files
  pub irregular_numbered :
      All (λ e. e.number ≡ extract_decision_number readers.unicode e.name) corpus.irregular
  pub listed :
      (name : Text) (n : ℕ)
      → contains corpus.names name ≡ true
      → extract_decision_number readers.unicode name ≡ some n
      → (is_file corpus.files name || is_entry corpus.irregular name) ≡ true

pub is_file-put :
    (entry : DecisionFile) (files : List DecisionFile) (name : Text)
    → is_file (put_file entry files) name ≡ (entry.name == name || is_file files name)
unfolding any put_file
is_file-put entry [] name = refl
is_file-put entry (f ∷ files) name = ground (
  arith,
  is_file-put entry files name,
  text_eq.beq_iff f.name entry.name,
  ap (λ t. text_eq.beq t name),
)

pub is_file-pop :
    (old : Text) (files : List DecisionFile) (name : Text)
    → is_file (pop_file old files) name ≡ (is_file files name && not (old == name))
unfolding any pop_file select
is_file-pop old [] name = refl
is_file-pop old (f ∷ files) name = ground (
  arith,
  is_file-pop old files name,
  text_eq.beq_iff f.name old,
  text_eq.beq_iff f.name name,
  text_eq.beq_iff old name,
)

pub is_entry-append :
    (entries : List IrregularEntry) (entry : IrregularEntry) (name : Text)
    → is_entry (entries ++ entry ∷ []) name ≡ (is_entry entries name || entry.name == name)
unfolding any
is_entry-append [] entry name = ground arith
is_entry-append (e ∷ entries) entry name = ground (arith, is_entry-append entries entry name)

All-put {κ} :
    (P : DecisionFile → Type κ) (entry : DecisionFile) (files : List DecisionFile)
    → P entry
    → All P files
    → All P (put_file entry files)
unfolding put_file
All-put P entry [] e h = (e, tt)
All-put P entry (f ∷ files) e h = elim (Bool-cases (text_eq.beq f.name entry.name)) [
  | inl q ↦ rw q (e, h.1)
  | inr q ↦ rw q (h.0, All-put P entry files e h.1)
]

All-select {ℓ κ} :
    {A : Type ℓ} (P : A → Type κ) (p : A → Bool) (xs : List A) → All P xs → All P (select p xs)
unfolding select
All-select P p [] h = tt
All-select P p (x ∷ xs) h = elim (Bool-cases (p x)) [
  | inl q ↦ rw q (h.0, All-select P p xs h.1)
  | inr q ↦ rw q (All-select P p xs h.1)
]

contains-select :
    (old : Text) (names : List Text) (name : Text)
    → contains (select (λ listed. not (listed == old)) names) name
      ≡ (contains names name && not (old == name))
unfolding contains select
contains-select old [] name = refl
contains-select old (w ∷ names) name = ground (
  arith,
  contains-select old names name,
  text_eq.beq_iff w old,
  text_eq.beq_iff w name,
  text_eq.beq_iff old name,
)

module _ (readers : Readers) where
  -- what a listed name stands for, where `added` may also stand
  abbrev pub Stands : DecisionCorpus → Text → Type 0
  Stands corpus added =
      (other : Text) (n : ℕ)
      → contains corpus.names other ≡ true
      → extract_decision_number readers.unicode other ≡ some n
      → (added == other || (is_file corpus.files other || is_entry corpus.irregular other)) ≡ true

  pub put_numbered-Valid :
      (corpus : DecisionCorpus) (name : Text) (text : Option Text) (in_memory : Bool) (o : Option ℕ)
      → extract_decision_number readers.unicode name ≡ o
      → All (λ f. extract_decision_number readers.unicode f.name ≡ some f.number) corpus.files
      → All (λ e. e.number ≡ extract_decision_number readers.unicode e.name) corpus.irregular
      → Stands corpus name
      → Valid readers (put_numbered corpus name text in_memory o)
  put_numbered-Valid corpus name text in_memory none e h k l = record {
    numbered = h;
    irregular_numbered = k;
    listed = λ other n c q. elim (Bool-cases (text_eq.beq name other)) [
      | inl same ↦
          let p : none ≡ some n =
            sym e
            ∙ ap (extract_decision_number readers.unicode) ((text_eq.beq_iff name other).0 same)
            ∙ q in
          cc
      | inr differ ↦ ground (arith, l other n c q)
    ];
  }
  put_numbered-Valid corpus name text in_memory (some m) e h k l =
      let entry : DecisionFile = record {
        name = name;
        number = m;
        text = text;
        in_memory = in_memory;
      } in
      record {
        numbered = All-put _ entry corpus.files e h;
        irregular_numbered = k;
        listed = λ other n c q.
            rw (is_file-put entry corpus.files other) (ground (arith, l other n c q));
      }

  pub record_added-Valid :
      (corpus : DecisionCorpus) (name text : Text)
      → Valid readers corpus
      → Valid readers (record_added readers corpus name text)
  unfolding record_added replace_file contains
  record_added-Valid corpus name text v =
      put_numbered-Valid _ name (some text) true _ refl v.numbered v.irregular_numbered
        (λ other n c q. ground (arith, v.listed other n))

  pub record_rewritten-Valid :
      (corpus : DecisionCorpus) (name text : Text)
      → Valid readers corpus
      → Valid readers (record_rewritten readers corpus name text)
  unfolding record_rewritten replace_file
  record_rewritten-Valid corpus name text v =
      put_numbered-Valid _ name (some text) true _ refl v.numbered v.irregular_numbered
        (λ other n c q. ground (arith, v.listed other n))

  pub record_renamed-Valid :
      (corpus : DecisionCorpus) (old new text : Text)
      → Valid readers corpus
      → Valid readers (record_renamed readers corpus old new text)
  unfolding record_renamed replace_file contains pop_file
  record_renamed-Valid corpus old new text v =
      put_numbered-Valid _ new (some text) true _ refl (All-select _ _ corpus.files v.numbered)
        v.irregular_numbered
        (λ other n c q. ground (
          arith,
          v.listed other n,
          is_file-pop old corpus.files other,
          contains-select old corpus.names other,
        ))

  file_number-claimed :
      (files : List DecisionFile) (name : Text) (n : ℕ)
      → All (λ f. extract_decision_number readers.unicode f.name ≡ some f.number) files
      → is_file files name ≡ true
      → extract_decision_number readers.unicode name ≡ some n
      → contains (map (λ f. f.number) files) n ≡ true
  unfolding any contains
  file_number-claimed [] name n h i e = cc
  file_number-claimed (f ∷ files) name n h i e = elim (Bool-cases (text_eq.beq f.name name)) [
    | inl same ↦
        let number : some f.number ≡ some n =
          sym h.0
          ∙ ap (extract_decision_number readers.unicode) ((text_eq.beq_iff f.name name).0 same)
          ∙ e in
        ground (arith, nat_beq_iff f.number n)
    | inr differ ↦ ground (arith, file_number-claimed files name n h.1)
  ]

  entry_number-claimed :
      (entries : List IrregularEntry) (name : Text) (n : ℕ)
      → All (λ e. e.number ≡ extract_decision_number readers.unicode e.name) entries
      → is_entry entries name ≡ true
      → extract_decision_number readers.unicode name ≡ some n
      → contains (irregular_numbers entries) n ≡ true
  unfolding any contains irregular_numbers
  entry_number-claimed [] name n h i e = cc
  entry_number-claimed (x ∷ entries) name n h i e = elim (Bool-cases (text_eq.beq x.name name)) [
    | inl same ↦
        let number : x.number ≡ some n =
          h.0
          ∙ ap (extract_decision_number readers.unicode) ((text_eq.beq_iff x.name name).0 same)
          ∙ e in
        rw number (rw (beq_refl n) refl)
    | inr differ ↦ ground (arith, entry_number-claimed entries name n h.1)
  ]

  -- the number of a listed name is claimed
  pub listed_name-claimed :
      (corpus : DecisionCorpus) (name : Text) (n : ℕ)
      → Valid readers corpus
      → has_name corpus name ≡ true
      → extract_decision_number readers.unicode name ≡ some n
      → contains (claimed_numbers corpus) n ≡ true
  unfolding has_name claimed_numbers
  listed_name-claimed corpus name n v h e =
      rw (contains-append (map (λ f. f.number) corpus.files) (irregular_numbers corpus.irregular) n)
        (ground (
          arith,
          v.listed name n h e,
          file_number-claimed corpus.files name n v.numbered,
          entry_number-claimed corpus.irregular name n v.irregular_numbered,
        ))
