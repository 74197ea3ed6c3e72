-- ===== src/Sync/Collisions/Holders.antt =====
-- How many files hold a number: packages/nauro/src/nauro/sync/collisions.py.
use nauro.Base.{
  ℕ, ◌+◌, ◌≡◌, ◌≤◌, refl, sym, ap, ◌∙◌, Bool, true, false, not, List, [], ◌∷◌, map, Option, none,
  some, Text, arith, Bool-cases, inl, inr, nat_beq, nat_beq_iff, length, max, select, contains,
  if◌then◌else◌, text_eq, nat_eq, ◌==◌, ok, contains-append, beq_refl,
}
use nauro.Sync.Names.{extract_decision_number}
use nauro.Sync.Names.Laws.{PlainDigits, extract-padded_number}
use nauro.Sync.Headings.{rewrite_decision_heading}
use nauro.Sync.Corpus.{
  Readers, DecisionFile, DecisionCorpus, claimed_numbers, irregular_numbers, holders, holders_in,
  put_file, pop_file, put_numbered, replace_file, record_renamed, record_rewritten, record_added,
}
use nauro.Sync.Collisions.Apply.{
  Store, RenumberResult, apply_renumber, fresh_number, renumber_writes, renumbered_name,
  rename_decision, rewrite_decision, retarget_store,
}
use nauro.Sync.Collisions.Renumber.{renumbered, fresh_number-unclaimed}

abbrev pub one_if : Bool → ℕ
one_if b = if b then 1 else 0

put-put :
    (first second : DecisionFile) (files : List DecisionFile)
    → first.name ≡ second.name
    → put_file second (put_file first files) ≡ put_file second files
unfolding put_file
put-put first second [] e = ground (arith, text_eq.beq_iff first.name second.name)
put-put first second (f ∷ files) e = ground (
  arith,
  put-put first second files,
  text_eq.beq_iff f.name first.name,
  text_eq.beq_iff f.name second.name,
  text_eq.beq_iff first.name second.name,
)

holders-put :
    (m : ℕ) (entry : DecisionFile) (files : List DecisionFile)
    → length (holders_in m (put_file entry files))
      ≤ length (holders_in m files) + one_if (nat_beq entry.number m)
unfolding holders_in put_file select
holders-put m entry [] = ground arith
holders-put m entry (f ∷ files) = ground (arith, holders-put m entry files)

pub holders-pop :
    (m : ℕ) (old : Text) (files : List DecisionFile)
    → length (holders_in m (pop_file old files)) ≤ length (holders_in m files)
unfolding holders_in pop_file select
holders-pop m old [] = omega arith
holders-pop m old (f ∷ files) = ground (arith, holders-pop m old files)

holders-unclaimed :
    (m : ℕ) (files : List DecisionFile)
    → contains (map (λ f. f.number) files) m ≡ false
    → length (holders_in m files) ≡ 0
unfolding holders_in select contains
holders-unclaimed m [] h = refl
holders-unclaimed m (f ∷ files) h = ground (arith, holders-unclaimed m files)

replace_file-files :
    (readers : Readers) (corpus : DecisionCorpus) (name text : Text) (n : ℕ)
    → extract_decision_number readers.unicode name ≡ some n
    → (replace_file readers corpus name text).files
      ≡ put_file
          (record { name = name; number = n; text = some text; in_memory = true })
          corpus.files
unfolding replace_file
replace_file-files readers corpus name text n e =
    ap (λ o. (put_numbered corpus name (some text) true o).files) e

-- the files of the view after a rename
pub record_renamed-files :
    (readers : Readers) (corpus : DecisionCorpus) (old new text : Text) (n : ℕ)
    → extract_decision_number readers.unicode new ≡ some n
    → (record_renamed readers corpus old new text).files
      ≡ put_file
          (record { name = new; number = n; text = some text; in_memory = true })
          (pop_file old corpus.files)
unfolding record_renamed
record_renamed-files readers corpus old new text n e = replace_file-files readers _ new text n e

-- the files of the view after the writes of a renumbering
pub renumber_writes-files :
    (readers : Readers) (s : Store) (collider new current rewritten : Text) (n : ℕ)
    → extract_decision_number readers.unicode new ≡ some n
    → (renumber_writes readers s collider new n current rewritten).finished.corpus.files
      ≡ put_file
          (record { name = new; number = n; text = some rewritten; in_memory = true })
          (pop_file collider s.corpus.files)
unfolding renumber_writes retarget_store rewrite_decision rename_decision record_rewritten
renumber_writes-files readers s collider new current rewritten n e =
    let entry : DecisionFile = record {
      name = new;
      number = n;
      text = some rewritten;
      in_memory = true;
    } in
    replace_file-files readers (record_renamed readers s.corpus collider new current) new rewritten
      n e
    ∙ ap (put_file entry) (record_renamed-files readers s.corpus collider new current n e)
    ∙ put-put _ entry (pop_file collider s.corpus.files) refl

-- a file that is put where its number has no holder
put_unrivalled :
    (m : ℕ) (entry : DecisionFile) (files before : List DecisionFile)
    → length (holders_in m files) ≤ length (holders_in m before)
    → (entry.number ≡ m → length (holders_in m files) ≡ 0)
    → length (holders_in m (put_file entry files)) ≤ max 1 (length (holders_in m before))
put_unrivalled m entry files before h k = elim (Bool-cases (nat_beq entry.number m)) [
  | inl e ↦ ground (arith, holders-put m entry files, k ((nat_beq_iff entry.number m).0 e))
  | inr e ↦ ground (arith, holders-put m entry files)
]

pub fresh_number-no_holder :
    (corpus : DecisionCorpus) (reserved : List ℕ)
    → length (holders_in (fresh_number corpus reserved) corpus.files) ≡ 0
unfolding claimed_numbers
fresh_number-no_holder corpus reserved =
    let n = fresh_number corpus reserved in
    let fresh = (fresh_number-unclaimed corpus reserved).0 in
    let both =
      contains-append (map (λ f. f.number) corpus.files) (irregular_numbers corpus.irregular) n in
    holders-unclaimed n corpus.files (ground arith)

-- No number has more than one holder, or more than it had.
abbrev pub NoNewRival : DecisionCorpus → DecisionCorpus → Type 0
NoNewRival before after = (m : ℕ) → length (holders after m) ≤ max 1 (length (holders before m))

-- a local file that is put back under the fresh number
put_fresh-NoNewRival :
    (before after : DecisionCorpus) (reserved : List ℕ) (old : Text) (entry : DecisionFile)
    → entry.number ≡ fresh_number before reserved
    → after.files ≡ put_file entry (pop_file old before.files)
    → NoNewRival before after
unfolding holders
put_fresh-NoNewRival before after reserved old entry fresh files m =
    let none_before = fresh_number-no_holder before reserved in
    let moved = pop_file old before.files in
    rw files (
      put_unrivalled m entry moved before.files (holders-pop m old before.files) (λ q.
        let none_now = ap (λ w. length (holders_in w before.files)) (sym q ∙ fresh) ∙ none_before in
        omega (arith, none_now, holders-pop m old before.files)))

-- a renumbering, whole or cut off after the rename or the rewrite
pub renumber-NoNewRival :
    (readers : Readers) (s : Store) (collider : Text) (number : ℕ) (reserved : List ℕ)
    (r : RenumberResult)
    → PlainDigits readers.unicode
    → apply_renumber readers s collider number reserved ≡ ok r
    → NoNewRival s.corpus r.renamed.corpus
      × NoNewRival s.corpus r.rewritten.corpus
      × NoNewRival s.corpus r.finished.corpus
renumber-NoNewRival readers s collider number reserved r plain h =
    let (e, (current, (q, k, p))) = renumbered readers s collider number reserved r h in
    let n = fresh_number s.corpus reserved in
    let new_number : extract_decision_number readers.unicode (renumbered_name readers n collider)
        ≡ some n =
      unfold renumbered_name in extract-padded_number readers.unicode plain n _ in
    let named : Text → DecisionFile = λ text. record {
      name = renumbered_name readers n collider;
      number = n;
      text = some text;
      in_memory = true;
    } in
    let rewritten = rewrite_decision_heading current number n in
    let kept = pop_file collider s.corpus.files in
    let done : (renumber_writes readers s collider (renumbered_name readers n collider) n current
          rewritten).finished.corpus.files
        ≡ put_file (named rewritten) kept =
      renumber_writes-files readers s collider (renumbered_name readers n collider) current
        rewritten n new_number in
    let cut : (renumber_writes readers s collider (renumbered_name readers n collider) n current
          rewritten).renamed.corpus.files
        ≡ put_file (named current) kept =
      unfold renumber_writes rename_decision in
      record_renamed-files readers s.corpus collider (renumbered_name readers n collider) current n
        new_number in
    let undone : (renumber_writes readers s collider (renumbered_name readers n collider) n current
          rewritten).rewritten.corpus.files
        ≡ put_file (named rewritten) kept =
      unfold renumber_writes retarget_store in done in
    (
      put_fresh-NoNewRival s.corpus r.renamed.corpus reserved collider (named current) refl
          (ap (λ w. w.renamed.corpus.files) p ∙ cut),
      put_fresh-NoNewRival s.corpus r.rewritten.corpus reserved collider (named rewritten) refl
          (ap (λ w. w.rewritten.corpus.files) p ∙ undone),
      put_fresh-NoNewRival s.corpus r.finished.corpus reserved collider (named rewritten) refl
          (ap (λ w. w.finished.corpus.files) p ∙ done),
    )

select_swap :
    (p q : DecisionFile → Bool) (files : List DecisionFile)
    → select p (select q files) ≡ select q (select p files)
unfolding select
select_swap p q [] = refl
select_swap p q (f ∷ files) = ground (arith, select_swap p q files)

-- without its sole holder, a number has none
holders-pop_sole :
    (n : ℕ) (f : DecisionFile) (files : List DecisionFile)
    → holders_in n files ≡ f ∷ []
    → length (holders_in n (pop_file f.name files)) ≡ 0
unfolding holders_in pop_file
holders-pop_sole n f files h =
    rw (select_swap (λ entry. nat_beq entry.number n) (λ g. not (g.name == f.name)) files) (
      ap (λ w. length (select (λ g. not (g.name == f.name)) w)) h
      ∙ unfold select in rw (beq_refl f.name) refl)

pub rename-NoNewRival :
    (readers : Readers) (corpus : DecisionCorpus) (f : DecisionFile) (new text : Text) (n : ℕ)
    → extract_decision_number readers.unicode new ≡ some n
    → holders corpus n ≡ f ∷ []
    → NoNewRival corpus (record_renamed readers corpus f.name new text)
unfolding holders
rename-NoNewRival readers corpus f new text n e sole m =
    let moved = pop_file f.name corpus.files in
    rw (record_renamed-files readers corpus f.name new text n e) (
      put_unrivalled m _ moved corpus.files (holders-pop m f.name corpus.files) (λ q.
        sym (ap (λ w. length (holders_in w moved)) q) ∙ holders-pop_sole n f corpus.files sole))

-- a file that is added under a number without holders
pub added-NoNewRival :
    (readers : Readers) (corpus : DecisionCorpus) (name text : Text) (o : Option ℕ)
    → extract_decision_number readers.unicode name ≡ o
    → ((n : ℕ) → o ≡ some n → holders corpus n ≡ [])
    → NoNewRival corpus (record_added readers corpus name text)
unfolding holders record_added replace_file
added-NoNewRival readers corpus name text o e free m = rw e (added o free)
  where
    added :
        (o : Option ℕ)
        → ((n : ℕ) → o ≡ some n → holders corpus n ≡ [])
        → length (
            holders_in m
              (put_numbered
                (record corpus { names = name ∷ corpus.names })
                name
                (some text)
                true
                o).files)
          ≤ max 1 (length (holders_in m corpus.files))
    added none free = omega arith
    added (some n) free =
        put_unrivalled m _ corpus.files corpus.files (omega arith)
          (λ q. sym (ap (λ w. length (holders_in w corpus.files)) q) ∙ ap length (free n refl))
