-- ===== src/Sync/Collisions/Freed.antt =====
-- How many files hold a number once a file is renumbered: packages/nauro/src/nauro/sync/collisions.py.
use nauro.Base.{
  ℕ, ◌+◌, ◌≡◌, ◌≢◌, refl, sym, ap, ◌∙◌, true, false, List, [], ◌∷◌, some, Text, arith, All,
  Bool-cases, inl, inr, nat_beq, nat_beq_iff, length, select, any, if◌then◌else◌, text_eq, nat_eq,
  ok,
}
use nauro.Sync.Names.{extract_decision_number}
use nauro.Sync.Names.Laws.{PlainDigits, extract-padded_number}
use nauro.Sync.Headings.{rewrite_decision_heading}
use nauro.Sync.Corpus.{
  Readers, DecisionFile, holders, holders_in, put_file, pop_file, named_in, file_named,
}
use nauro.Sync.Corpus.Laws.{Valid, is_file}
use nauro.Sync.Corpus.Files.{Listed, Unique, All-weaken}
use nauro.Sync.Collisions.Apply.{
  Store, RenumberResult, apply_renumber, fresh_number, renumber_writes, renumbered_name,
}
use nauro.Sync.Collisions.Renumber.{renumbered}
use nauro.Sync.Collisions.Holders.{
  one_if, holders-pop, renumber_writes-files, fresh_number-no_holder,
}

pop_file-absent :
    (old : Text) (files : List DecisionFile)
    → is_file files old ≡ false
    → pop_file old files ≡ files
unfolding pop_file select any
pop_file-absent old [] h = refl
pop_file-absent old (f ∷ files) h = ground (arith, pop_file-absent old files)

-- without a file, its number has one holder fewer, and no other number has
holders-pop_file :
    (m : ℕ) (old : Text) (files : List DecisionFile) (f : DecisionFile)
    → Unique files
    → named_in old files ≡ some f
    → length (holders_in m (pop_file old files)) + one_if (nat_beq f.number m)
      ≡ length (holders_in m files)
unfolding holders_in pop_file select named_in
holders-pop_file m old [] f u h = cc
holders-pop_file m old (x ∷ files) f u h = elim (Bool-cases (text_eq.beq x.name old)) [
  | inl e ↦
      let same : x ≡ f = let found = rw e at h in cc in
      let absent =
        pop_file-absent old files
          (ap (is_file files) (sym ((text_eq.beq_iff x.name old).0 e)) ∙ u.0) in
      let kept = ap (λ w. length (holders_in m w)) absent in rw (← same) (ground (arith, e, kept))
  | inr e ↦
      let found : named_in old files ≡ some f = rw e at h in
      ground (arith, e, holders-pop_file m old files f u.1 found)
]

-- the files under the name of the entry have its number
abbrev Agree : DecisionFile → List DecisionFile → Type 0
Agree entry files = All (λ f. f.name ≡ entry.name → f.number ≡ entry.number) files

holders-put_other :
    (m : ℕ) (entry : DecisionFile) (files : List DecisionFile)
    → Agree entry files
    → nat_beq entry.number m ≡ false
    → length (holders_in m (put_file entry files)) ≡ length (holders_in m files)
unfolding holders_in put_file select
holders-put_other m entry [] a h = ground (arith, h)
holders-put_other m entry (f ∷ files) a h =
    ground (arith, h, a.0, holders-put_other m entry files a.1, text_eq.beq_iff f.name entry.name)

holders-put_new :
    (entry : DecisionFile) (files : List DecisionFile)
    → Agree entry files
    → length (holders_in entry.number files) ≡ 0
    → length (holders_in entry.number (put_file entry files)) ≡ 1
unfolding holders_in put_file select
holders-put_new entry [] a h = ground (arith, nat_beq_iff entry.number entry.number)
holders-put_new entry (f ∷ files) a h = ground (
  arith,
  h,
  a.0,
  holders-put_new entry files a.1,
  text_eq.beq_iff f.name entry.name,
  nat_beq_iff f.number entry.number,
)

All-pop_file :
    (P : DecisionFile → Type 0) (old : Text) (files : List DecisionFile)
    → All P files
    → All P (pop_file old files)
unfolding pop_file select
All-pop_file P old [] h = tt
All-pop_file P old (f ∷ files) h = elim (Bool-cases (text_eq.beq f.name old)) [
  | inl e ↦ rw e (All-pop_file P old files h.1)
  | inr e ↦ rw e (h.0, All-pop_file P old files h.1)
]

-- Once a local file that the view lists is renumbered, its old number has one holder fewer, the new
-- one has one, and every other number has as many as before. This is so where the view is valid and
-- its files have different names, and `str` reads ASCII digits as documented.
pub renumber_frees :
    (readers : Readers) (s : Store) (collider : Text) (number : ℕ) (reserved : List ℕ)
    (f : DecisionFile) (r : RenumberResult)
    → PlainDigits readers.unicode
    → Valid readers s.corpus
    → Listed s.corpus
    → file_named s.corpus collider ≡ some f
    → apply_renumber readers s collider number reserved ≡ ok r
    → (length (holders r.finished.corpus r.new_num) ≡ 1)
      × ((m : ℕ)
          → m ≢ r.new_num
          → length (holders r.finished.corpus m) + (if nat_beq f.number m then 1 else 0)
            ≡ length (holders s.corpus m))
      × (f.number ≢ r.new_num)
unfolding holders file_named
renumber_frees readers s collider number reserved f r plain valid listed named h =
    let (e, (current, (q, k, p))) = renumbered readers s collider number reserved r h in
    let n = fresh_number s.corpus reserved in
    let number_new : r.new_num ≡ n = rw p (unfold renumber_writes in refl) in
    let new_number : extract_decision_number readers.unicode (renumbered_name readers n collider)
        ≡ some n =
      unfold renumbered_name in extract-padded_number readers.unicode plain n _ in
    let files =
      ap (λ w. w.finished.corpus.files) p
      ∙ renumber_writes-files readers s collider (renumbered_name readers n collider) current
          (rewrite_decision_heading current number n) n new_number in
    let moved = pop_file collider s.corpus.files in
    let entry : DecisionFile = record {
      name = renumbered_name readers n collider;
      number = n;
      text = some (rewrite_decision_heading current number n);
      in_memory = true;
    } in
    let agree : Agree entry moved = All-pop_file _ collider s.corpus.files (
      All-weaken _ _ s.corpus.files
        (λ g numbered same.
          let both : some g.number ≡ some n =
            sym numbered ∙ ap (extract_decision_number readers.unicode) same ∙ new_number in
          ground arith)
        valid.numbered) in
    let none_before = fresh_number-no_holder s.corpus reserved in
    let freed = λ (m : ℕ). holders-pop_file m collider s.corpus.files f listed.unique named in
    rw files (
      rw number_new (
        holders-put_new entry moved agree
            (omega (arith, none_before, holders-pop n collider s.corpus.files)),
        λ m differ.
            ap (λ (w : ℕ). w + one_if (nat_beq f.number m))
              (holders-put_other m entry moved agree (ground (arith, nat_beq_iff n m, differ)))
            ∙ freed m,
        λ same. ground (arith, freed n, none_before, nat_beq_iff f.number n),
      ))
