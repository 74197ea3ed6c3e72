-- ===== src/Sync/Collisions/Views.antt =====
-- How the view and the disk keep in step: packages/nauro/src/nauro/sync/collisions.py.
use nauro.Base.{
  ℕ, ◌≡◌, refl, sym, ap, ◌∙◌, Bool, true, false, not, ◌&&◌, ◌||◌, List, ◌++◌, Option, none, some,
  Text, codes, arith, ends_with, text_eq, nat_eq, ◌==◌, ok, err,
}
use nauro.Merge.Paths.{classify_sync_path}
use nauro.Sync.Names.{extract_decision_number}
use nauro.Sync.Headings.{rewrite_decision_heading}
use nauro.Sync.Corpus.{
  Readers, DirEntry, regular, not_regular, Directory, find_entry, read_bytes, entry_bytes,
  DecisionCorpus, put_numbered, replace_file, record_renamed, record_rewritten,
}
use nauro.Sync.Corpus.Scan.{is_unsafe}
use nauro.Sync.Corpus.Laws.{is_file, is_file-put, is_file-pop}
use nauro.Sync.Collisions.Apply.{
  Store, os_error, RenumberResult, apply_renumber, fresh_number, renumber_writes, renumbered_name,
  read_text_lenient, rename_decision, rewrite_decision, retarget_store,
}
use nauro.Sync.Collisions.Renumber.{renumbered, find_entry-rename_entry, find_entry-write_entry}

abbrev pub is_regular : Option DirEntry → Bool
is_regular (some (regular bytes)) = true
is_regular _ = false

abbrev has_number : Option ℕ → Bool
has_number none = false
has_number (some n) = true

-- what a scan takes for the name of a decision
unfoldable pub is_decision_name : Readers → Text → Bool
is_decision_name readers name =
    not (
      is_unsafe
        (classify_sync_path readers.unicode.casefold (codes "decisions/" ++ name)).path_class)
    && ends_with (codes ".md") name
    && has_number (extract_decision_number readers.unicode name)

-- The view lists as files the regular files of the directory that have the name of a decision, and no
-- others.
abbrev pub InStep : Readers → Store → Type 0
InStep readers s =
    (name : Text)
    → is_file s.corpus.files name
      ≡ (is_regular (find_entry s.directory name) && is_decision_name readers name)

is_file-replace :
    (readers : Readers) (corpus : DecisionCorpus) (new text name : Text)
    → is_decision_name readers new ≡ true
    → is_file (replace_file readers corpus new text).files name
      ≡ (new == name || is_file corpus.files name)
unfolding replace_file is_decision_name
is_file-replace readers corpus new text name h =
    numbered (extract_decision_number readers.unicode new) refl
  where
    numbered :
        (o : Option ℕ)
        → extract_decision_number readers.unicode new ≡ o
        → is_file (put_numbered corpus new (some text) true o).files name
          ≡ (new == name || is_file corpus.files name)
    numbered none e =
        let unnumbered : has_number (extract_decision_number readers.unicode new) ≡ false =
          ap has_number e in
        ground arith
    numbered (some n) e =
        is_file-put (record { name = new; number = n; text = some text; in_memory = true })
          corpus.files name

rename_decision-InStep :
    (readers : Readers) (s : Store) (old new text : Text) (bytes : Option Text)
    → InStep readers s
    → is_decision_name readers new ≡ true
    → find_entry s.directory old ≡ some (regular bytes)
    → InStep readers (rename_decision readers s old new text)
unfolding rename_decision record_renamed
rename_decision-InStep readers s old new text bytes step named found name =
    rw (is_file-replace readers _ new text name named) (
      rw (find_entry-rename_entry s.directory old new name (regular bytes) found) (
        ground (
          arith,
          step name,
          is_file-pop old s.corpus.files name,
          text_eq.beq_iff new name,
          ap (is_decision_name readers),
        )))

rewrite_decision-InStep :
    (readers : Readers) (s : Store) (name text : Text)
    → InStep readers s
    → is_decision_name readers name ≡ true
    → InStep readers (rewrite_decision readers s name text)
unfolding rewrite_decision record_rewritten
rewrite_decision-InStep readers s written text step named name =
    rw (is_file-replace readers s.corpus written text name named) (
      rw (find_entry-write_entry s.directory written name (readers.encode text))
        (ground (arith, step name, text_eq.beq_iff written name, ap (is_decision_name readers))))

-- a text that was read is that of a regular file
read_text_lenient-regular :
    (readers : Readers) (dir : Directory) (name : Text) {text : Text}
    → read_text_lenient readers dir name ≡ ok text
    → (bytes : Option Text) × (find_entry dir name ≡ some (regular bytes))
unfolding read_text_lenient read_bytes
read_text_lenient-regular readers dir name {text} h = by_entry (find_entry dir name) refl h
  where
    by_entry :
        (o : Option DirEntry)
        → find_entry dir name ≡ o
        → elim (entry_bytes o) [ none ↦ err os_error | some bytes ↦ ok (readers.decode bytes) ]
          ≡ ok text
        → (bytes : Option Text) × (find_entry dir name ≡ some (regular bytes))
    by_entry none e k = cc
    by_entry (some not_regular) e k = cc
    by_entry (some (regular bytes)) e k = (bytes, e)

-- Through every write of a renumbering the view keeps in step with the disk: it lists as files the
-- regular files of the directory that have the name of a decision, if it did before and the new
-- name is the name of a decision.
pub renumber-InStep :
    (readers : Readers) (s : Store) (collider : Text) (number : ℕ) (reserved : List ℕ)
    (r : RenumberResult)
    → InStep readers s
    → apply_renumber readers s collider number reserved ≡ ok r
    → is_decision_name readers r.new_name ≡ true
    → InStep readers r.renamed × InStep readers r.rewritten × InStep readers r.finished
unfolding renumber_writes retarget_store
renumber-InStep readers s collider number reserved r step h named =
    let (e, (current, (q, k, p))) = renumbered readers s collider number reserved r h in
    let n = fresh_number s.corpus reserved in
    let new = renumbered_name readers n collider in
    let text = rewrite_decision_heading current number n in
    let (bytes, found) = read_text_lenient-regular readers s.directory collider q in
    let is_decision : is_decision_name readers new ≡ true =
      sym (ap (λ w. is_decision_name readers w.new_name) p) ∙ named in
    let renamed =
      rename_decision-InStep readers s collider new current bytes step is_decision found in
    let rewritten =
      rewrite_decision-InStep readers (rename_decision readers s collider new current) new text
        renamed is_decision in
    rw p (renamed, rewritten, rewritten)
