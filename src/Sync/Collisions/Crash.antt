-- ===== src/Sync/Collisions/Crash.antt =====
-- What a renumbering leaves on the disk, whole or cut off:
-- packages/nauro/src/nauro/sync/collisions.py.
use nauro.Base.{
  ℕ, ◌≡◌, ◌≢◌, refl, ap, true, false, List, none, some, Text, arith, Bool-cases, Option-cases, inl,
  inr, text_eq, nat_eq, ok, beq_refl,
}
use nauro.Sync.Headings.{heading_number, rewrite_decision_heading}
use nauro.Sync.Corpus.{Readers, find_entry, read_bytes, DirEntry, Directory, has_name}
use nauro.Sync.Collisions.Apply.{
  Store, RenumberResult, apply_renumber, fresh_number, renumber_writes, renumbered_name,
  read_text_lenient, rename_decision, rewrite_decision, retarget_store, rename_entry,
}
use nauro.Sync.Collisions.Renumber.{renumbered, find_entry-rename_entry, find_entry-write_entry}

-- a text that was read is that of an entry of the directory
pub read_text_lenient-found :
    (readers : Readers) (dir : Directory) (name : Text) {text : Text}
    → read_text_lenient readers dir name ≡ ok text
    → (entry : DirEntry) × (find_entry dir name ≡ some entry)
unfolding read_text_lenient read_bytes
read_text_lenient-found readers dir name h = elim (Option-cases (find_entry dir name)) [
  | inl e ↦ ground arith
  | inr (entry, e) ↦ (entry, e)
]

-- Once a local file is renumbered, the disk holds under the new name a text whose heading has the new
-- number, nothing under the old name, and under any other name what it held before.
pub renumber_on_disk :
    (readers : Readers) (s : Store) (collider : Text) (number : ℕ) (reserved : List ℕ)
    (r : RenumberResult)
    → has_name s.corpus collider ≡ true
    → apply_renumber readers s collider number reserved ≡ ok r
    → (text : Text) × ((read_bytes r.finished.directory r.new_name ≡ some (readers.encode text))
        × (heading_number text ≡ some r.new_num)
        × (find_entry r.finished.directory collider ≡ none)
        × ((name : Text)
            → name ≢ collider
            → name ≢ r.new_name
            → find_entry r.finished.directory name ≡ find_entry s.directory name))
unfolding renumber_writes retarget_store rewrite_decision rename_decision read_bytes
renumber_on_disk readers s collider number reserved r listed h =
    let (e, (current, (q, k, p))) = renumbered readers s collider number reserved r h in
    let new = renumbered_name readers (fresh_number s.corpus reserved) collider in
    let rewritten = rewrite_decision_heading current number (fresh_number s.corpus reserved) in
    let bytes = readers.encode rewritten in
    let (entry, found) = read_text_lenient-found readers s.directory collider q in
    let moved = rename_entry s.directory collider new in
    let at = λ (name : Text). find_entry-write_entry moved new name bytes in
    let before =
      λ (name : Text). find_entry-rename_entry s.directory collider new name entry found in
    let apart : text_eq.beq new collider ≡ false = elim (Bool-cases (text_eq.beq new collider)) [
      | inl same ↦
          let w : has_name s.corpus new ≡ has_name s.corpus collider =
            ap (has_name s.corpus) ((text_eq.beq_iff new collider).0 same) in
          ground arith
      | inr differ ↦ differ
    ] in
    rw p (
      rewritten,
      (
        rw (at new) (rw (beq_refl new) refl),
        k,
        ground (arith, at collider, before collider, beq_refl collider),
        λ name a b.
            ground (
              arith,
              at name,
              before name,
              text_eq.beq_iff new name,
              text_eq.beq_iff collider name,
            ),
      ),
    )
