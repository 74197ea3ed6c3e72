-- ===== src/Sync/Collisions/Apply.antt =====
-- packages/nauro/src/nauro/sync/collisions.py: the writes that a verdict authorizes, and the pass
-- that completes a renumbering that was cut off. `max` is taken of a list that the collider is in.
-- A value of the hash index is what `_entry_stem` reads of it; its other keys stay as they are.
use nauro.Base.{
  ℕ, suc, Bool, false, List, [], ◌∷◌, ◌++◌, Option, none, some, Text, codes, nat_beq, leb, ◌==◌,
  if◌then◌else◌, text_eq, nat_eq, Result, ok, err, ◌>>=◌,
}
use nauro.Sync.Names.{remove_suffix, padded_number, strip_number_prefix}
use nauro.Sync.Headings.{heading_number, rewrite_decision_heading}
use nauro.Sync.Corpus.{
  Readers, find_entry, DirEntry, regular, Directory, read_bytes, DecisionCorpus, claimed_numbers,
  has_name, record_renamed, record_rewritten,
}

-- The directory

unfoldable pub without_entry : Directory → Text → Directory
without_entry [] name = []
without_entry ((listed, entry) ∷ dir) name =
    let rest = without_entry dir name in if listed == name then rest else (listed, entry) ∷ rest

abbrev pub moved_entry : Directory → Text → Text → Option DirEntry → Directory
moved_entry dir old new none = dir
moved_entry dir old new (some entry) = (new, entry) ∷ without_entry (without_entry dir old) new

-- `os.rename(old, new)`, which replaces what `new` held
unfoldable pub rename_entry : Directory → Text → Text → Directory
rename_entry dir old new = moved_entry dir old new (find_entry dir old)

-- `atomic_write_text` and `atomic_write_bytes`
unfoldable pub write_entry : Directory → Text → Text → Directory
write_entry dir name bytes = (name, regular (some bytes)) ∷ without_entry dir name

-- The hash index

abbrev pub HashIndex : Type 0
HashIndex = List (Text × Option Text)

abbrev pub stem : Text → Text
stem name = remove_suffix (codes ".md") name

abbrev names_stem : Text → Option Text → Bool
names_stem stem none = false
names_stem stem (some listed) = listed == stem

unfoldable pub retarget_hash_index : Text → Text → HashIndex → HashIndex
retarget_hash_index old new [] = []
retarget_hash_index old new ((key, value) ∷ index) =
    (key, if names_stem old value then some new else value) ∷ retarget_hash_index old new index

-- what a run writes
pub record Store : Type 0 where
  pub directory : Directory
  pub corpus : DecisionCorpus
  pub hashes : HashIndex

pub data RenumberError : Type 0 where
  destination_occupied_error heading_rewrite_error os_error : RenumberError

unfoldable pub read_text_lenient : Readers → Directory → Text → Result RenumberError Text
read_text_lenient readers dir name = elim (read_bytes dir name) [
  | none ↦ err os_error
  | some bytes ↦ ok (readers.decode bytes)
]

-- the rename on the disk and in the view
unfoldable pub rename_decision : Readers → Store → Text → Text → Text → Store
rename_decision readers s old new text = record s {
  directory = rename_entry s.directory old new;
  corpus = record_renamed readers s.corpus old new text;
}

unfoldable pub rewrite_decision : Readers → Store → Text → Text → Store
rewrite_decision readers s name text = record s {
  directory = write_entry s.directory name (readers.encode text);
  corpus = record_rewritten readers s.corpus name text;
}

unfoldable pub retarget_store : Store → Text → Text → Store
retarget_store s old new = record s { hashes = retarget_hash_index (stem old) (stem new) s.hashes }

unfoldable pub apply_canonicalize : Readers → Store → Text → Text → Result RenumberError Store
apply_canonicalize readers s collider filename =
    read_text_lenient readers s.directory collider >>= λ text.
    ok (retarget_store (rename_decision readers s collider filename text) collider filename)

unfoldable pub maximum : List ℕ → ℕ
maximum [] = 0
maximum (n ∷ ns) = let most = maximum ns in if leb n most then most else n

-- a completed renumbering, and the store after each of its writes
pub record RenumberResult : Type 0 where
  pub new_name : Text
  pub new_num : ℕ
  pub renamed : Store
  pub rewritten : Store
  pub finished : Store

unfoldable pub fresh_number : DecisionCorpus → List ℕ → ℕ
fresh_number corpus reserved = suc (maximum (claimed_numbers corpus ++ reserved))

abbrev pub is_number : ℕ → Option ℕ → Bool
is_number n none = false
is_number n (some m) = nat_beq m n

unfoldable pub renumber_writes : Readers → Store → Text → Text → ℕ → Text → Text → RenumberResult
renumber_writes readers s collider destination new_num current rewritten_text =
    let renamed = rename_decision readers s collider destination current in
    let rewritten = rewrite_decision readers renamed destination rewritten_text in
    record {
      new_name = destination;
      new_num = new_num;
      renamed = renamed;
      rewritten = rewritten;
      finished = retarget_store rewritten collider destination;
    }

abbrev pub renumber_text :
    Readers → Store → Text → ℕ → ℕ → Text → Text → Result RenumberError RenumberResult
renumber_text readers s collider number new_num destination current =
    let rewritten = rewrite_decision_heading current number new_num in
    if is_number new_num (heading_number rewritten)
    then ok (renumber_writes readers s collider destination new_num current rewritten)
    else err heading_rewrite_error

unfoldable pub renumbered_name : Readers → ℕ → Text → Text
renumbered_name readers new_num collider =
    padded_number new_num ++ b'-' ∷ strip_number_prefix readers.unicode collider

unfoldable pub apply_renumber :
    Readers → Store → Text → ℕ → List ℕ → Result RenumberError RenumberResult
apply_renumber readers s collider number reserved =
    let new_num = fresh_number s.corpus reserved in
    let destination = renumbered_name readers new_num collider in
    if has_name s.corpus destination
    then err destination_occupied_error
    else read_text_lenient readers s.directory collider
      >>= renumber_text readers s collider number new_num destination
