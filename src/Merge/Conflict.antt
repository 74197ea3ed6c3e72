-- ===== src/Merge/Conflict.antt =====
-- packages/nauro/src/nauro/sync/merge.py: `resolve_conflict`, `_save_conflict_backup` and
-- `write_backup`. Decoding and encoding with `surrogateescape`, and the clock, are parameters; the
-- folder of backups is a dictionary from file names to contents.
pub mod Laws
use nauro.Base.{
  ℕ, ◌≡◌, Bool, true, false, List, [], ◌∷◌, ◌++◌, Option, none, some, Text, codes, replace_text,
  contains, ◌==◌, if◌then◌else◌, text_eq, Eq,
}
use nauro.Merge.Union.{set_union_markdown}

abbrev pub Bytes : Type 0
Bytes = List ℕ

abbrev pub Backups : Type 0
Backups = List (Text × Bytes)

pub data Side : Type 0 where
  local remote : Side

-- the codec `utf-8` with `surrogateescape`
pub record Codec : Type 0 where
  pub decode : Bytes → Text
  pub encode : Text → Bytes

unfoldable pub read_backup : Text → Backups → Option Bytes
read_backup name [] = none
read_backup name ((n, content) ∷ backups) =
    if n == name then some content else read_backup name backups

-- an atomic write puts a file in place of one of that name
unfoldable pub write_backup : Text → Bytes → Backups → Backups
write_backup name content [] = (name, content) ∷ []
write_backup name content ((n, old) ∷ backups) =
    let rest = write_backup name content backups in
    if n == name then (name, content) ∷ backups else (n, old) ∷ rest

unfoldable pub backup_filename : Text → Text
backup_filename path =
    replace_text b'\\' (codes "%5C")
      (replace_text b'/' (codes "%2F") (replace_text b'%' (codes "%25") path))

unfoldable pub backup_name : Text → Text → Text
unfolding backup_filename
backup_name timestamp path = timestamp ++ b'-' ∷ backup_filename path

unfoldable pub save_conflict_backup : Text → Text → Bytes → Backups → Backups
save_conflict_backup timestamp path content = write_backup (backup_name timestamp path) content

abbrev pub set_union_paths : List Text
set_union_paths = codes "open-questions.md" ∷ codes "state_history.md" ∷ []

abbrev pub loser : Side → Bytes → Bytes → Bytes
loser local mine theirs = theirs
loser remote mine theirs = mine

abbrev pub winner : Side → Bytes → Bytes → Bytes
winner local mine theirs = mine
winner remote mine theirs = theirs

module _ (codec : Codec) (timestamp : Text) where
  -- the bytes to install, and the backups after the call
  unfoldable pub resolve_conflict : Bytes → Bytes → Text → Side → Backups → Bytes × Backups
  resolve_conflict mine theirs path keeps backups =
      if contains set_union_paths path
      then (codec.encode (set_union_markdown (codec.decode mine) (codec.decode theirs)), backups)
      else (
        winner keeps mine theirs,
        save_conflict_backup timestamp path (loser keeps mine theirs) backups,
      )
