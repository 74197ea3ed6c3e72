-- ===== src/Merge/Conflict/Laws.antt =====
-- What a conflict leaves behind: `resolve_conflict` of packages/nauro/src/nauro/sync/merge.py.
use mathlib.Core.Path.{◌≡⟨◌⟩◌, ◌∎}
use mathlib.Core.List.{append_assoc}
use nauro.Base.{
  beq_refl, sym, ℕ, ◌≡◌, ◌≢◌, refl, ◌∙◌, ap, false, [], ◌∷◌, ◌++◌, Option, some, Text, codes,
  replace_text, contains, ◌==◌, if◌then◌else◌, text_eq, nat_beq, arith,
}
use nauro.Merge.Conflict.{
  Bytes, Backups, Side, local, remote, Codec, read_backup, write_backup, backup_filename,
  backup_name, save_conflict_backup, set_union_paths, loser, resolve_conflict,
}

read_backup-write_backup :
    (name other : Text) (content : Bytes) (backups : Backups)
    → read_backup other (write_backup name content backups)
      ≡ (if name == other then some content else read_backup other backups)
unfolding read_backup write_backup
read_backup-write_backup name other content [] = refl
read_backup-write_backup name other content ((n, old) ∷ backups) = ground (
  arith,
  text_eq.beq_iff n name,
  text_eq.beq_iff n other,
  text_eq.beq_iff name other,
  read_backup-write_backup name other content backups,
)

read_own_backup :
    (name : Text) (content : Bytes) (backups : Backups)
    → read_backup name (write_backup name content backups) ≡ some content
read_own_backup name content backups =
    ground (arith, read_backup-write_backup name name content backups, beq_refl name)

-- The three replacements in one pass.
escape_char : ℕ → Text
escape_char c =
    if nat_beq c b'%'
    then codes "%25"
    else if nat_beq c b'/'
    then codes "%2F"
    else if nat_beq c b'\\'
    then codes "%5C"
    else c ∷ []

replace_text-append :
    (old : ℕ) (new s t : Text)
    → replace_text old new (s ++ t) ≡ replace_text old new s ++ replace_text old new t
unfolding replace_text
replace_text-append old new [] t = refl
replace_text-append old new (c ∷ s) t = rw (replace_text-append old new s t) (
    sym (
      append_assoc (if nat_beq c old then new else c ∷ []) (replace_text old new s)
        (replace_text old new t)))

escape_one :
    (c : ℕ)
    → replace_text b'\\'
        (codes "%5C")
        (replace_text b'/' (codes "%2F") (replace_text b'%' (codes "%25") (c ∷ [])))
      ≡ escape_char c
unfolding replace_text escape_char
escape_one c = ground arith

backup_filename-nil : backup_filename [] ≡ []
unfolding backup_filename replace_text
backup_filename-nil = refl

backup_filename-cons :
    (c : ℕ) (path : Text) → backup_filename (c ∷ path) ≡ escape_char c ++ backup_filename path
unfolding backup_filename
backup_filename-cons c path =
    let slashes = replace_text b'/' (codes "%2F") in
    let backslashes = replace_text b'\\' (codes "%5C") in
    let percents = replace_text b'%' (codes "%25") in
    backslashes (slashes (percents (c ∷ path)))
    ≡⟨ ap (λ t. backslashes (slashes t)) (replace_text-append b'%' (codes "%25") (c ∷ []) path) ⟩
      backslashes (slashes (percents (c ∷ []) ++ percents path))
    ≡⟨ ap backslashes (replace_text-append b'/' (codes "%2F") (percents (c ∷ [])) (percents path)) ⟩
      backslashes (slashes (percents (c ∷ [])) ++ slashes (percents path))
    ≡⟨ replace_text-append b'\\' (codes "%5C") (slashes (percents (c ∷ [])))
        (slashes (percents path)) ⟩
      backslashes (slashes (percents (c ∷ []))) ++ backslashes (slashes (percents path))
    ≡⟨ ap (λ t. t ++ backslashes (slashes (percents path))) (escape_one c) ⟩
      escape_char c ++ backslashes (slashes (percents path)) ∎

escape_char-cancel :
    (c d : ℕ) (s t : Text) → escape_char c ++ s ≡ escape_char d ++ t → (c ≡ d) × (s ≡ t)
unfolding escape_char
escape_char-cancel c d s t e = ground arith

escape_char-ne-nil : (c : ℕ) (s : Text) → escape_char c ++ s ≢ []
unfolding escape_char
escape_char-ne-nil c s = ground arith

backup_filename_injective : (p q : Text) → backup_filename p ≡ backup_filename q → p ≡ q
backup_filename_injective [] [] e = refl
backup_filename_injective [] (d ∷ q) e = absurd (
    escape_char-ne-nil d (backup_filename q)
      (sym (backup_filename-cons d q) ∙ sym e ∙ backup_filename-nil))
backup_filename_injective (c ∷ p) [] e = absurd (
    escape_char-ne-nil c (backup_filename p)
      (sym (backup_filename-cons c p) ∙ e ∙ backup_filename-nil))
backup_filename_injective (c ∷ p) (d ∷ q) e =
    let (same, rest) =
      escape_char-cancel c d (backup_filename p) (backup_filename q)
        (sym (backup_filename-cons c p) ∙ e ∙ backup_filename-cons d q) in
    cc (same, backup_filename_injective p q rest)

append-cancel : (w s t : Text) → w ++ s ≡ w ++ t → s ≡ t
append-cancel [] s t e = e
append-cancel (c ∷ w) s t e = append-cancel w s t (ground arith)

-- At one time stamp the backups of different paths have different names.
pub backup_name_injective :
    (timestamp p q : Text) → backup_name timestamp p ≡ backup_name timestamp q → p ≡ q
unfolding backup_name
backup_name_injective timestamp p q e = backup_filename_injective p q (
    append-cancel (b'-' ∷ []) (backup_filename p) (backup_filename q)
      (append-cancel timestamp (b'-' ∷ backup_filename p) (b'-' ∷ backup_filename q) e))

module _ (codec : Codec) (timestamp : Text) where
  -- Where no union is defined for the path, the side that the caller names is installed, and the
  -- other side can be read back under the path's backup name.
  pub conflict_keeps_both :
      (mine theirs : Bytes) (path : Text) (keeps : Side) (backups : Backups)
      → contains set_union_paths path ≡ false
      → let (installed, kept) = resolve_conflict codec timestamp mine theirs path keeps backups in
        ◌≡◌ {A = Bytes × Option Bytes}
          (installed, read_backup (backup_name timestamp path) kept)
          (elim keeps [ local ↦ (mine, some theirs) | remote ↦ (theirs, some mine) ])
  unfolding resolve_conflict save_conflict_backup
  conflict_keeps_both mine theirs path local backups h =
      rw (h, read_own_backup (backup_name timestamp path) theirs backups)
  conflict_keeps_both mine theirs path remote backups h =
      rw (h, read_own_backup (backup_name timestamp path) mine backups)

  -- Resolving a conflict of one path never changes what is read under the backup name that
  -- another path has at the same time stamp, whether a union is defined for the path or not.
  pub conflict_keeps_others :
      (mine theirs : Bytes) (path other : Text) (keeps : Side) (backups : Backups)
      → other ≢ path
      → read_backup
          (backup_name timestamp other)
          (resolve_conflict codec timestamp mine theirs path keeps backups).1
        ≡ read_backup (backup_name timestamp other) backups
  unfolding resolve_conflict save_conflict_backup
  conflict_keeps_others mine theirs path other keeps backups ne = ground (
    arith,
    read_backup-write_backup (backup_name timestamp path) (backup_name timestamp other)
        (loser keeps mine theirs) backups,
    text_eq.beq_iff (backup_name timestamp path) (backup_name timestamp other),
    backup_name_injective timestamp path other,
  )
