-- ===== src/Merge/Native.antt =====
-- packages/nauro/src/nauro/sync/merge.py: what the admission of a native path asks of the file
-- system, and how it reads a raw path and the target of a link. The file system is a parameter:
-- a snapshot that answers `os.lstat`, `os.readlink` and the Windows long-name lookup.
pub mod Walk
pub mod Inside
pub mod Confined
use nauro.Base.{
  ℕ, suc, ◌+◌, ◌-◌, ◌≡◌, refl, Bool, true, false, not, ◌&&◌, ◌||◌, List, [], ◌∷◌, ◌++◌, map, Option,
  none, some, Text, codes, starts_with, ends_with, split, replace, contains, nat_beq, leb, take,
  drop, length, list_beq, nonempty, ◌==◌, if◌then◌else◌, text_eq, nat_eq, Eq, Result, ok, err,
}
use nauro.Merge.Paths.{
  UnsafeReason, unsupported_reparse, outside_store, NativeKind, directory, regular_file, irregular,
  slash, backslash, is_device,
}

pub data FileMode : Type 0 where
  link_mode directory_mode regular_mode other_mode : FileMode

-- the fields of `os.stat_result` that the code reads; `reparse` is the attribute's bit
pub record Metadata : Type 0 where
  pub mode : FileMode
  pub reparse : Bool
  pub reparse_tag : Option ℕ
  pub device : ℕ
  pub inode : ℕ

-- A call that finds something, finds nothing (`FileNotFoundError`, or `None` of the long-name
-- lookup), or fails in another way.
pub data Lookup (A : Type 0) : Type 0 where
  found : A → Lookup A
  missing : Lookup A
  failed : Lookup A

-- Native paths are lists of the components below the store's root.
pub record FileSystem : Type 0 where
  pub long_component : List Text → Text → Lookup Text
  pub lstat : List Text → Lookup Metadata
  pub readlink : List Text → Option Text

-- `sys.platform == "win32"`, `str.casefold` and `ntpath.normcase`
pub record Platform : Type 0 where
  pub windows : Bool
  pub casefold : Text → Text
  pub normcase : Text → Text

pub record StoreRoot : Type 0 where
  pub native_anchor : Text
  pub canonical_parts : List Text

unfoldable pub metadata_kind : FileMode → NativeKind
metadata_kind directory_mode = directory
metadata_kind regular_mode = regular_file
metadata_kind _ = irregular

abbrev is_link : FileMode → Bool
is_link link_mode = true
is_link _ = false

-- `_is_link_or_reparse` of packages/nauro/src/nauro/store/replica_control.py
unfoldable pub is_link_or_reparse : Metadata → Bool
is_link_or_reparse metadata = is_link metadata.mode || metadata.reparse

abbrev supported_tag : Option ℕ → Bool
supported_tag none = false
supported_tag (some tag) = nat_beq tag 0xA000000C || nat_beq tag 0xA0000003

unfoldable pub is_supported_link : Metadata → Bool
is_supported_link metadata = is_link metadata.mode || supported_tag metadata.reparse_tag

-- An entry of `pending`; the trailing separator is a part of its own.
pub data Part : Type 0 where
  component : Text → Part
  trailing_separator : Part

abbrev pub ends_with_separator : Text → Bool
ends_with_separator text = ends_with (codes "/") text || ends_with (codes "\\") text

abbrev pub with_trailing : Bool → List Text → List Part
with_trailing trailing parts =
    map component parts ++ (if trailing then trailing_separator ∷ [] else [])

unfoldable pub native_relative_parts : Bool → Text → List Part
native_relative_parts windows raw =
    if windows
    then with_trailing (ends_with_separator raw)
        (nonempty (split backslash (replace slash backslash raw)))
    else with_trailing (ends_with (codes "/") raw) (nonempty (split slash raw))

-- `text.find(sep, start)`, as the number of code points before it
unfoldable pub find_index : ℕ → Text → Option ℕ
find_index sep [] = none
find_index sep (c ∷ s) =
    let rest = find_index sep s in
    if nat_beq c sep then some 0 else elim rest [ none ↦ none | some i ↦ some (suc i) ]

unfoldable pub find_from : ℕ → ℕ → Text → Option ℕ
find_from sep start s = elim (find_index sep (drop start s)) [
  | none ↦ none
  | some i ↦ some (start + i)
]

abbrev upper : ℕ → ℕ
upper c = if leb b'a' c && leb c b'z' then c - 32 else c

abbrev pub cut_at : ℕ → Text → Text × Text
cut_at n s = (take n s, drop n s)

-- the drive of a path that begins with two separators: `\\server\share`
unfoldable pub split_unc : Text → Text × Text
split_unc p =
    let normalized = replace slash backslash p in
    let start = if map upper (take 8 normalized) == codes "\\\\?\\UNC\\" then 8 else 2 in
    elim (find_from backslash start normalized) [
      | none ↦ (p, [])
      | some i ↦ elim (find_from backslash (suc i) normalized) [
        | none ↦ (p, [])
        | some j ↦ cut_at j p
      ]
    ]

-- `ntpath.splitdrive` of Python 3.12
unfoldable pub splitdrive : Text → Text × Text
splitdrive p =
    let normalized = replace slash backslash p in
    if starts_with (codes "\\\\") normalized
    then split_unc p
    else if starts_with (codes "\\") normalized
    then ([], p)
    else if starts_with (codes ":") (drop 1 normalized)
    then cut_at 2 p
    else ([], p)

module _ (platform : Platform) where
  abbrev after_device_prefix : Text → Result UnsafeReason Text
  after_device_prefix remainder =
      if starts_with (codes "volume{") (platform.casefold remainder)
      then err unsupported_reparse
      else if (splitdrive remainder).0 == []
      then err unsupported_reparse
      else ok remainder

  unfoldable pub normalized_windows_target : Text → Result UnsafeReason Text
  normalized_windows_target target =
      let folded = platform.casefold target in
      if starts_with (codes "\\\\?\\unc\\") folded
      then ok (codes "\\\\" ++ drop 8 target)
      else if starts_with (codes "\\??\\unc\\") folded
      then ok (codes "\\\\" ++ drop 8 target)
      else if starts_with (codes "\\\\?\\") folded || starts_with (codes "\\??\\") folded
      then after_device_prefix (drop 4 target)
      else if starts_with (codes "\\\\.\\") folded || starts_with (codes "\\device\\") folded
      then err unsupported_reparse
      else ok target

  -- what is left of an absolute target below the store's root
  unfoldable pub below_root : StoreRoot → List Text → Result UnsafeReason (List Text × Bool)
  below_root root parts =
      let prefix = root.canonical_parts in
      if list_beq (take (length prefix) parts) prefix
      then ok (drop (length prefix) parts, true)
      else err outside_store

  abbrev windows_suffix : StoreRoot → Text → Result UnsafeReason (List Text × Bool)
  windows_suffix root target =
      let (drive, remainder) = splitdrive target in
      let rooted = starts_with (codes "\\") remainder || starts_with (codes "/") remainder in
      if drive == []
      then if rooted
        then err outside_store
        else ok (nonempty (split backslash (replace slash backslash target)), false)
      else if not rooted
      then err outside_store
      else if platform.normcase drive == platform.normcase (splitdrive root.native_anchor).0
      then below_root root (nonempty (split backslash (replace slash backslash remainder)))
      else err outside_store

  -- the parts of a link's target, and whether they count from the root
  unfoldable pub absolute_target_suffix : StoreRoot → Text → Result UnsafeReason (List Text × Bool)
  absolute_target_suffix root target =
      if platform.windows
      then elim (normalized_windows_target target) [
        | err why ↦ err why
        | ok t ↦ windows_suffix root t
      ]
      else if starts_with (codes "/") target
      then below_root root (nonempty (split slash target))
      else ok (nonempty (split slash target), false)
