-- ===== src/Sync/State.antt =====
-- packages/nauro/src/nauro/sync/state.py and packages/nauro/src/nauro/sync/etag.py: what a sync remembers
-- of a file, and what an ETag says of one. Digests come from `hashlib` and are arguments, as are
-- the clock and `str.lower`. `LocalFile` is what stands at a path of the store.
use nauro.Base.{
  Bool, true, false, not, ◌||◌, List, [], ◌∷◌, Option, none, some, Text, codes, nat_beq, length,
  any, contains, strip_by, ◌==◌, if◌then◌else◌, text_eq, nat_eq, Result, ok, err,
}

pub record FileState : Type 0 where
  pub local_sha256 : Text
  pub remote_etag : Text
  pub last_sync : Text

pub record SyncState : Type 0 where
  pub files : List (Text × FileState)
  pub last_full_sync : Text

pub record Digests : Type 0 where
  pub sha256 : Text → Text
  pub md5 : Text → Text
  pub lower : Text → Text

-- nothing, something whose bytes cannot be read, or a file with its bytes
pub data LocalFile : Type 0 where
  absent unreadable : LocalFile
  holds : Text → LocalFile

pub data OsError : Type 0 where
  read_error : OsError

abbrev pub file_exists : LocalFile → Bool
file_exists absent = false
file_exists _ = true

unfoldable pub find_state : List (Text × FileState) → Text → Option FileState
find_state [] path = none
find_state ((listed, fs) ∷ files) path =
    let rest = find_state files path in if listed == path then some fs else rest

-- `relative_path in state.files`
unfoldable pub is_tracked : SyncState → Text → Bool
is_tracked state path = elim (find_state state.files path) [ none ↦ false | some fs ↦ true ]

abbrev pub changed_since : Digests → Text → Option FileState → Bool
changed_since digests content none = true
changed_since digests content (some fs) = not (digests.sha256 content == fs.local_sha256)

unfoldable pub file_changed_locally : Digests → LocalFile → Text → SyncState → Result OsError Bool
file_changed_locally digests absent path state = ok (is_tracked state path)
file_changed_locally digests unreadable path state = err read_error
file_changed_locally digests (holds content) path state =
    ok (changed_since digests content (find_state state.files path))

unfoldable pub file_changed_remotely : Text → Text → SyncState → Bool
file_changed_remotely remote_etag path state = elim (find_state state.files path) [
  | none ↦ true
  | some fs ↦ not (remote_etag == fs.remote_etag)
]

-- `state.files[path] = fs`
unfoldable pub put_state : List (Text × FileState) → Text → FileState → List (Text × FileState)
put_state [] path fs = (path, fs) ∷ []
put_state ((listed, old) ∷ files) path fs =
    let rest = put_state files path fs in
    if listed == path then (listed, fs) ∷ files else (listed, old) ∷ rest

unfoldable pub update_file_state : Text → SyncState → Text → Text → Text → SyncState
update_file_state now state path local_sha256 remote_etag = record state {
  files =
      put_state state.files path
        (record { local_sha256 = local_sha256; remote_etag = remote_etag; last_sync = now });
}

-- ETags

unfoldable pub content_md5 : (Text → Text) → Text → Option Text
content_md5 lower raw_etag =
    let value = lower (strip_by (λ c. nat_beq c b'"') raw_etag) in
    if not (nat_beq (length value) 32)
      || any (λ c. not (contains (codes "0123456789abcdef") c)) value
    then none
    else some value

pub data ContentMatch : Type 0 where
  matches differs unknown : ContentMatch

pub record LocalComparison : Type 0 where
  pub content_match : ContentMatch
  pub sha256 : Text

abbrev comparison : Digests → Text → LocalFile → Result OsError LocalComparison
comparison digests expected (holds content) =
    if digests.md5 content == expected
    then ok (record { content_match = matches; sha256 = digests.sha256 content })
    else ok (record { content_match = differs; sha256 = [] })
comparison digests expected _ = err read_error

unfoldable pub compare_local_file : Digests → LocalFile → Text → Result OsError LocalComparison
compare_local_file digests file raw_etag = elim (content_md5 digests.lower raw_etag) [
  | none ↦ ok (record { content_match = unknown; sha256 = [] })
  | some expected ↦ comparison digests expected file
]
