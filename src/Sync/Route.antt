-- ===== src/Sync/Route.antt =====
-- packages/nauro/src/nauro/sync/pull.py: what one entry of the server's manifest needs. What
-- `os.path.realpath` says of a path, and what stands at it, are parts of `LocalStore`; parts of a
-- path are those of POSIX.
pub mod Laws
use nauro.Base.{
  ℕ, Bool, true, false, not, ◌&&◌, ◌||◌, List, [], ◌∷◌, ◌++◌, Option, none, some, Text, codes,
  nat_beq, all, any, contains, starts_with, split, cut, ◌==◌, if◌then◌else◌, text_eq, nat_eq, Eq,
  Result, ok, err, ◌>>=◌,
}
use nauro.Merge.Paths.{
  PathClass, ordinary, reserved_control, unsafe, PathAdmission, NativeKind, irregular,
  MissingPathPolicy, create_destination, classify_sync_path,
}
use nauro.Merge.Native.{Platform, FileSystem, StoreRoot}
use nauro.Merge.Native.Walk.{admit_native_path}
use nauro.Merge.Skip.{should_skip}
use nauro.Sync.Names.{Unicode, decisions_dir, is_canonical_decision_path}
use nauro.Sync.State.{
  SyncState, Digests, LocalFile, OsError, file_exists, is_tracked, file_changed_locally,
  file_changed_remotely, compare_local_file, LocalComparison, ContentMatch, matches,
}

pub record ManifestEntry : Type 0 where
  pub path : Text
  pub etag : Text

pub record Destination : Type 0 where
  pub inside_store : Bool
  pub inside_decisions : Bool
  pub is_directory : Bool
  pub exists : Bool

pub record LocalStore : Type 0 where
  pub platform : Platform
  pub filesystem : FileSystem
  pub root : StoreRoot
  pub unicode : Unicode
  pub digests : Digests
  pub resolve_destination : Text → Destination
  pub file_at : Text → LocalFile

pub data Route : Type 0 where
  ignore unusable refuse gate install adopt conflict : Route

pub record Routing : Type 0 where
  pub route : Route
  pub local_sha256 : Text
  pub decision_domain : Bool

abbrev pub routed : Route → Bool → Routing
routed route domain = record { route = route; local_sha256 = []; decision_domain = domain }

abbrev head_is_decisions : (Text → Text) → Text × Option Text → Bool
head_is_decisions casefold (head, none) = false
head_is_decisions casefold (head, some name) = casefold head == decisions_dir

unfoldable pub is_decision_path : (Text → Text) → Text → Bool
is_decision_path casefold rel = head_is_decisions casefold (cut b'/' rel)

abbrev name_after : Text × Option Text → Text
name_after (head, none) = []
name_after (head, some name) = name

unfoldable pub decision_name : Text → Text
decision_name rel = name_after (cut b'/' rel)

abbrev is_snapshot : Text × Option Text → Bool
is_snapshot (head, none) = false
is_snapshot (head, some tail) =
    not (tail == [])
    && head == codes "snapshots"
    && all (λ part. not (contains ([] ∷ codes "." ∷ codes ".." ∷ []) part)) (split b'/' tail)

unfoldable pub is_canonical_snapshot_path : Text → Bool
is_canonical_snapshot_path rel = is_snapshot (cut b'/' rel)

unfoldable pub needs_decision_gate : LocalStore → Text → Destination → SyncState → Bool
needs_decision_gate store rel destination state =
    if not (is_decision_path store.unicode.casefold rel || destination.inside_decisions)
    then false
    else if not (is_canonical_decision_path store.unicode rel)
    then true
    else not (is_tracked state rel) || not destination.exists

pub data Admitted : Type 0 where
  refused : PathClass → Admitted
  admitted : PathAdmission → Admitted

abbrev is_irregular_kind : Option NativeKind → Bool
is_irregular_kind (some irregular) = true
is_irregular_kind _ = false

abbrev native_admitted : PathAdmission → PathClass → Admitted
native_admitted admission reserved_control = refused reserved_control
native_admitted admission unsafe = refused unsafe
native_admitted admission ordinary =
    if is_irregular_kind admission.native_kind then refused unsafe else admitted admission

abbrev lexically_admitted : LocalStore → Text → PathClass → Admitted
lexically_admitted store rel reserved_control = refused reserved_control
lexically_admitted store rel unsafe = refused unsafe
lexically_admitted store rel ordinary =
    let admission =
      admit_native_path store.platform store.filesystem store.root create_destination rel in
    native_admitted admission admission.path_class

unfoldable pub destination_admitted : LocalStore → Text → Admitted
destination_admitted store rel =
    lexically_admitted store rel (classify_sync_path store.platform.casefold rel).path_class

abbrev pub adopts : ContentMatch → Bool
adopts matches = true
adopts _ = false

abbrev pub route_changed : Bool → Bool → Result OsError Routing
route_changed domain changed = ok (routed (if changed then conflict else install) domain)

abbrev pub route_compared :
    LocalStore → ManifestEntry → SyncState → Bool → LocalComparison → Result OsError Routing
route_compared store entry state domain comparison =
    if adopts comparison.content_match
    then ok (record { route = adopt; local_sha256 = comparison.sha256; decision_domain = domain })
    else file_changed_locally store.digests (store.file_at entry.path) entry.path state
      >>= route_changed domain

-- once the local file is there and its ETag is not the server's
abbrev pub route_present : LocalStore → ManifestEntry → SyncState → Bool → Result OsError Routing
route_present store entry state domain =
    compare_local_file store.digests (store.file_at entry.path) entry.etag
    >>= route_compared store entry state domain

-- an entry below the store that is neither skipped nor a snapshot
unfoldable pub route_destination :
    LocalStore → ManifestEntry → SyncState → Destination → Bool → Result OsError Routing
route_destination store entry state destination domain =
    let local_exists = file_exists (store.file_at entry.path) in
    if local_exists && not (file_changed_remotely entry.etag entry.path state)
    then ok (routed ignore domain)
    else if needs_decision_gate store entry.path destination state
    then ok (routed gate true)
    else if destination.is_directory
    then ok (routed unusable domain)
    else if not local_exists
    then ok (routed install domain)
    else route_present store entry state domain

unfoldable pub route_admitted :
    LocalStore → ManifestEntry → SyncState → Bool → Result OsError Routing
route_admitted store entry state decisions_usable =
    let destination = store.resolve_destination entry.path in
    let domain =
      is_decision_path store.unicode.casefold entry.path || destination.inside_decisions in
    if domain && not decisions_usable
    then ok (routed refuse true)
    else if not destination.inside_store
    then ok (routed unusable domain)
    else if is_canonical_snapshot_path entry.path
    then ok (routed ignore false)
    else route_destination store entry state destination domain

abbrev pub is_ordinary : PathClass → Bool
is_ordinary ordinary = true
is_ordinary _ = false

abbrev pub route_by_admission :
    LocalStore → ManifestEntry → SyncState → Bool → Admitted → Result OsError Routing
route_by_admission store entry state decisions_usable (refused reserved_control) =
    ok (routed ignore false)
route_by_admission store entry state decisions_usable (refused _) =
    let domain = is_decision_path store.unicode.casefold entry.path in
    let sound = is_ordinary (classify_sync_path store.platform.casefold entry.path).path_class in
    if domain && not decisions_usable && sound
    then ok (routed refuse true)
    else ok (routed unusable domain)
route_by_admission store entry state decisions_usable (admitted admission) =
    route_admitted store entry state decisions_usable

unfoldable pub route_entry : LocalStore → ManifestEntry → SyncState → Bool → Result OsError Routing
route_entry store entry state decisions_usable =
    if should_skip store.platform.casefold entry.path
    then ok (routed ignore false)
    else if contains (split b'/' entry.path) (codes "..") || starts_with (codes "/") entry.path
    then ok (routed unusable false)
    else route_by_admission store entry state decisions_usable
        (destination_admitted store entry.path)
