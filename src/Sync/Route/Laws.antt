-- ===== src/Sync/Route/Laws.antt =====
-- When a manifest entry may replace a local file: packages/nauro/src/nauro/sync/pull.py.
use nauro.Base.{
  ◌≡◌, refl, Bool, true, false, not, ◌&&◌, ◌||◌, Option, none, some, Text, arith, if◌then◌else◌,
  text_eq, nat_eq, Result, ok, err, ◌>>=◌, contains, codes, split, starts_with,
}
use nauro.Merge.Paths.{PathAdmission, ordinary, reserved_control, unsafe}
use nauro.Merge.Skip.{should_skip}
use nauro.Sync.State.{
  SyncState, FileState, find_state, LocalFile, absent, unreadable, holds, OsError,
  compare_local_file, file_changed_locally, file_changed_remotely, changed_since, file_exists,
}
use nauro.Sync.Route.{
  ManifestEntry, Destination, LocalStore, Route, unusable, refuse, install, Routing,
  needs_decision_gate, Admitted, admitted, refused, destination_admitted, route_entry,
  route_admitted, route_destination, route_present, route_by_admission, is_canonical_snapshot_path,
  routed, adopts, is_decision_path, route_compared, route_changed,
}

abbrev pub is_install : Route → Bool
is_install install = true
is_install _ = false

-- nothing that the last sync did not see would be lost: there is no file, or it holds what was synced
abbrev pub Unedited : LocalStore → SyncState → Text → LocalFile → Type 0
Unedited store state path absent = Unit
Unedited store state path unreadable = true ≡ false
Unedited store state path (holds content) =
    (fs : FileState) × (find_state state.files path ≡ some fs)
    × (store.digests.sha256 content ≡ fs.local_sha256)

module _ (store : LocalStore) (entry : ManifestEntry) (state : SyncState) where
  unchanged-Unedited :
      (content : Text) (o : Option FileState)
      → find_state state.files entry.path ≡ o
      → changed_since store.digests content o ≡ false
      → Unedited store state entry.path (holds content)
  unchanged-Unedited content none e h = cc
  unchanged-Unedited content (some fs) e h = (fs, e, (text_eq.beq_iff _ _).0 (ground arith))

  changed-Unedited :
      (file : LocalFile)
      → file_exists file ≡ true
      → file_changed_locally store.digests file entry.path state ≡ ok false
      → Unedited store state entry.path file
  unfolding file_changed_locally
  changed-Unedited absent x h = cc
  changed-Unedited unreadable x h = cc
  changed-Unedited (holds content) x h =
      unchanged-Unedited content (find_state state.files entry.path) refl (ground arith)

-- what holds when a result is to install an entry
abbrev Guards : Type 0 → Result OsError Routing → Type 0
Guards G m = (r : Routing) → m ≡ ok r → is_install r.route ≡ true → G

module _ {G : Type 0} where
  ok_Guards : (route : Routing) → is_install route.route ≡ false → Guards G (ok route)
  ok_Guards route h r e i = ground arith

  err_Guards : (e : OsError) → Guards G (err e)
  err_Guards e r h i = cc

  if_Guards :
      (b : Bool) (m n : Result OsError Routing)
      → (b ≡ true → Guards G m)
      → (b ≡ false → Guards G n)
      → Guards G (if b then m else n)
  if_Guards true m n f g = f refl
  if_Guards false m n f g = g refl

  bind_Guards :
      {A : Type 0} (m : Result OsError A) (f : A → Result OsError Routing)
      → ((a : A) → m ≡ ok a → Guards G (f a))
      → Guards G (m >>= f)
  bind_Guards (ok a) f g = g a refl
  bind_Guards (err e) f g = err_Guards e

-- What holds of an entry that is to be installed.
pub record Installable (store : LocalStore) (entry : ManifestEntry) (state : SyncState)
    : Type 0 where
  pub admission : (a : PathAdmission) × (destination_admitted store entry.path ≡ admitted a)
  pub inside : (store.resolve_destination entry.path).inside_store ≡ true
  pub no_directory : (store.resolve_destination entry.path).is_directory ≡ false
  pub ungated :
      needs_decision_gate store entry.path (store.resolve_destination entry.path) state ≡ false
  pub unedited : Unedited store state entry.path (store.file_at entry.path)

module _ (store : LocalStore) (entry : ManifestEntry) (state : SyncState) where
  route_changed-Guards :
      (domain : Bool)
      → file_exists (store.file_at entry.path) ≡ true
      → (changed : Bool)
      → file_changed_locally store.digests (store.file_at entry.path) entry.path state ≡ ok changed
      → Guards
          (Unedited store state entry.path (store.file_at entry.path))
          (route_changed domain changed)
  route_changed-Guards domain x true e = ok_Guards _ refl
  route_changed-Guards domain x false e =
      λ r k i. changed-Unedited store entry state (store.file_at entry.path) x e

  route_present-Guards :
      (domain : Bool)
      → file_exists (store.file_at entry.path) ≡ true
      → Guards
          (Unedited store state entry.path (store.file_at entry.path))
          (route_present store entry state domain)
  route_present-Guards domain x =
      let changed_locally =
        file_changed_locally store.digests (store.file_at entry.path) entry.path state in
      bind_Guards (compare_local_file store.digests (store.file_at entry.path) entry.etag)
        (route_compared store entry state domain)
        (λ comparison e.
          if_Guards (adopts comparison.content_match) _ _ (λ q. ok_Guards _ refl)
            (λ q.
              bind_Guards changed_locally (route_changed domain) (route_changed-Guards domain x)))

  absent-Unedited :
      (file : LocalFile) → file_exists file ≡ false → Unedited store state entry.path file
  absent-Unedited absent x = tt
  absent-Unedited unreadable x = cc
  absent-Unedited (holds content) x = cc

  route_destination-Guards :
      (destination : Destination) (domain : Bool)
      → Guards
          ((needs_decision_gate store entry.path destination state ≡ false)
            × (destination.is_directory ≡ false)
            × Unedited store state entry.path (store.file_at entry.path))
          (route_destination store entry state destination domain)
  unfolding route_destination
  route_destination-Guards destination domain =
      let there = file_exists (store.file_at entry.path) in
      if_Guards (there && not (file_changed_remotely entry.etag entry.path state)) _ _
        (λ q. ok_Guards _ refl)
        (λ q.
          if_Guards (needs_decision_gate store entry.path destination state) _ _
            (λ gated. ok_Guards _ refl)
            (λ ungated.
              if_Guards destination.is_directory _ _ (λ d. ok_Guards _ refl)
                (λ no_directory.
                  if_Guards (not there) _ _
                    (λ x r e i. (
                      ungated,
                      no_directory,
                      absent-Unedited (store.file_at entry.path) (ground arith),
                    ))
                    (λ x r e i.
                      (ungated, no_directory, route_present-Guards domain (ground arith) r e i)))))

  route_admitted-Guards :
      (a : PathAdmission) (usable : Bool)
      → destination_admitted store entry.path ≡ admitted a
      → Guards (Installable store entry state) (route_admitted store entry state usable)
  unfolding route_admitted
  route_admitted-Guards a usable h =
      let destination = store.resolve_destination entry.path in
      let domain =
        is_decision_path store.unicode.casefold entry.path || destination.inside_decisions in
      if_Guards (domain && not usable) _ _ (λ q. ok_Guards _ refl)
        (λ q.
          if_Guards (not destination.inside_store) _ _ (λ outside. ok_Guards _ refl)
            (λ inside.
              if_Guards (is_canonical_snapshot_path entry.path) _ _ (λ snapshot. ok_Guards _ refl)
                (λ snapshot r e i.
                  let (ungated, no_directory, unedited) =
                    route_destination-Guards destination domain r e i in
                  record {
                    admission = (a, h);
                    inside = ground arith;
                    no_directory = no_directory;
                    ungated = ungated;
                    unedited = unedited;
                  })))

  -- a row that is refused is not installed
  refused_Guards :
      (unready : Bool) (domain : Bool)
      → Guards
          (Installable store entry state)
          (if unready then ok (routed refuse true) else ok (routed unusable domain))
  refused_Guards true domain = ok_Guards _ refl
  refused_Guards false domain = ok_Guards _ refl

  route_by_admission-Guards :
      (usable : Bool) (o : Admitted)
      → destination_admitted store entry.path ≡ o
      → Guards (Installable store entry state) (route_by_admission store entry state usable o)
  route_by_admission-Guards usable (refused ordinary) h = refused_Guards _ _
  route_by_admission-Guards usable (refused reserved_control) h = ok_Guards _ refl
  route_by_admission-Guards usable (refused unsafe) h = refused_Guards _ _
  route_by_admission-Guards usable (admitted a) h = route_admitted-Guards a usable h

-- An entry that is routed to installation (not to the decisions, to adoption or to the conflicts) has a
-- destination that is admitted, lies in the store and is no directory; it is none that the decision
-- gate covers; and there is no local file, or its bytes are those that the last sync recorded.
pub route_install-Installable :
    (store : LocalStore) (entry : ManifestEntry) (state : SyncState) (decisions_usable : Bool)
    (r : Routing)
    → route_entry store entry state decisions_usable ≡ ok r
    → is_install r.route ≡ true
    → Installable store entry state
unfolding route_entry
route_install-Installable store entry state usable =
    if_Guards (should_skip store.platform.casefold entry.path) _ _ (λ q. ok_Guards _ refl)
      (λ q.
        if_Guards
          (contains (split b'/' entry.path) (codes "..") || starts_with (codes "/") entry.path) _ _
          (λ q2. ok_Guards _ refl)
          (λ q2.
            route_by_admission-Guards store entry state usable
              (destination_admitted store entry.path) refl))
