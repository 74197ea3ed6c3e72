-- ===== src/Sync/Pull/Sorted.antt =====
-- Where `_triage` puts an entry: packages/nauro/src/nauro/sync/pull.py.
use nauro.Base.{
  ◌≡◌, refl, sym, ap, ◌∙◌, Bool, true, false, not, ◌&&◌, List, [], ◌∷◌, ◌++◌, map, length, select,
  Bool-cases, inl, inr, Result, ok, ◌>>=◌, >>=-eq-ok,
}
use nauro.Sync.Corpus.{DecisionCorpus}
use nauro.Sync.State.{SyncState, OsError}
use nauro.Sync.Route.{
  LocalStore, ManifestEntry, Route, ignore, unusable, refuse, gate, install, adopt, conflict,
  Routing, route_entry,
}
use nauro.Sync.Route.Laws.{is_install}
use nauro.Sync.Collisions.Renumber.{ok_inj}
use nauro.Sync.Pull.Triage.{
  RemoteFile, Worklists, remote_file, contested_first, adopted_file, is_claimed, sort_entry,
  sort_entries, triage,
}

abbrev pub Routed : Type 0
Routed = ManifestEntry × Routing

abbrev is_ignore : Route → Bool
is_ignore ignore = true
is_ignore _ = false

abbrev is_gate : Route → Bool
is_gate gate = true
is_gate _ = false

abbrev is_conflict : Route → Bool
is_conflict conflict = true
is_conflict _ = false

abbrev is_adopt : Route → Bool
is_adopt adopt = true
is_adopt _ = false

abbrev is_unusable : Route → Bool
is_unusable unusable = true
is_unusable _ = false

abbrev is_refuse : Route → Bool
is_refuse refuse = true
is_refuse _ = false

-- the entries that a test of the route picks, with what was found of them
abbrev pub picked : (Routed → Bool) → List Routed → List RemoteFile
picked p routed = map (λ x. remote_file x.0 x.1) (select p routed)

-- every entry with the route that it is given
unfoldable pub route_all :
    LocalStore → SyncState → Bool → List ManifestEntry → Result OsError (List Routed)
route_all store state usable [] = ok []
route_all store state usable (entry ∷ entries) =
    let rest = route_all store state usable entries in
    route_entry store entry state usable >>= λ routing.
    rest >>= λ routed. ok ((entry, routing) ∷ routed)

abbrev pub ignored_decision : Routed → Bool
ignored_decision x = is_ignore x.1.route && x.1.decision_domain

module _ (store : LocalStore) (state : SyncState) (usable : Bool) (listing : DecisionCorpus) where
  abbrev pub contested_gate : Routed → Bool
  contested_gate x = is_gate x.1.route && is_claimed store state usable listing x.0

  abbrev pub free_gate : Routed → Bool
  free_gate x = is_gate x.1.route && not (is_claimed store state usable listing x.0)

  -- the worklists of entries whose routes are known
  unfoldable pub sorted : List Routed → Worklists
  sorted routed = record {
    contested = picked contested_gate routed;
    decisions = picked free_gate routed;
    pulls = picked (λ x. is_install x.1.route) routed;
    conflicts = picked (λ x. is_conflict x.1.route) routed;
    adopted = map (λ x. adopted_file x.0 x.1) (select (λ x. is_adopt x.1.route) routed);
    skipped_permanent = length (select (λ x. is_unusable x.1.route) routed);
    refused_decisions = length (select (λ x. is_refuse x.1.route) routed);
    ignored_decisions = length (select ignored_decision routed);
  }

  sort_entry-eq :
      (entry : ManifestEntry) (routing : Routing) (o : Route) (routed : List Routed)
      → routing.route ≡ o
      → sort_entry store state usable listing entry routing o (sorted routed)
        ≡ sorted ((entry, routing) ∷ routed)
  unfolding sorted select
  sort_entry-eq entry routing install routed h = rw h refl
  sort_entry-eq entry routing conflict routed h = rw h refl
  sort_entry-eq entry routing adopt routed h = rw h refl
  sort_entry-eq entry routing unusable routed h = rw h refl
  sort_entry-eq entry routing refuse routed h = rw h refl
  sort_entry-eq entry routing ignore routed h = elim (Bool-cases routing.decision_domain) [
    | inl e ↦ rw h (rw e refl)
    | inr e ↦ rw h (rw e refl)
  ]
  sort_entry-eq entry routing gate routed h =
      elim (Bool-cases (is_claimed store state usable listing entry)) [
        | inl e ↦ rw h (rw e refl)
        | inr e ↦ rw h (rw e refl)
      ]

  sort_entries-sorted :
      (entries : List ManifestEntry) (w : Worklists)
      → sort_entries store state usable listing entries ≡ ok w
      → (routed : List Routed) × (route_all store state usable entries ≡ ok routed)
        × (w ≡ sorted routed)
  unfolding sort_entries route_all
  sort_entries-sorted [] w h = ([], refl, sym (ok_inj h) ∙ unfold sorted select in refl)
  sort_entries-sorted (entry ∷ entries) w h =
      let (routing, e, k) = >>=-eq-ok (route_entry store entry state usable) _ h in
      let (rest, e2, k2) = >>=-eq-ok (sort_entries store state usable listing entries) _ k in
      let (routed, q, same) = sort_entries-sorted entries rest e2 in
      (
        (entry, routing) ∷ routed,
        rw e (rw q refl),
        sym (ok_inj k2)
            ∙ ap (sort_entry store state usable listing entry routing routing.route) same
            ∙ sort_entry-eq entry routing routing.route routed refl,
      )

-- Sorting the manifest gives, in its order, the entries of each route: those to write, those in conflict, those
-- to adopt, and the gated ones, the ones whose number is held locally before the others. The entries
-- that are skipped or refused, and the ignored decisions, are counted.
pub triage-sorted :
    (store : LocalStore) (state : SyncState) (usable : Bool) (listing : DecisionCorpus)
    (entries : List ManifestEntry) (w : Worklists)
    → triage store state usable listing entries ≡ ok w
    → (routed : List Routed) × (route_all store state usable entries ≡ ok routed)
      × (w ≡ record (sorted store state usable listing routed) {
        contested = [];
        decisions =
            picked (contested_gate store state usable listing) routed
            ++ picked (free_gate store state usable listing) routed;
      })
unfolding triage
triage-sorted store state usable listing entries w h =
    let (collected, e, k) = >>=-eq-ok (sort_entries store state usable listing entries) _ h in
    let (routed, q, same) = sort_entries-sorted store state usable listing entries collected e in
    (routed, q, sym (ok_inj k) ∙ ap contested_first same ∙ unfold sorted in refl)
