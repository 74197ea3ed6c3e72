-- ===== src/Sync/Pull/Triage.antt =====
-- packages/nauro/src/nauro/sync/pull.py: `_triage`, which sorts the entries of the server's manifest by the
-- treatment each one needs.
use nauro.Base.{
  ℕ, suc, Bool, false, not, List, [], ◌∷◌, ◌++◌, Option, none, some, Text, if◌then◌else◌, Result,
  ok, ◌>>=◌,
}
use nauro.Sync.Names.{extract_decision_number}
use nauro.Sync.Corpus.{DecisionCorpus, holders, is_nil}
use nauro.Sync.State.{SyncState, OsError}
use nauro.Sync.Route.{
  LocalStore, ManifestEntry, Route, ignore, unusable, refuse, gate, install, adopt, conflict,
  Routing, route_entry, decision_name,
}

pub record RemoteFile : Type 0 where
  pub rel : Text
  pub etag : Text
  pub decision_domain : Bool

pub record AdoptedFile : Type 0 where
  pub rel : Text
  pub etag : Text
  pub local_sha256 : Text
  pub decision_domain : Bool

-- `contested` goes before `decisions` once all entries are sorted
pub record Worklists : Type 0 where
  pub contested : List RemoteFile
  pub decisions : List RemoteFile
  pub pulls : List RemoteFile
  pub conflicts : List RemoteFile
  pub adopted : List AdoptedFile
  pub skipped_permanent : ℕ
  pub refused_decisions : ℕ
  pub ignored_decisions : ℕ

abbrev pub empty_worklists : Worklists
empty_worklists = record {
  contested = [];
  decisions = [];
  pulls = [];
  conflicts = [];
  adopted = [];
  skipped_permanent = 0;
  refused_decisions = 0;
  ignored_decisions = 0;
}

abbrev pub remote_file : ManifestEntry → Routing → RemoteFile
remote_file entry routing = record {
  rel = entry.path;
  etag = entry.etag;
  decision_domain = routing.decision_domain;
}

abbrev pub adopted_file : ManifestEntry → Routing → AdoptedFile
adopted_file entry routing = record {
  rel = entry.path;
  etag = entry.etag;
  local_sha256 = routing.local_sha256;
  decision_domain = routing.decision_domain;
}

abbrev is_held : DecisionCorpus → Option ℕ → Bool
is_held listing none = false
is_held listing (some number) = not (is_nil (holders listing number))

-- `work.decisions[:0] = contested`
abbrev pub contested_first : Worklists → Worklists
contested_first w = record w { contested = []; decisions = w.contested ++ w.decisions }

module _ (store : LocalStore) (state : SyncState) (decisions_usable : Bool)
    (listing : DecisionCorpus) where
  -- whether a local decision file claims the number of a gated entry
  unfoldable pub is_claimed : ManifestEntry → Bool
  is_claimed entry =
      is_held listing (extract_decision_number store.unicode (decision_name entry.path))

  abbrev pub sort_entry : ManifestEntry → Routing → Route → Worklists → Worklists
  sort_entry entry routing ignore w = record w {
    ignored_decisions =
        if routing.decision_domain then suc w.ignored_decisions else w.ignored_decisions;
  }
  sort_entry entry routing refuse w = record w { refused_decisions = suc w.refused_decisions }
  sort_entry entry routing unusable w = record w { skipped_permanent = suc w.skipped_permanent }
  sort_entry entry routing adopt w = record w { adopted = adopted_file entry routing ∷ w.adopted }
  sort_entry entry routing gate w =
      let item = remote_file entry routing in
      if is_claimed entry
      then record w { contested = item ∷ w.contested }
      else record w { decisions = item ∷ w.decisions }
  sort_entry entry routing install w = record w { pulls = remote_file entry routing ∷ w.pulls }
  sort_entry entry routing conflict w = record w {
    conflicts = remote_file entry routing ∷ w.conflicts;
  }

  unfoldable pub sort_entries : List ManifestEntry → Result OsError Worklists
  sort_entries [] = ok empty_worklists
  sort_entries (entry ∷ entries) =
      let rest = sort_entries entries in
      route_entry store entry state decisions_usable >>= λ routing.
      rest >>= λ w. ok (sort_entry entry routing routing.route w)

  -- `_triage`
  unfoldable pub triage : List ManifestEntry → Result OsError Worklists
  triage entries = sort_entries entries >>= λ w. ok (contested_first w)

unfoldable pub all_files : Worklists → List RemoteFile
all_files w = w.decisions ++ w.pulls ++ w.conflicts
