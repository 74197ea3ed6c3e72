-- ===== src/Commit/Contract.antt =====
-- packages/nauro-core/src/nauro_core/operations/_commit_contract.py: `build_claim_contract`. Of a
-- decision it reads the number, the title and the rationale.
pub mod Laws
use nauro.Base.{
  ℕ, ◌≡◌, ◌≢◌, refl, ap, ◌∙◌, Bool, true, false, List, [], ◌∷◌, ◌++◌, map, Option, none, some, Text,
  codes, ◌==◌, if◌then◌else◌, text_eq, Eq, arith, Bool-cases, inl, inr,
}
use nauro.Commit.Claims.{
  normalize_title, compute_hash, ClaimProbe, owned_title, ClaimIntent, ClaimIntents, IntentKind,
  acquire_new_title, hold_owned_title, acquire_title_transfer, acquire_new_content_hash,
  commit_title_owner, retain_title_owner, release_title_owner, transfer_title_owner,
  commit_content_hash, ClaimKey, KeyKind, title, content, probe_key,
}

pub data Operation : Type 0 where
  add update supersede : Operation

pub record DecisionText : Type 0 where
  pub num : ℕ
  pub title : Text
  pub rationale : Text

abbrev pub owner_intent : IntentKind → Text → ℕ → ClaimIntent
owner_intent kind t owner = record {
  kind = kind;
  normalized_title = some t;
  content_hash = none;
  owner_decision_number = some owner;
  from_owner_decision_number = none;
  to_owner_decision_number = none;
}

abbrev pub transfer_intent : IntentKind → Text → ℕ → ℕ → ClaimIntent
transfer_intent kind t from to = record {
  kind = kind;
  normalized_title = some t;
  content_hash = none;
  owner_decision_number = none;
  from_owner_decision_number = some from;
  to_owner_decision_number = some to;
}

abbrev pub content_intent : IntentKind → Text → ClaimIntent
content_intent kind h = record {
  kind = kind;
  normalized_title = none;
  content_hash = some h;
  owner_decision_number = none;
  from_owner_decision_number = none;
  to_owner_decision_number = none;
}

abbrev pub Contract : Type 0
Contract = List ClaimProbe × ClaimIntents

-- the contract of each operation, over the normalized titles and the content hash
unfoldable pub add_contract : ℕ → Text → Text → Contract
add_contract new_number new_title hash = (
  ClaimProbe.absent_title new_title ∷ ClaimProbe.absent_content hash ∷ [],
  record {
    entry =
        owner_intent acquire_new_title new_title new_number
        ∷ content_intent acquire_new_content_hash hash
        ∷ [];
    publication =
        owner_intent commit_title_owner new_title new_number
        ∷ content_intent commit_content_hash hash
        ∷ [];
  },
)

unfoldable pub update_contract : ℕ → Text → Text → Contract
update_contract target_number old_title hash = (
  owned_title old_title target_number ∷ ClaimProbe.absent_content hash ∷ [],
  record {
    entry =
        owner_intent hold_owned_title old_title target_number
        ∷ content_intent acquire_new_content_hash hash
        ∷ [];
    publication =
        owner_intent retain_title_owner old_title target_number
        ∷ content_intent commit_content_hash hash
        ∷ [];
  },
)

unfoldable pub same_title_contract : ℕ → ℕ → Text → Text → Contract
same_title_contract target_number new_number old_title hash = (
  owned_title old_title target_number ∷ ClaimProbe.absent_content hash ∷ [],
  record {
    entry =
        transfer_intent acquire_title_transfer old_title target_number new_number
        ∷ content_intent acquire_new_content_hash hash
        ∷ [];
    publication =
        transfer_intent transfer_title_owner old_title target_number new_number
        ∷ content_intent commit_content_hash hash
        ∷ [];
  },
)

unfoldable pub new_title_contract : ℕ → ℕ → Text → Text → Text → Contract
new_title_contract target_number new_number old_title new_title hash = (
  owned_title old_title target_number
      ∷ ClaimProbe.absent_title new_title
      ∷ ClaimProbe.absent_content hash
      ∷ [],
  record {
    entry =
        owner_intent hold_owned_title old_title target_number
        ∷ owner_intent acquire_new_title new_title new_number
        ∷ content_intent acquire_new_content_hash hash
        ∷ [];
    publication =
        owner_intent release_title_owner old_title target_number
        ∷ owner_intent commit_title_owner new_title new_number
        ∷ content_intent commit_content_hash hash
        ∷ [];
  },
)

module _ (lower sha256 : Text → Text) where
  abbrev supersede_contract : DecisionText → DecisionText → Text → Contract
  supersede_contract target primary hash =
      let old_title = normalize_title lower target.title in
      let new_title = normalize_title lower primary.title in
      if new_title == old_title
      then same_title_contract target.num primary.num old_title hash
      else new_title_contract target.num primary.num old_title new_title hash

  -- `none` is the failing `assert target is not None`.
  unfoldable pub build_claim_contract :
      Operation → Option DecisionText → DecisionText → Option Contract
  unfolding add_contract update_contract same_title_contract new_title_contract
  build_claim_contract add target primary = some (
      add_contract primary.num (normalize_title lower primary.title)
        (compute_hash lower sha256 primary.title primary.rationale))
  build_claim_contract update none primary = none
  build_claim_contract update (some target) primary = some (
      update_contract target.num (normalize_title lower target.title)
        (compute_hash lower sha256 primary.title primary.rationale))
  build_claim_contract supersede none primary = none
  build_claim_contract supersede (some target) primary = some (
      supersede_contract target primary (compute_hash lower sha256 primary.title primary.rationale))
