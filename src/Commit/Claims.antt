-- ===== src/Commit/Claims.antt =====
-- packages/nauro-core/src/nauro_core/operations/_commit_contract.py: probes, observations and
-- intents, and `validate_observation`. `normalize_title` and `compute_hash` are those of
-- packages/nauro-core/src/nauro_core/validation.py; `str.lower` and SHA-256 of the encoded text are
-- parameters.
use nauro.Base.{
  ℕ, ◌≡◌, ◌↔◌, arith, Bool, true, false, ◌&&◌, not, List, [], ◌∷◌, ◌++◌, Option, Text, words, join,
  is_space, strip_by, nat_beq, ◌==◌, if◌then◌else◌, text_eq, Eq, Result, ok, err,
}

module _ (lower : Text → Text) where
  unfoldable pub normalize_title : Text → Text
  normalize_title title = join b' ' (words (lower title))

  -- `_validate_normalized_title`
  unfoldable pub is_normalized_title : Text → Bool
  is_normalized_title value = not (value == []) && normalize_title value == value

  unfoldable pub compute_hash : (Text → Text) → Text → Text → Text
  compute_hash sha256 title rationale =
      sha256 (lower (strip_by is_space title) ++ b'|' ∷ lower (strip_by is_space rationale))

pub data ClaimProbe : Type 0 where
  absent_title : Text → ClaimProbe
  owned_title : Text → ℕ → ClaimProbe
  absent_content : Text → ClaimProbe

pub data UnavailableReason : Type 0 where
  reserved recovery_required : UnavailableReason

pub data ClaimObservation : Type 0 where
  absent_title : Text → ClaimObservation
  committed_title : Text → ℕ → ClaimObservation
  unavailable_title : Text → UnavailableReason → ClaimObservation
  absent_content : Text → ClaimObservation
  committed_content : Text → ClaimObservation
  unavailable_content : Text → UnavailableReason → ClaimObservation

pub data IntentKind : Type 0 where
  acquire_new_title hold_owned_title acquire_title_transfer acquire_new_content_hash : IntentKind
  commit_title_owner retain_title_owner release_title_owner transfer_title_owner : IntentKind
  commit_content_hash : IntentKind

pub record ClaimIntent : Type 0 where
  pub kind : IntentKind
  pub normalized_title : Option Text
  pub content_hash : Option Text
  pub owner_decision_number : Option ℕ
  pub from_owner_decision_number : Option ℕ
  pub to_owner_decision_number : Option ℕ

pub record ClaimIntents : Type 0 where
  pub entry : List ClaimIntent
  pub publication : List ClaimIntent

-- The errors of a plan's claims.
pub data ClaimError : Type 0 where
  missing_observation unexpected_observation duplicate_observation : ClaimError
  malformed_observation mismatched_observation claim_unavailable : ClaimError
  title_conflict content_conflict : ClaimError

-- the first part of a claim's key: `"title"` or `"content"`
pub data KeyKind : Type 0 where
  title content : KeyKind

abbrev pub kind_beq : KeyKind → KeyKind → Bool
kind_beq title title = true
kind_beq content content = true
kind_beq _ _ = false

abbrev pub ClaimKey : Type 0
ClaimKey = KeyKind × Text

unfoldable pub probe_key : ClaimProbe → ClaimKey
probe_key (ClaimProbe.absent_title t) = (title, t)
probe_key (owned_title t owner) = (title, t)
probe_key (ClaimProbe.absent_content h) = (content, h)

unfoldable pub observation_key : ClaimObservation → ClaimKey
observation_key (ClaimObservation.absent_title t) = (title, t)
observation_key (committed_title t owner) = (title, t)
observation_key (unavailable_title t why) = (title, t)
observation_key (ClaimObservation.absent_content h) = (content, h)
observation_key (committed_content h) = (content, h)
observation_key (unavailable_content h why) = (content, h)

unfoldable pub validate_observation : ClaimProbe → ClaimObservation → Result ClaimError (Unit {0})
validate_observation probe (unavailable_title t why) = err claim_unavailable
validate_observation probe (unavailable_content h why) = err claim_unavailable
validate_observation (ClaimProbe.absent_title t) (ClaimObservation.absent_title u) = ok tt
validate_observation (ClaimProbe.absent_title t) (committed_title u owner) = err title_conflict
validate_observation (ClaimProbe.absent_title t) _ = err mismatched_observation
validate_observation (owned_title t expected) (committed_title u owner) =
    if nat_beq owner expected then ok tt else err mismatched_observation
validate_observation (owned_title t expected) _ = err mismatched_observation
validate_observation (ClaimProbe.absent_content h) (ClaimObservation.absent_content g) = ok tt
validate_observation (ClaimProbe.absent_content h) (committed_content g) = err content_conflict
validate_observation (ClaimProbe.absent_content h) _ = err mismatched_observation

pub key_beq : ClaimKey → ClaimKey → Bool
key_beq (k, t) (j, u) = kind_beq k j && t == u

pub key_beq_iff : (a b : ClaimKey) → (key_beq a b ≡ true) ↔ (a ≡ b)
unfolding key_beq
key_beq_iff (title, t) (title, u) = ground (arith, text_eq.beq_iff t u)
key_beq_iff (title, t) (content, u) = ground arith
key_beq_iff (content, t) (title, u) = ground arith
key_beq_iff (content, t) (content, u) = ground (arith, text_eq.beq_iff t u)

instance unfoldable pub key_eq : Eq ClaimKey
unfolding key_beq
key_eq = record { beq = key_beq; beq_iff = key_beq_iff }
