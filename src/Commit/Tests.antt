-- ===== src/Commit/Tests.antt =====
-- Runs of the planning of a commit at concrete inputs:
-- packages/nauro-core/src/nauro_core/operations.
use mathlib.Core.List.Permᴰ.{swap}
use nauro.Base.{◌≡◌, refl, List, [], ◌∷◌, Option, none, some, Text, codes, contains, text_eq, ok}
use nauro.Commit.Claims.{
  normalize_title, compute_hash, ClaimProbe, ClaimObservation, ClaimIntents, probe_key, key_eq,
  observation_key, validate_observation,
}
use nauro.Commit.Contract.{add, DecisionText, build_claim_contract, add_contract}
use nauro.Commit.Contract.Laws.{IsAligned, contract-IsAligned}
use nauro.Commit.Finalize.{parse_observations, finalize_judgment_commit, JudgmentCommitPlan}
use nauro.Commit.Finalize.Laws.{IsPlanFor, finalize_sound}
use nauro.Commit.Finalize.Complete.{finalize_complete}

abbrev same : Text → Text
same t = t

abbrev parsed : ClaimObservation → Option ClaimObservation
parsed = some

abbrev written : List ClaimObservation → Text
written observations = codes "plan"

abbrev no_intents : ClaimIntents
no_intents = record { entry = []; publication = [] }

abbrev probes : List ClaimProbe
probes = ClaimProbe.absent_title (codes "t") ∷ ClaimProbe.absent_content (codes "h") ∷ []

abbrev answers : List ClaimObservation
answers =
    ClaimObservation.absent_title (codes "t") ∷ ClaimObservation.absent_content (codes "h") ∷ []

abbrev swapped : List ClaimObservation
swapped =
    ClaimObservation.absent_content (codes "h") ∷ ClaimObservation.absent_title (codes "t") ∷ []

abbrev plan : JudgmentCommitPlan
plan = record {
  validated_claim_observations = answers;
  claim_plan = no_intents;
  plan_record = codes "plan";
}

finalize_complete_example :
    finalize_judgment_commit parsed written probes no_intents swapped ≡ ok plan
unfolding observation_key probe_key validate_observation parse_observations contains key_eq
finalize_complete_example =
    finalize_complete parsed written probes no_intents swapped swapped answers refl (swap refl refl)
      (refl, refl, (refl, refl, tt)) (refl, (refl, tt))

finalize_sound_example : IsPlanFor parsed written probes no_intents plan
finalize_sound_example =
    finalize_sound parsed written probes no_intents swapped plan finalize_complete_example

abbrev old_decision : DecisionText
old_decision = record { num = 3; title = codes "old"; rationale = codes "r" }

abbrev new_decision : DecisionText
new_decision = record { num = 4; title = codes "new"; rationale = codes "s" }

contract-IsAligned_example : IsAligned (
    add_contract 4
      (normalize_title same (codes "new"))
      (compute_hash same same (codes "new") (codes "s")))
unfolding build_claim_contract
contract-IsAligned_example =
    contract-IsAligned same same add none new_decision
      (add_contract 4 (normalize_title same (codes "new"))
        (compute_hash same same (codes "new") (codes "s")))
      refl
