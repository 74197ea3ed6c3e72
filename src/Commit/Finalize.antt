-- ===== src/Commit/Finalize.antt =====
-- packages/nauro-core/src/nauro_core/operations/_commit_finalize.py: `finalize_judgment_commit`. The
-- adapter that reads a raw observation is pydantic's, and the canonical JSON of the plan record is
-- made by `json`: both are parameters. The dictionary of observations is a list in order of insertion.
pub mod Laws
pub mod Complete
use nauro.Base.{
  ℕ, ◌≡◌, Bool, true, false, not, List, [], ◌∷◌, ◌++◌, map, Option, none, some, Text, contains, all,
  ◌==◌, if◌then◌else◌, Eq, Result, ok, err, ◌>>=◌,
}
use nauro.Commit.Claims.{
  ClaimProbe, ClaimObservation, ClaimIntent, ClaimIntents, ClaimError, missing_observation,
  unexpected_observation, duplicate_observation, malformed_observation, ClaimKey, key_eq, probe_key,
  observation_key, validate_observation,
}

abbrev pub Observed : Type 0
Observed = List (ClaimKey × ClaimObservation)

abbrev pub observed_keys : Observed → List ClaimKey
observed_keys = map (λ entry. entry.0)

-- `observed_by_key[key]`
unfoldable pub find_observation : ClaimKey → Observed → Option ClaimObservation
find_observation key [] = none
find_observation key ((k, observation) ∷ observed) =
    if k == key then some observation else find_observation key observed

-- the loop that fills `observed_by_key`
unfoldable pub collect : Observed → List ClaimObservation → Result ClaimError Observed
collect observed [] = ok observed
collect observed (observation ∷ rest) =
    let key = observation_key observation in
    let more = collect (observed ++ (key, observation) ∷ []) rest in
    if contains (observed_keys observed) key then err duplicate_observation else more

-- `tuple(observed_by_key[probe_key(probe)] for probe in prepared.claim_probes)`: a missing key is a
-- `KeyError`, which the test before rules out
unfoldable pub order_observations : Observed → List ClaimProbe → Option (List ClaimObservation)
order_observations observed [] = some []
order_observations observed (probe ∷ probes) = elim (find_observation (probe_key probe) observed) [
  | none ↦ none
  | some observation ↦ elim (order_observations observed probes) [
    | none ↦ none
    | some rest ↦ some (observation ∷ rest)
  ]
]

-- the loop over `zip(prepared.claim_probes, ordered, strict=True)`
unfoldable pub validate_all : List ClaimProbe → List ClaimObservation → Result ClaimError (Unit {0})
validate_all (probe ∷ probes) (observation ∷ observations) =
    validate_observation probe observation >>= λ _. validate_all probes observations
validate_all _ _ = ok tt

pub record JudgmentCommitPlan : Type 0 where
  pub validated_claim_observations : List ClaimObservation
  pub claim_plan : ClaimIntents
  pub plan_record : Text

module _ {Raw : Type 0} (validate_python : Raw → Option ClaimObservation)
    (plan_record : List ClaimObservation → Text) where
  unfoldable pub parse_observations : List Raw → Result ClaimError (List ClaimObservation)
  parse_observations [] = ok []
  parse_observations (raw ∷ raws) =
      let rest = parse_observations raws in
      elim (validate_python raw) [
        | none ↦ err malformed_observation
        | some observation ↦ (rest >>= λ observations. ok (observation ∷ observations))
      ]

  abbrev pub finish_plan :
      List ClaimProbe
      → ClaimIntents
      → Option (List ClaimObservation)
      → Result ClaimError JudgmentCommitPlan
  finish_plan probes intents none = err missing_observation
  finish_plan probes intents (some ordered) = validate_all probes ordered >>= λ _. ok (record {
    validated_claim_observations = ordered;
    claim_plan = intents;
    plan_record = plan_record ordered;
  })

  -- from the comparison of the keys on
  unfoldable pub plan_observed :
      List ClaimProbe → ClaimIntents → Observed → Result ClaimError JudgmentCommitPlan
  plan_observed probes intents observed =
      if not (all (contains (map probe_key probes)) (observed_keys observed))
      then err unexpected_observation
      else if not (all (contains (observed_keys observed)) (map probe_key probes))
      then err missing_observation
      else finish_plan probes intents (order_observations observed probes)

  unfoldable pub finalize_judgment_commit :
      List ClaimProbe → ClaimIntents → List Raw → Result ClaimError JudgmentCommitPlan
  finalize_judgment_commit probes intents raws = do
    parsed ← parse_observations raws
    observed ← collect [] parsed
    plan_observed probes intents observed
