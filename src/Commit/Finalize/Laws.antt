-- ===== src/Commit/Finalize/Laws.antt =====
-- When a plan is made, and of what: `finalize_judgment_commit` of
-- packages/nauro-core/src/nauro_core/operations/_commit_finalize.py.
use mathlib.Core.Path.{subst}
use mathlib.Core.List.{append-nil, append_assoc}
use nauro.Base.{
  ◌≡◌, refl, ◌∙◌, false, List, [], ◌∷◌, ◌++◌, map, Option, none, some, Text, contains, Result, ok,
  err, >>=-eq-ok, arith, Bool-cases, inl, inr,
}
use nauro.Commit.Claims.{
  ClaimProbe, ClaimObservation, ClaimIntents, ClaimError, ClaimKey, key_eq, probe_key,
  observation_key, validate_observation,
}
use nauro.Commit.Finalize.{
  Observed, observed_keys, find_observation, collect, order_observations, validate_all,
  JudgmentCommitPlan, parse_observations, finish_plan, plan_observed, finalize_judgment_commit,
}

-- Every entry of the dictionary stands under its observation's key.
abbrev Keyed : Observed → Type 0
Keyed [] = Unit
Keyed ((key, observation) ∷ observed) = (observation_key observation ≡ key) × Keyed observed

-- No key stands twice in the list.
abbrev pub Distinct : List ClaimKey → Type 0
Distinct [] = Unit
Distinct (key ∷ keys) = (contains keys key ≡ false) × Distinct keys

-- Probe by probe, the observation has the probe's key and is one that the probe accepts.
abbrev pub Answers : List ClaimProbe → List ClaimObservation → Type 0
Answers [] [] = Unit
Answers (probe ∷ probes) (observation ∷ observations) =
    (observation_key observation ≡ probe_key probe)
    × (validate_observation probe observation ≡ ok tt)
    × Answers probes observations
Answers _ _ = ⊥

unfoldable pub keyed : ClaimObservation → ClaimKey × ClaimObservation
keyed observation = (observation_key observation, observation)

err_ne_ok :
    {e : ClaimError} {r : Observed} → ◌≡◌ {A = Result ClaimError Observed} (err e) (ok r) → ⊥
err_ne_ok h = cc

-- The dictionary that the loop fills holds the observations given, in their order.
collect-ok :
    (observed : Observed) (observations : List ClaimObservation) {result : Observed}
    → collect observed observations ≡ ok result
    → result ≡ observed ++ map keyed observations
unfolding collect keyed
collect-ok observed [] e = cc (e, append-nil observed)
collect-ok observed (observation ∷ rest) e =
    elim (Bool-cases (contains (observed_keys observed) (observation_key observation))) [
      | inl twice ↦ absurd (err_ne_ok (rw twice at e))
      | inr fresh ↦
          collect-ok (observed ++ keyed observation ∷ []) rest (rw fresh at e)
          ∙ append_assoc observed (keyed observation ∷ []) (map keyed rest)
    ]

find-key :
    (key : ClaimKey) (observations : List ClaimObservation) (observation : ClaimObservation)
    → find_observation key (map keyed observations) ≡ some observation
    → observation_key observation ≡ key
unfolding find_observation keyed
find-key key [] observation e = cc
find-key key (o ∷ rest) observation e =
    ground (arith, key_eq.beq_iff (observation_key o) key, find-key key rest observation)

-- What is ordered and validated answers the probes.
order-Answers :
    (observations : List ClaimObservation) (probes : List ClaimProbe)
    (ordered : List ClaimObservation)
    → order_observations (map keyed observations) probes ≡ some ordered
    → validate_all probes ordered ≡ ok tt
    → Answers probes ordered
unfolding order_observations validate_all
order-Answers observations [] [] e v = tt
order-Answers observations [] (o ∷ ordered) e v = cc
order-Answers observations (probe ∷ probes) [] e v = absurd (ground arith)
order-Answers observations (probe ∷ probes) (o ∷ ordered) e v = (
  find-key (probe_key probe) observations o (ground arith),
  ground arith,
  order-Answers observations probes ordered (ground arith) (ground arith),
)

module _ {Raw : Type 0} (validate_python : Raw → Option ClaimObservation)
    (plan_record : List ClaimObservation → Text) where
  -- The observations of a plan answer the probes, and the rest of it is derived from the commit.
  abbrev pub IsPlanFor : List ClaimProbe → ClaimIntents → JudgmentCommitPlan → Type 0
  IsPlanFor probes intents plan =
      Answers probes plan.validated_claim_observations
      × (plan.claim_plan ≡ intents)
      × (plan.plan_record ≡ plan_record plan.validated_claim_observations)

  finish_plan_sound :
      (observations : List ClaimObservation) (probes : List ClaimProbe) (intents : ClaimIntents)
      (ordered : Option (List ClaimObservation)) (plan : JudgmentCommitPlan)
      → order_observations (map keyed observations) probes ≡ ordered
      → finish_plan validate_python plan_record probes intents ordered ≡ ok plan
      → IsPlanFor probes intents plan
  finish_plan_sound observations probes intents none plan e h = cc
  finish_plan_sound observations probes intents (some ordered) plan e h = (
    rw (← same) (order-Answers observations probes ordered e (ground arith)),
    ground arith,
    ground arith,
  )
    where
      same : ordered ≡ plan.validated_claim_observations
      same = ground arith

  plan_observed_sound :
      (observations : List ClaimObservation) (probes : List ClaimProbe) (intents : ClaimIntents)
      (plan : JudgmentCommitPlan)
      → plan_observed validate_python plan_record probes intents (map keyed observations) ≡ ok plan
      → IsPlanFor probes intents plan
  unfolding plan_observed
  plan_observed_sound observations probes intents plan h =
      finish_plan_sound observations probes intents
        (order_observations (map keyed observations) probes) plan refl (ground arith)

  -- A plan is made only of observations that answer the probes one by one, in the probes' order:
  -- each has its probe's key and is accepted by it. The intents are those of the prepared commit, and
  -- the record is made of these observations.
  pub finalize_sound :
      (probes : List ClaimProbe) (intents : ClaimIntents) (raws : List Raw)
      (plan : JudgmentCommitPlan)
      → finalize_judgment_commit validate_python plan_record probes intents raws ≡ ok plan
      → IsPlanFor probes intents plan
  unfolding finalize_judgment_commit
  finalize_sound probes intents raws plan h =
      let (parsed, e, k) = >>=-eq-ok (parse_observations validate_python plan_record raws) _ h in
      let (observed, f, l) =
        >>=-eq-ok (collect [] parsed) (plan_observed validate_python plan_record probes intents)
          k in
      plan_observed_sound parsed probes intents plan (
        subst (λ o. plan_observed validate_python plan_record probes intents o ≡ ok plan)
          (collect-ok [] parsed f) l)
