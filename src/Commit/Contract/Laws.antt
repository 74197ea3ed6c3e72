-- ===== src/Commit/Contract/Laws.antt =====
-- What the contract of a commit claims: `build_claim_contract` of
-- packages/nauro-core/src/nauro_core/operations/_commit_contract.py.
use mathlib.Core.Path.{subst}
use mathlib.Core.Option.{some-injective}
use nauro.Base.{
  ◌≡◌, refl, List, map, Option, none, some, Text, ◌==◌, text_eq, contains, Bool-cases, inl, inr,
}
use nauro.Commit.Claims.{normalize_title, ClaimIntent, ClaimKey, title, content, probe_key, key_eq}
use nauro.Commit.Finalize.Laws.{Distinct}
use nauro.Commit.Contract.{
  Operation, add, update, supersede, DecisionText, Contract, build_claim_contract,
}

-- The key of the claim that an intent is about.
abbrev pub intent_key : ClaimIntent → Option ClaimKey
intent_key i = elim i.normalized_title [
  | some t ↦ some (title, t)
  | none ↦ elim i.content_hash [ some h ↦ some (content, h) | none ↦ none ]
]

abbrev pub intent_keys : List ClaimIntent → List (Option ClaimKey)
intent_keys = map intent_key

-- Each probe's claim, in order, is the claim of one intent of entry and one of publication, and no
-- two probes ask for the same claim.
abbrev pub IsAligned : Contract → Type 0
IsAligned (probes, intents) =
    (intent_keys intents.entry ≡ map (λ p. some (probe_key p)) probes)
    × (intent_keys intents.publication ≡ map (λ p. some (probe_key p)) probes)
    × Distinct (map probe_key probes)

module _ (lower sha256 : Text → Text) where
  -- In the contract of every operation the intents of entry and of publication are about the claims
  -- of the probes, in the probes' order, and the probes' keys are distinct.
  pub contract-IsAligned :
      (operation : Operation) (target : Option DecisionText) (primary : DecisionText)
      (contract : Contract)
      → build_claim_contract lower sha256 operation target primary ≡ some contract
      → IsAligned contract
  unfolding build_claim_contract probe_key contains key_eq
  contract-IsAligned add target primary contract h =
      subst IsAligned (some-injective _ _ h) (refl, refl, (refl, (refl, tt)))
  contract-IsAligned update none primary contract h = cc
  contract-IsAligned update (some target) primary contract h =
      subst IsAligned (some-injective _ _ h) (refl, refl, (refl, (refl, tt)))
  contract-IsAligned supersede none primary contract h = cc
  contract-IsAligned supersede (some target) primary contract h =
      subst IsAligned (some-injective _ _ h)
        (elim (Bool-cases
          (normalize_title lower primary.title == normalize_title lower target.title)) [
            | inl same ↦ rw same (refl, refl, (refl, (refl, tt)))
            | inr other ↦ rw other (refl, refl, (rw other, (refl, (refl, tt))))
          ])
