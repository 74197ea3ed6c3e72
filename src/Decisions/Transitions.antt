-- ===== src/Decisions/Transitions.antt =====
-- The transitions of a decision:
-- packages/nauro-core/src/nauro_core/operations/_decision_transitions.py. `model_copy` replaces fields
-- and runs no validator.
pub mod Laws
use nauro.Base.{
  ℕ, zero, suc, ◌+◌, Bool, List, [], ◌∷◌, ◌++◌, map, Option, none, some, Text, codes, strip_by,
  is_space,
}
use nauro.Questions.Ids.{decimal}
use nauro.Decisions.Model.{DecisionStatus, superseded, Decision}

pub record DecisionProvenance : Type 0 where
  pub proposed_by : Text
  pub approved_by : Text
  pub approved_at : Text
  pub proposal_id : Text
  pub proposed_base_commit : Option Text

module _ {Day Extra : Type 0} where
  unfoldable pub apply_current_version_provenance :
      Decision Day Extra → Option DecisionProvenance → Decision Day Extra
  apply_current_version_provenance decision none = record decision {
    proposed_by = none;
    approved_by = none;
    approved_at = none;
    proposal_id = none;
    proposed_base_commit = none;
  }
  apply_current_version_provenance decision (some provenance) = record decision {
    proposed_by = some provenance.proposed_by;
    approved_by = some provenance.approved_by;
    approved_at = some provenance.approved_at;
    proposal_id = some provenance.proposal_id;
    proposed_base_commit = provenance.proposed_base_commit;
  }

  -- `date.isoformat` is a parameter
  unfoldable pub append_decision_update :
      (Day → Text)
      → Decision Day Extra
      → Text
      → Day
      → Option DecisionProvenance
      → Decision Day Extra
  unfolding apply_current_version_provenance strip_by
  append_decision_update isoformat decision additional_rationale update_date provenance =
      let version = decision.version + 1 in
      let rationale =
        strip_by is_space decision.rationale
        ++ codes "\n\n*Update (v"
        ++ decimal version
        ++ codes ") "
        ++ 0x2014 ∷ codes " "
        ++ isoformat update_date
        ++ codes ":* "
        ++ strip_by is_space additional_rationale in
      apply_current_version_provenance
        (record decision { version = version; rationale = rationale }) provenance

  unfoldable pub attach_supersedes : Decision Day Extra → ℕ → Decision Day Extra
  attach_supersedes decision target_number = record decision {
    supersedes = some (decimal target_number);
  }

  unfoldable pub mark_superseded : Decision Day Extra → ℕ → Decision Day Extra
  mark_superseded decision replacement_number = record decision {
    status = superseded;
    superseded_by = some (decimal replacement_number);
  }
