-- ===== src/Decisions/Transitions/Laws.antt =====
-- The transitions keep to the rules of the validators:
-- packages/nauro-core/src/nauro_core/operations/_decision_transitions.py.
use nauro.Base.{
  ℕ, ◌≤◌, ◌≡◌, refl, true, Option, none, some, Text, all, any, text_eq, beq_refl, arith,
}
use nauro.Questions.Ids.{is_ascii_decimal, decimal}
use nauro.Questions.Ids.Digits.{read_digits-decimal}
use nauro.Questions.Parse.Cuts.{decimal-filled}
use nauro.Sync.Names.Laws.{decimal-digits}
use nauro.Decisions.Model.{
  Decision, is_some, validate_supersession_ref, require_complete_approval_provenance,
  require_reasons_on_active, superseded_requires_ref,
}
use nauro.Decisions.Transitions.{
  DecisionProvenance, apply_current_version_provenance, append_decision_update, attach_supersedes,
  mark_superseded,
}

-- what the validators of a decision ask
pub record Accepted {Day Extra : Type 0} (d : Decision Day Extra) : Type 0 where
  pub versioned : 1 ≤ d.version
  pub supersedes_ref : validate_supersession_ref d.supersedes ≡ true
  pub superseded_by_ref : validate_supersession_ref d.superseded_by ≡ true
  pub complete : require_complete_approval_provenance d ≡ true
  pub reasons : require_reasons_on_active d ≡ true
  pub replaced : superseded_requires_ref d ≡ true

decimal_ref : (n : ℕ) → validate_supersession_ref (some (decimal n)) ≡ true
unfolding validate_supersession_ref is_ascii_decimal
decimal_ref n =
    rw (decimal-filled n, decimal-digits n, read_digits-decimal n) (beq_refl (decimal n))

module _ {Day Extra : Type 0} where
  mark_superseded-Accepted :
      (d : Decision Day Extra) (n : ℕ) → Accepted d → Accepted (mark_superseded d n)
  unfolding mark_superseded require_complete_approval_provenance require_reasons_on_active
      superseded_requires_ref
  mark_superseded-Accepted d n h = record {
    versioned = h.versioned;
    supersedes_ref = h.supersedes_ref;
    superseded_by_ref = decimal_ref n;
    complete = h.complete;
    reasons = refl;
    replaced = rw (decimal-filled n) refl;
  }

  attach_supersedes-Accepted :
      (d : Decision Day Extra) (n : ℕ) → Accepted d → Accepted (attach_supersedes d n)
  unfolding attach_supersedes require_complete_approval_provenance require_reasons_on_active
      superseded_requires_ref
  attach_supersedes-Accepted d n h = record {
    versioned = h.versioned;
    supersedes_ref = decimal_ref n;
    superseded_by_ref = h.superseded_by_ref;
    complete = h.complete;
    reasons = h.reasons;
    replaced = h.replaced;
  }

  append_decision_update-Accepted :
      (isoformat : Day → Text) (d : Decision Day Extra) (more : Text) (day : Day)
      (provenance : Option DecisionProvenance)
      → Accepted d
      → Accepted (append_decision_update isoformat d more day provenance)
  unfolding append_decision_update apply_current_version_provenance
      require_complete_approval_provenance require_reasons_on_active superseded_requires_ref is_some
      all any
  append_decision_update-Accepted isoformat d more day none h = record {
    versioned = omega arith;
    supersedes_ref = h.supersedes_ref;
    superseded_by_ref = h.superseded_by_ref;
    complete = refl;
    reasons = h.reasons;
    replaced = h.replaced;
  }
  append_decision_update-Accepted isoformat d more day (some p) h = record {
    versioned = omega arith;
    supersedes_ref = h.supersedes_ref;
    superseded_by_ref = h.superseded_by_ref;
    complete = refl;
    reasons = h.reasons;
    replaced = h.replaced;
  }

  -- From a decision that the validators accept, `model_copy` makes one that they accept as well: the
  -- replacement with its backlink, the decision that it marks as superseded, and an update with any
  -- provenance, given or not. The rules are those of the references, of the completeness of the
  -- provenance, of the reasons of rejections and of the version, which starts at 1.
  pub transitions-Accepted :
      (isoformat : Day → Text) (target replacement : Decision Day Extra) (more : Text) (day : Day)
      (provenance : Option DecisionProvenance)
      → Accepted target
      → Accepted replacement
      → Accepted (attach_supersedes replacement target.num)
        × Accepted (mark_superseded target replacement.num)
        × Accepted (append_decision_update isoformat target more day provenance)
  transitions-Accepted isoformat target replacement more day provenance t r = (
    attach_supersedes-Accepted replacement target.num r,
    mark_superseded-Accepted target replacement.num t,
    append_decision_update-Accepted isoformat target more day provenance t,
  )
