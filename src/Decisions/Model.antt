-- ===== src/Decisions/Model.antt =====
-- A decision and the rules of its validators: packages/nauro-core/src/nauro_core/decision_model.py.
-- The formats of identifiers, time stamps and commits (nauro_core/identifiers.py and provenance.py)
-- are not among the rules here. `int` reads any number of digits.
use nauro.Base.{
  ℕ, Bool, true, false, not, ◌&&◌, ◌||◌, List, [], ◌∷◌, Option, none, some, Text, all, any, ◌==◌,
  text_eq,
}
use nauro.Questions.Ids.{is_ascii_decimal, decimal, read_digits}

pub data DecisionStatus : Type 0 where
  active superseded : DecisionStatus

pub data DecisionConfidence : Type 0 where
  high medium low : DecisionConfidence

-- `pattern_` is the source's `pattern`
pub data DecisionType : Type 0 where
  architecture api_design infrastructure pattern_ refactor data_model : DecisionType

pub data Reversibility : Type 0 where
  easy moderate hard : Reversibility

pub data DecisionSource : Type 0 where
  mcp commit compaction manual import_ : DecisionSource

pub record RejectedAlternative : Type 0 where
  pub name : Text
  pub reason : Option Text

-- `date` is a type that is a parameter, and so are the front matter's unknown keys with their values
pub record Decision (Day Extra : Type 0) : Type 0 where
  pub date : Day
  pub confidence : DecisionConfidence
  pub version : ℕ
  pub status : DecisionStatus
  pub decision_type : Option DecisionType
  pub reversibility : Option Reversibility
  pub source : Option DecisionSource
  pub files_affected : List Text
  pub supersedes : Option Text
  pub superseded_by : Option Text
  pub proposed_by : Option Text
  pub approved_by : Option Text
  pub approved_at : Option Text
  pub proposal_id : Option Text
  pub proposed_base_commit : Option Text
  pub rejected : List RejectedAlternative
  pub num : ℕ
  pub title : Text
  pub rationale : Text
  pub body : Text
  pub content : Text
  pub model_extra : Extra

unfoldable pub is_some : Option Text → Bool
is_some none = false
is_some (some value) = true

-- `_validate_supersession_ref`
unfoldable pub validate_supersession_ref : Option Text → Bool
validate_supersession_ref none = true
validate_supersession_ref (some v) = is_ascii_decimal v && v == decimal (read_digits 0 v)

module _ {Day Extra : Type 0} where
  unfoldable pub require_complete_approval_provenance : Decision Day Extra → Bool
  unfolding is_some
  require_complete_approval_provenance d =
      not (
        any is_some (
          d.proposed_by ∷ d.approved_by ∷ d.approved_at ∷ d.proposal_id ∷ d.proposed_base_commit
          ∷ []))
      || all is_some (d.proposed_by ∷ d.approved_by ∷ d.approved_at ∷ d.proposal_id ∷ [])

  unfoldable pub require_reasons_on_active : Decision Day Extra → Bool
  unfolding is_some
  require_reasons_on_active d = elim d.status [
    | active ↦ all (λ r. is_some r.reason) d.rejected
    | superseded ↦ true
  ]

  -- `not self.superseded_by` is true of none and of the empty text
  unfoldable pub superseded_requires_ref : Decision Day Extra → Bool
  superseded_requires_ref d = elim d.status [
    | active ↦ true
    | superseded ↦ elim d.superseded_by [ none ↦ false | some v ↦ not (v == []) ]
  ]
