-- ===== src/Questions.antt =====
-- packages/nauro-core/src/nauro_core/questions.py: the data of open-questions.md, one block for each
-- run of lines. A legacy id stands for a `datetime`, and the date of a resolution for a `date`: both
-- types are parameters.
pub mod Ids
pub mod Resolve
pub mod Migrate
pub mod Normalize
pub mod Legacy
pub mod Parse
pub mod Tests
use nauro.Base.{ℕ, Bool, List, Option, Text}

pub record ResolvedRef (Day : Type 0) : Type 0 where
  pub decision_num : ℕ
  pub date : Day

-- `source_question_id` is the private attribute with the id as it was read
pub record QuestionEntry (Stamp Day : Type 0) : Type 0 where
  pub num : Option ℕ
  pub timestamp : Option Stamp
  pub body : Text
  pub continuation : List Text
  pub resolved_by : Option (ResolvedRef Day)
  pub source_question_id : Option Text

pub data Block (Stamp Day : Type 0) : Type 0 where
  header_block : Text → Bool → Block Stamp Day
  prose_block : List Text → Block Stamp Day
  entry_block : QuestionEntry Stamp Day → Block Stamp Day
  triple_hash_block : List Text → Option Text → Block Stamp Day
  unparsable_block : List Text → Block Stamp Day

pub record OpenQuestionsFile (Stamp Day : Type 0) : Type 0 where
  pub header : Text
  pub blocks : List (Block Stamp Day)
