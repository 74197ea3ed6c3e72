-- ===== src/Questions/Migrate.antt =====
-- packages/nauro-core/src/nauro_core/questions.py: `OpenQuestionsFile.migrate`. `strftime` with the
-- format of a legacy id is a parameter.
pub mod Laws
pub mod Again
use nauro.Base.{
  ℕ, suc, ◌+◌, Bool, true, false, List, [], ◌∷◌, ◌++◌, Option, none, some, Text, codes, leb,
  text_eq, Eq, ◌==◌, if◌then◌else◌, Result, ok, err, ◌>>=◌,
}
use nauro.Questions.{QuestionEntry, Block, entry_block, OpenQuestionsFile}
use nauro.Questions.Ids.{InvalidQuestionIdentifier, format_question_id}
use nauro.Questions.Resolve.{entry_id}

pub record MigrationRename : Type 0 where
  pub old_id : Text
  pub new_id : Text
  pub logged : Text

pub record MigrationResult (Stamp Day : Type 0) : Type 0 where
  pub file : OpenQuestionsFile Stamp Day
  pub renames : List MigrationRename

module _ {Stamp Day : Type 0} where
  -- the numbers of `numbered_entries`
  unfoldable pub numbers : List (Block Stamp Day) → List ℕ
  numbers [] = []
  numbers (entry_block e ∷ blocks) = elim e.num [
    | none ↦ numbers blocks
    | some n ↦ n ∷ numbers blocks
  ]
  numbers (_ ∷ blocks) = numbers blocks

  -- the stamp of an entry that has a stamp and no number
  unfoldable pub legacy_stamp : Block Stamp Day → Option Stamp
  legacy_stamp (entry_block e) = elim e.num [ none ↦ e.timestamp | some n ↦ none ]
  legacy_stamp _ = none

-- `max(ns, default=0)`
unfoldable pub max_number : List ℕ → ℕ
max_number [] = 0
max_number (n ∷ ns) = let rest = max_number ns in if leb rest n then n else rest

abbrev pub Migrated : Type 0 → Type 0 → Type 0
Migrated Stamp Day = List (Block Stamp Day) × List MigrationRename

module _ {Stamp Day : Type 0} where
  abbrev pub join_migrated :
      Block Stamp Day → List MigrationRename → Migrated Stamp Day → Migrated Stamp Day
  join_migrated b renames (blocks, more) = (b ∷ blocks, renames ++ more)

module _ {Stamp : Type 0} (strftime : Stamp → Text) where
  abbrev logged_text : Stamp → Text
  logged_text stamp = codes "(logged " ++ strftime stamp ++ codes ")"

  abbrev logged_body : Text → Stamp → Text
  logged_body body stamp =
      if body == [] then logged_text stamp else body ++ codes " " ++ logged_text stamp

  abbrev pub rename_of : Stamp → Text → MigrationRename
  rename_of stamp new_id = record {
    old_id = strftime stamp;
    new_id = new_id;
    logged = logged_text stamp;
  }

module _ {Stamp Day : Type 0} (strftime : Stamp → Text) where
  unfoldable pub migrate_block : ℕ → Stamp → Block Stamp Day → Block Stamp Day
  migrate_block number stamp (entry_block e) =
      entry_block
        (record e { num = some number; timestamp = none; body = logged_body strftime e.body stamp })
  migrate_block number stamp b = b

  -- one round of the loop; `kept` and `minted` are the rest of it
  unfoldable pub migrate_step :
      ℕ
      → Block Stamp Day
      → Option Stamp
      → Result InvalidQuestionIdentifier (Migrated Stamp Day)
      → Result InvalidQuestionIdentifier (Migrated Stamp Day)
      → Result InvalidQuestionIdentifier (Migrated Stamp Day)
  migrate_step number b none kept minted = kept >>= λ rest. ok (join_migrated b [] rest)
  migrate_step number b (some stamp) kept minted = format_question_id number >>= λ new_id.
      minted >>= λ rest.
      ok (join_migrated (migrate_block number stamp b) (rename_of strftime stamp new_id ∷ []) rest)

  unfoldable pub migrate_blocks :
      ℕ → List (Block Stamp Day) → Result InvalidQuestionIdentifier (Migrated Stamp Day)
  migrate_blocks number [] = ok ([], [])
  migrate_blocks number (b ∷ blocks) =
      migrate_step number b (legacy_stamp b) (migrate_blocks number blocks)
        (migrate_blocks (suc number) blocks)

  unfoldable pub migrate :
      OpenQuestionsFile Stamp Day → Result InvalidQuestionIdentifier (MigrationResult Stamp Day)
  migrate file = migrate_blocks (suc (max_number (numbers file.blocks))) file.blocks >>= λ migrated.
      ok (record { file = record file { blocks = migrated.0 }; renames = migrated.1 })
