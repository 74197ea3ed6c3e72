-- ===== src/Questions/Migrate/Again.antt =====
-- What a second `migrate` does: packages/nauro-core/src/nauro_core/questions.py.
use nauro.Base.{
  ℕ, suc, ◌≡◌, refl, List, [], ◌∷◌, Option, none, some, Text, Result, ok, >>=-eq-ok, arith, All,
}
use nauro.Questions.{
  Block, entry_block, header_block, prose_block, triple_hash_block, unparsable_block,
  OpenQuestionsFile,
}
use nauro.Questions.Ids.{InvalidQuestionIdentifier, format_question_id}
use nauro.Questions.Migrate.{
  MigrationResult, numbers, legacy_stamp, max_number, Migrated, migrate_block, migrate_step,
  migrate_blocks, join_migrated, rename_of, migrate,
}

module _ {Stamp Day : Type 0} (strftime : Stamp → Text) where
  -- an entry of the block has a number or no stamp
  abbrev Current : Block Stamp Day → Type 0
  Current b = legacy_stamp b ≡ none

  migrate_block-Current :
      (number : ℕ) (stamp : Stamp) (b : Block Stamp Day)
      → legacy_stamp b ≡ some stamp
      → Current (migrate_block strftime number stamp b)
  unfolding migrate_block legacy_stamp
  migrate_block-Current number stamp (entry_block e) h = refl
  migrate_block-Current number stamp (header_block t d) h = refl
  migrate_block-Current number stamp (prose_block ls) h = refl
  migrate_block-Current number stamp (triple_hash_block ls i) h = refl
  migrate_block-Current number stamp (unparsable_block ls) h = refl

  abbrev AllCurrent : Result InvalidQuestionIdentifier (Migrated Stamp Day) → Type 0
  AllCurrent result =
      (migrated : Migrated Stamp Day) → result ≡ ok migrated → All Current migrated.0

  migrate_step-AllCurrent :
      (number : ℕ) (b : Block Stamp Day) (stamp : Option Stamp)
      (kept rest : Result InvalidQuestionIdentifier (Migrated Stamp Day))
      → legacy_stamp b ≡ stamp
      → AllCurrent kept
      → AllCurrent rest
      → AllCurrent (migrate_step strftime number b stamp kept rest)
  unfolding migrate_step
  migrate_step-AllCurrent number b none kept rest e k r migrated h =
      let (tail, f, g) = >>=-eq-ok kept (λ t. ok (join_migrated b [] t)) h in
      let made : join_migrated b [] tail ≡ migrated = ground arith in rw (← made) (e, k tail f)
  migrate_step-AllCurrent number b (some stamp) kept rest e k r migrated h =
      let (new_id, _, g) = >>=-eq-ok (format_question_id number) _ h in
      let (tail, f, made) = >>=-eq-ok rest _ g in
      let result : join_migrated (migrate_block strftime number stamp b)
            (rename_of strftime stamp new_id ∷ []) tail
          ≡ migrated =
        ground arith in
      rw (← result) (migrate_block-Current number stamp b e, r tail f)

  migrate_blocks-AllCurrent :
      (number : ℕ) (blocks : List (Block Stamp Day))
      → AllCurrent (migrate_blocks strftime number blocks)
  unfolding migrate_blocks
  migrate_blocks-AllCurrent number [] migrated h =
      let made : ([], []) ≡ migrated = ground arith in rw (← made) tt
  migrate_blocks-AllCurrent number (b ∷ blocks) migrated h =
      migrate_step-AllCurrent number b (legacy_stamp b) (migrate_blocks strftime number blocks)
        (migrate_blocks strftime (suc number) blocks) refl (migrate_blocks-AllCurrent number blocks)
        (migrate_blocks-AllCurrent (suc number) blocks) migrated h

  migrate_blocks_unchanged :
      (number : ℕ) (blocks : List (Block Stamp Day))
      → All Current blocks
      → migrate_blocks strftime number blocks ≡ ok (blocks, [])
  unfolding migrate_blocks migrate_step
  migrate_blocks_unchanged number [] c = refl
  migrate_blocks_unchanged number (b ∷ blocks) c =
      rw (c.0) (rw (migrate_blocks_unchanged number blocks c.1))

  -- To migrate a migrated document gives the same document and no renames.
  pub migrate_twice :
      (file : OpenQuestionsFile Stamp Day) (result : MigrationResult Stamp Day)
      → migrate strftime file ≡ ok result
      → migrate strftime result.file ≡ ok (record { file = result.file; renames = [] })
  unfolding migrate
  migrate_twice file result h =
      let next = suc (max_number (numbers file.blocks)) in
      let (migrated, e, f) = >>=-eq-ok (migrate_blocks strftime next file.blocks) _ h in
      let made : record { file = record file { blocks = migrated.0 }; renames = migrated.1 }
          ≡ result =
        ground arith in
      rw (← made) (
        rw (
          migrate_blocks_unchanged (suc (max_number (numbers migrated.0))) migrated.0
            (migrate_blocks-AllCurrent next file.blocks migrated e)))
