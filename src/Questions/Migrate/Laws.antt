-- ===== src/Questions/Migrate/Laws.antt =====
-- The numbers that `migrate` of packages/nauro-core/src/nauro_core/questions.py mints.
use nauro.Base.{
  ℕ, suc, ◌+◌, ◌<◌, ◌≡◌, refl, ◌&&◌, List, [], ◌∷◌, Option, none, some, Text, leb, ltb, count,
  nat_eq, length, text_eq, if◌then◌else◌, Result, ok, >>=-eq-ok, arith, Option-cases, inl, inr,
}
use nauro.Questions.{
  Block, entry_block, header_block, prose_block, triple_hash_block, unparsable_block,
  OpenQuestionsFile,
}
use nauro.Questions.Ids.{InvalidQuestionIdentifier, format_question_id}
use nauro.Questions.Migrate.{
  MigrationResult, numbers, legacy_stamp, max_number, Migrated, migrate_block, migrate_step,
  migrate_blocks, join_migrated, rename_of, migrate,
}

-- no number is above the greatest
count-max_number : (n : ℕ) (ns : List ℕ) → max_number ns < n → count n ns ≡ 0
unfolding max_number count
count-max_number n [] h = refl
count-max_number n (m ∷ ns) h = ground (arith, count-max_number n ns)

-- 1 where `n` is one of the `k` numbers from `first` on
abbrev pub minted : ℕ → ℕ → ℕ → ℕ
minted first k n = if leb first n && ltb n (first + k) then 1 else 0

count-minted :
    (n first k c : ℕ) (ns : List ℕ)
    → count n ns ≡ c + minted (suc first) k n
    → count n (first ∷ ns) ≡ c + minted first (suc k) n
unfolding count
count-minted n first k c ns h = ground arith

module _ {Stamp Day : Type 0} (strftime : Stamp → Text) where
  numbers-migrate_block :
      (number : ℕ) (stamp : Stamp) (b : Block Stamp Day) (blocks : List (Block Stamp Day))
      → legacy_stamp b ≡ some stamp
      → numbers (migrate_block strftime number stamp b ∷ blocks) ≡ number ∷ numbers blocks
  unfolding numbers migrate_block legacy_stamp
  numbers-migrate_block number stamp (entry_block e) blocks h = refl
  numbers-migrate_block number stamp (header_block t d) blocks h = cc
  numbers-migrate_block number stamp (prose_block ls) blocks h = cc
  numbers-migrate_block number stamp (triple_hash_block ls i) blocks h = cc
  numbers-migrate_block number stamp (unparsable_block ls) blocks h = cc

  numbers-legacy :
      (stamp : Stamp) (b : Block Stamp Day) (blocks : List (Block Stamp Day))
      → legacy_stamp b ≡ some stamp
      → numbers (b ∷ blocks) ≡ numbers blocks
  unfolding numbers legacy_stamp
  numbers-legacy stamp (entry_block e) blocks h = elim (Option-cases e.num) [
    | inl unnumbered ↦ rw unnumbered
    | inr (n, numbered) ↦ absurd (let wrong = rw numbered at h in cc)
  ]
  numbers-legacy stamp (header_block t d) blocks h = refl
  numbers-legacy stamp (prose_block ls) blocks h = refl
  numbers-legacy stamp (triple_hash_block ls i) blocks h = refl
  numbers-legacy stamp (unparsable_block ls) blocks h = refl

  -- the block stays or takes the number
  count-numbers_cons :
      (n : ℕ) (b : Block Stamp Day) (more blocks : List (Block Stamp Day)) (k : ℕ)
      → count n (numbers more) ≡ count n (numbers blocks) + k
      → count n (numbers (b ∷ more)) ≡ count n (numbers (b ∷ blocks)) + k
  unfolding numbers count
  count-numbers_cons n (entry_block e) more blocks k h = elim (Option-cases e.num) [
    | inl unnumbered ↦ rw unnumbered h
    | inr (m, numbered) ↦ rw numbered (omega (arith, h))
  ]
  count-numbers_cons n (header_block t d) more blocks k h = h
  count-numbers_cons n (prose_block ls) more blocks k h = h
  count-numbers_cons n (triple_hash_block ls i) more blocks k h = h
  count-numbers_cons n (unparsable_block ls) more blocks k h = h

  -- What the numbers of a migrated rest are.
  abbrev Mints :
      ℕ
      → ℕ
      → List (Block Stamp Day)
      → Result InvalidQuestionIdentifier (Migrated Stamp Day)
      → Type 0
  Mints n number blocks result =
      (migrated : Migrated Stamp Day)
      → result ≡ ok migrated
      → count n (numbers migrated.0)
        ≡ count n (numbers blocks) + minted number (length migrated.1) n

  migrate_step-Mints :
      (n number : ℕ) (b : Block Stamp Day) (blocks : List (Block Stamp Day)) (stamp : Option Stamp)
      (kept rest : Result InvalidQuestionIdentifier (Migrated Stamp Day))
      → legacy_stamp b ≡ stamp
      → Mints n number blocks kept
      → Mints n (suc number) blocks rest
      → Mints n number (b ∷ blocks) (migrate_step strftime number b stamp kept rest)
  unfolding migrate_step
  migrate_step-Mints n number b blocks none kept rest e k r migrated h =
      let (tail, f, g) = >>=-eq-ok kept (λ t. ok (join_migrated b [] t)) h in
      let made : join_migrated b [] tail ≡ migrated = ground arith in
      rw (← made)
        (count-numbers_cons n b tail.0 blocks (minted number (length tail.1) n) (k tail f))
  migrate_step-Mints n number b blocks (some stamp) kept rest e k r migrated h =
      let (new_id, _, g) = >>=-eq-ok (format_question_id number) _ h in
      let (tail, f, made) = >>=-eq-ok rest _ g in
      let result : join_migrated (migrate_block strftime number stamp b)
            (rename_of strftime stamp new_id ∷ []) tail
          ≡ migrated =
        ground arith in
      rw (← result) (
        rw (numbers-migrate_block number stamp b tail.0 e, numbers-legacy stamp b blocks e)
          (count-minted n number (length tail.1) (count n (numbers blocks)) (numbers tail.0)
            (r tail f)))

  count-migrate_blocks :
      (n number : ℕ) (blocks : List (Block Stamp Day))
      → Mints n number blocks (migrate_blocks strftime number blocks)
  unfolding migrate_blocks
  count-migrate_blocks n number [] migrated h =
      let made : ([], []) ≡ migrated = ground arith in rw (← made) (ground arith)
  count-migrate_blocks n number (b ∷ blocks) migrated h =
      migrate_step-Mints n number b blocks (legacy_stamp b) (migrate_blocks strftime number blocks)
        (migrate_blocks strftime (suc number) blocks) refl (count-migrate_blocks n number blocks)
        (count-migrate_blocks n (suc number) blocks) migrated h

  -- Every number stands in the migrated document as often as before, and the numbers from the one
  -- after the greatest on stand there once each, one for each rename.
  pub count-migrate :
      (n : ℕ) (file : OpenQuestionsFile Stamp Day) (result : MigrationResult Stamp Day)
      → migrate strftime file ≡ ok result
      → count n (numbers result.file.blocks)
        ≡ count n (numbers file.blocks)
          + minted (suc (max_number (numbers file.blocks))) (length result.renames) n
  unfolding migrate
  count-migrate n file result h =
      let next = suc (max_number (numbers file.blocks)) in
      let (migrated, e, f) = >>=-eq-ok (migrate_blocks strftime next file.blocks) _ h in
      let made : record { file = record file { blocks = migrated.0 }; renames = migrated.1 }
          ≡ result =
        ground arith in
      rw (← made) (count-migrate_blocks n next file.blocks migrated e)
