-- ===== src/Questions/Normalize/Laws.antt =====
-- What `normalize` of packages/nauro-core/src/nauro_core/questions.py keeps.
use nauro.Base.{
  ℕ, zero, suc, ◌+◌, ◌≡◌, refl, Bool, true, false, ◌||◌, List, [], ◌∷◌, ◌++◌, Option, none, some,
  Text, if◌then◌else◌, arith, Bool-cases, inl, inr,
}
use nauro.Questions.{
  QuestionEntry, Block, header_block, prose_block, entry_block, triple_hash_block, unparsable_block,
  OpenQuestionsFile,
}
use nauro.Questions.Resolve.{is_divider, has_divider, is_open, entries, new_divider}
use nauro.Questions.Normalize.{
  Relocation, trailing_blank, keep, relocate, scan_entry, scan_blocks, relocated_blocks, is_header,
  insert_before_header, insert_after_divider, place, normalized, normalize,
}

module _ {Stamp Day : Type 0} (p : QuestionEntry Stamp Day → Bool) where
  -- how many entries pass the test
  unfoldable pub tally : List (QuestionEntry Stamp Day) → ℕ
  tally [] = 0
  tally (e ∷ es) = (if p e then 1 else 0) + tally es

  abbrev tally_blocks : List (Block Stamp Day) → ℕ
  tally_blocks blocks = tally (entries blocks)

  tally-append :
      (xs ys : List (Block Stamp Day)) → tally_blocks (xs ++ ys) ≡ tally_blocks xs + tally_blocks ys
  unfolding entries tally
  tally-append [] ys = omega arith
  tally-append (entry_block e ∷ xs) ys = omega (arith, tally-append xs ys)
  tally-append (header_block t d ∷ xs) ys = tally-append xs ys
  tally-append (prose_block ls ∷ xs) ys = tally-append xs ys
  tally-append (triple_hash_block ls i ∷ xs) ys = tally-append xs ys
  tally-append (unparsable_block ls ∷ xs) ys = tally-append xs ys

  tally-relocated_blocks :
      (es : List (QuestionEntry Stamp Day)) → tally_blocks (relocated_blocks es) ≡ tally es
  unfolding entries tally relocated_blocks
  tally-relocated_blocks [] = refl
  tally-relocated_blocks (e ∷ es) = omega (arith, tally-relocated_blocks es)

  tally-insert_before_header :
      (moved blocks : List (Block Stamp Day))
      → tally_blocks (insert_before_header moved blocks) ≡ tally_blocks blocks + tally_blocks moved
  unfolding insert_before_header
  tally-insert_before_header moved [] = unfold entries in unfold tally in omega arith
  tally-insert_before_header moved (b ∷ blocks) = elim (Bool-cases (is_header b)) [
    | inl header ↦ rw header (omega (arith, tally-append moved (b ∷ blocks)))
    | inr other ↦ rw other (
        omega (
          arith,
          tally-append (b ∷ []) (insert_before_header moved blocks),
          tally-append (b ∷ []) blocks,
          tally-insert_before_header moved blocks,
        ))
  ]

  tally-insert_after_divider :
      (moved blocks : List (Block Stamp Day))
      → tally_blocks (insert_after_divider moved blocks) ≡ tally_blocks blocks + tally_blocks moved
  unfolding insert_after_divider
  tally-insert_after_divider moved [] = unfold entries in unfold tally in omega arith
  tally-insert_after_divider moved (b ∷ blocks) = elim (Bool-cases (is_divider b)) [
    | inl divider ↦ rw divider (
        omega (
          arith,
          tally-append (b ∷ []) (insert_before_header moved blocks),
          tally-append (b ∷ []) blocks,
          tally-insert_before_header moved blocks,
        ))
    | inr other ↦ rw other (
        omega (
          arith,
          tally-append (b ∷ []) (insert_after_divider moved blocks),
          tally-append (b ∷ []) blocks,
          tally-insert_after_divider moved blocks,
        ))
  ]

  tally-place :
      (divided : Bool) (kept moved : List (Block Stamp Day))
      → tally_blocks (place divided kept moved) ≡ tally_blocks kept + tally_blocks moved
  unfolding entries tally
  tally-place true kept moved = tally-insert_after_divider moved kept
  tally-place false kept moved =
      omega (arith, tally-append (kept ++ new_divider) moved, tally-append kept new_divider)

  -- The next blocks that the loop removes are prose.
  abbrev pub Removes : ℕ → List (Block Stamp Day) → Type 0
  Removes zero blocks = Unit
  Removes (suc k) (prose_block ls ∷ blocks) = Removes k blocks
  Removes (suc k) _ = ⊥

  pub trailing_blank-Removes :
      (blocks : List (Block Stamp Day)) (k : ℕ) → trailing_blank blocks ≡ some k → Removes k blocks
  unfolding trailing_blank
  trailing_blank-Removes blocks zero h = tt
  trailing_blank-Removes [] (suc k) h = absurd (ground arith)
  trailing_blank-Removes (entry_block e ∷ blocks) (suc k) h = absurd (ground arith)
  trailing_blank-Removes (header_block t d ∷ blocks) (suc k) h = absurd (ground arith)
  trailing_blank-Removes (prose_block ls ∷ blocks) (suc k) h =
      trailing_blank-Removes blocks k (ground arith)
  trailing_blank-Removes (triple_hash_block ls i ∷ blocks) (suc k) h = absurd (ground arith)
  trailing_blank-Removes (unparsable_block ls ∷ blocks) (suc k) h = absurd (ground arith)

  -- No entry is lost by the loop.
  abbrev Tallied : List (Block Stamp Day) → Relocation Stamp Day → Type 0
  Tallied blocks scan = tally_blocks scan.kept + tally scan.to_relocate ≡ tally_blocks blocks

  prose-Tallied :
      (ls : List Text) (blocks : List (Block Stamp Day)) (scan : Relocation Stamp Day)
      → Tallied blocks scan
      → Tallied (prose_block ls ∷ blocks) scan
  unfolding entries
  prose-Tallied ls blocks scan h = h

  keep-Tallied :
      (b : Block Stamp Day) (blocks : List (Block Stamp Day)) (scan : Relocation Stamp Day)
      → Tallied blocks scan
      → Tallied (b ∷ blocks) (keep b scan)
  keep-Tallied b blocks scan h =
      omega (arith, h, tally-append (b ∷ []) blocks, tally-append (b ∷ []) scan.kept)

  relocate-Tallied :
      (e : QuestionEntry Stamp Day) (blocks : List (Block Stamp Day)) (scan : Relocation Stamp Day)
      → Tallied blocks scan
      → Tallied (entry_block e ∷ blocks) (relocate e scan)
  unfolding entries tally
  relocate-Tallied e blocks scan h = omega (arith, h)

  scan_entry-Tallied :
      (past : Bool) (e : QuestionEntry Stamp Day) (blocks : List (Block Stamp Day))
      (trailing : Option ℕ) (go : ℕ → Relocation Stamp Day)
      → trailing_blank blocks ≡ trailing
      → ((k : ℕ) → Removes k blocks → Tallied blocks (go k))
      → Tallied (entry_block e ∷ blocks) (scan_entry past e trailing go)
  unfolding scan_entry
  scan_entry-Tallied past e blocks none go h k = elim (Bool-cases (past || is_open e)) [
    | inl stays ↦ rw stays (keep-Tallied (entry_block e) blocks (go 0) (k 0 tt))
    | inr held ↦ rw held (keep-Tallied (entry_block e) blocks (go 0) (k 0 tt))
  ]
  scan_entry-Tallied past e blocks (some n) go h k = elim (Bool-cases (past || is_open e)) [
    | inl stays ↦ rw stays (keep-Tallied (entry_block e) blocks (go 0) (k 0 tt))
    | inr moves ↦
        rw moves (relocate-Tallied e blocks (go n) (k n (trailing_blank-Removes blocks n h)))
  ]

  scan_blocks-Tallied :
      (past : Bool) (k : ℕ) (blocks : List (Block Stamp Day))
      → Removes k blocks
      → Tallied blocks (scan_blocks past k blocks)
  unfolding scan_blocks
  scan_blocks-Tallied past zero [] r = unfold entries in unfold tally in refl
  scan_blocks-Tallied past (suc k) [] r = absurd r
  scan_blocks-Tallied past zero (entry_block e ∷ blocks) r =
      scan_entry-Tallied past e blocks (trailing_blank blocks) (λ k. scan_blocks past k blocks) refl
        (λ k. scan_blocks-Tallied past k blocks)
  scan_blocks-Tallied past zero (header_block t d ∷ blocks) r =
      keep-Tallied (header_block t d) blocks (scan_blocks (past || d) 0 blocks)
        (scan_blocks-Tallied (past || d) 0 blocks tt)
  scan_blocks-Tallied past zero (prose_block ls ∷ blocks) r =
      keep-Tallied (prose_block ls) blocks (scan_blocks past 0 blocks)
        (scan_blocks-Tallied past 0 blocks tt)
  scan_blocks-Tallied past zero (triple_hash_block ls i ∷ blocks) r =
      keep-Tallied (triple_hash_block ls i) blocks (scan_blocks past 0 blocks)
        (scan_blocks-Tallied past 0 blocks tt)
  scan_blocks-Tallied past zero (unparsable_block ls ∷ blocks) r =
      keep-Tallied (unparsable_block ls) blocks (scan_blocks past 0 blocks)
        (scan_blocks-Tallied past 0 blocks tt)
  scan_blocks-Tallied past (suc k) (prose_block ls ∷ blocks) r =
      prose-Tallied ls blocks (scan_blocks past k blocks) (scan_blocks-Tallied past k blocks r)
  scan_blocks-Tallied past (suc k) (entry_block e ∷ blocks) r = absurd r
  scan_blocks-Tallied past (suc k) (header_block t d ∷ blocks) r = absurd r
  scan_blocks-Tallied past (suc k) (triple_hash_block ls i ∷ blocks) r = absurd r
  scan_blocks-Tallied past (suc k) (unparsable_block ls ∷ blocks) r = absurd r

  tally-normalized :
      (strftime : Stamp → Text) (file : OpenQuestionsFile Stamp Day) (kept : List (Block Stamp Day))
      (moved skipped : List (QuestionEntry Stamp Day))
      → tally_blocks kept + tally moved ≡ tally_blocks file.blocks
      → tally_blocks (normalized strftime file kept moved skipped).file.blocks
        ≡ tally_blocks file.blocks
  tally-normalized strftime file kept [] skipped h = refl
  tally-normalized strftime file kept (e ∷ es) skipped h = omega (
    arith,
    h,
    tally-place (has_divider file.blocks) kept (relocated_blocks (e ∷ es)),
    tally-relocated_blocks (e ∷ es),
  )

  -- A normalized document has as many entries that pass a test as before, for every test of entries:
  -- none is lost, doubled or changed.
  pub tally-normalize :
      (strftime : Stamp → Text) (file : OpenQuestionsFile Stamp Day)
      → tally (entries (normalize strftime file).file.blocks) ≡ tally (entries file.blocks)
  unfolding normalize
  tally-normalize strftime file =
      let scan = scan_blocks false 0 file.blocks in
      tally-normalized strftime file scan.kept scan.to_relocate scan.skipped
        (scan_blocks-Tallied false 0 file.blocks tt)
