-- ===== src/Questions/Normalize.antt =====
-- packages/nauro-core/src/nauro_core/questions.py: `OpenQuestionsFile.normalize`. The indices of the
-- loop are positions in the list: what the loop removes with an entry directly follows it.
pub mod Laws
pub mod Order
use nauro.Base.{
  ℕ, zero, suc, Bool, true, false, not, ◌&&◌, ◌||◌, List, [], ◌∷◌, ◌++◌, map, Option, none, some,
  Text, is_space, all, strip_by, ◌==◌, text_eq, Eq, if◌then◌else◌,
}
use nauro.Questions.{
  QuestionEntry, Block, header_block, prose_block, entry_block, triple_hash_block, unparsable_block,
  OpenQuestionsFile,
}
use nauro.Questions.Resolve.{is_divider, has_divider, is_open, entry_id, new_divider}

pub record NormalizeResult (Stamp Day : Type 0) : Type 0 where
  pub file : OpenQuestionsFile Stamp Day
  pub relocated_ids : List Text
  pub skipped_prose_ids : List Text

-- what the loop collects: the blocks that stay, the entries to relocate, the entries held back
pub record Relocation (Stamp Day : Type 0) : Type 0 where
  pub kept : List (Block Stamp Day)
  pub to_relocate : List (QuestionEntry Stamp Day)
  pub skipped : List (QuestionEntry Stamp Day)

-- `not line.strip()`
abbrev pub is_blank_line : Text → Bool
is_blank_line line = strip_by is_space line == []

module _ {Stamp Day : Type 0} where
  -- how many blank blocks follow an entry, and none where prose follows
  unfoldable pub trailing_blank : List (Block Stamp Day) → Option ℕ
  trailing_blank [] = some 0
  trailing_blank (entry_block e ∷ blocks) = some 0
  trailing_blank (header_block text divider ∷ blocks) = some 0
  trailing_blank (prose_block lines ∷ blocks) =
      let rest = trailing_blank blocks in
      if all is_blank_line lines then elim rest [ none ↦ none | some n ↦ some (suc n) ] else none
  trailing_blank (triple_hash_block lines id ∷ blocks) = none
  trailing_blank (unparsable_block lines ∷ blocks) = none

  abbrev pub keep : Block Stamp Day → Relocation Stamp Day → Relocation Stamp Day
  keep b rest = record rest { kept = b ∷ rest.kept }

  abbrev pub relocate : QuestionEntry Stamp Day → Relocation Stamp Day → Relocation Stamp Day
  relocate e rest = record rest { to_relocate = e ∷ rest.to_relocate }

  abbrev pub hold_back : QuestionEntry Stamp Day → Relocation Stamp Day → Relocation Stamp Day
  hold_back e rest = record rest { kept = entry_block e ∷ rest.kept; skipped = e ∷ rest.skipped }

  -- An entry: `past` says that the divider is above it; `go k` is the rest of the loop, with the
  -- next `k` blocks removed.
  unfoldable pub scan_entry :
      Bool → QuestionEntry Stamp Day → Option ℕ → (ℕ → Relocation Stamp Day) → Relocation Stamp Day
  scan_entry past e none go =
      if past || is_open e then keep (entry_block e) (go 0) else hold_back e (go 0)
  scan_entry past e (some k) go =
      if past || is_open e then keep (entry_block e) (go 0) else relocate e (go k)

  unfoldable pub scan_blocks : Bool → ℕ → List (Block Stamp Day) → Relocation Stamp Day
  scan_blocks past k [] = record { kept = []; to_relocate = []; skipped = [] }
  scan_blocks past zero (entry_block e ∷ blocks) =
      scan_entry past e (trailing_blank blocks) (λ k. scan_blocks past k blocks)
  scan_blocks past zero (header_block text divider ∷ blocks) =
      keep (header_block text divider) (scan_blocks (past || divider) zero blocks)
  scan_blocks past zero (prose_block lines ∷ blocks) =
      keep (prose_block lines) (scan_blocks past zero blocks)
  scan_blocks past zero (triple_hash_block lines id ∷ blocks) =
      keep (triple_hash_block lines id) (scan_blocks past zero blocks)
  scan_blocks past zero (unparsable_block lines ∷ blocks) =
      keep (unparsable_block lines) (scan_blocks past zero blocks)
  scan_blocks past (suc k) (b ∷ blocks) = scan_blocks past k blocks

  unfoldable pub relocated_blocks : List (QuestionEntry Stamp Day) → List (Block Stamp Day)
  relocated_blocks [] = []
  relocated_blocks (e ∷ es) = prose_block ([] ∷ []) ∷ entry_block e ∷ relocated_blocks es

  abbrev pub is_header : Block Stamp Day → Bool
  is_header (header_block text divider) = true
  is_header _ = false

  unfoldable pub insert_before_header :
      List (Block Stamp Day) → List (Block Stamp Day) → List (Block Stamp Day)
  insert_before_header moved [] = moved
  insert_before_header moved (b ∷ blocks) =
      let rest = insert_before_header moved blocks in
      if is_header b then moved ++ b ∷ blocks else b ∷ rest

  unfoldable pub insert_after_divider :
      List (Block Stamp Day) → List (Block Stamp Day) → List (Block Stamp Day)
  insert_after_divider moved [] = moved
  insert_after_divider moved (b ∷ blocks) =
      let here = insert_before_header moved blocks in
      let rest = insert_after_divider moved blocks in if is_divider b then b ∷ here else b ∷ rest

  abbrev pub place : Bool → List (Block Stamp Day) → List (Block Stamp Day) → List (Block Stamp Day)
  place true kept moved = insert_after_divider moved kept
  place false kept moved = kept ++ new_divider ++ moved

  abbrev pub ids_by : (QuestionEntry Stamp Day → Text) → List (QuestionEntry Stamp Day) → List Text
  ids_by id es = map id es

module _ {Stamp Day : Type 0} (strftime : Stamp → Text) where
  abbrev pub normalized :
      OpenQuestionsFile Stamp Day
      → List (Block Stamp Day)
      → List (QuestionEntry Stamp Day)
      → List (QuestionEntry Stamp Day)
      → NormalizeResult Stamp Day
  normalized file kept [] skipped = record {
    file = file;
    relocated_ids = [];
    skipped_prose_ids = ids_by (entry_id strftime) skipped;
  }
  normalized file kept (e ∷ es) skipped = record {
    file = record file {
      blocks = place (has_divider file.blocks) kept (relocated_blocks (e ∷ es));
    };
    relocated_ids = ids_by (entry_id strftime) (e ∷ es);
    skipped_prose_ids = ids_by (entry_id strftime) skipped;
  }

  unfoldable pub normalize : OpenQuestionsFile Stamp Day → NormalizeResult Stamp Day
  normalize file =
      let scan = scan_blocks false 0 file.blocks in
      normalized file scan.kept scan.to_relocate scan.skipped
