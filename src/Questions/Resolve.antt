-- ===== src/Questions/Resolve.antt =====
-- packages/nauro-core/src/nauro_core/questions.py: the ids of a document, and
-- `OpenQuestionsFile.resolve`. `strftime` with the format of a legacy id is a parameter.
pub mod Laws
pub mod Again
use nauro.Base.{
  ℕ, suc, ◌+◌, ◌≡◌, refl, Bool, true, false, not, ◌&&◌, ◌||◌, List, [], ◌∷◌, ◌++◌, map, Option,
  none, some, Text, codes, nat_beq, ltb, contains, count, any, select, starts_with, lstrip_by,
  is_space, ◌==◌, if◌then◌else◌, text_eq, Eq, Result, ok, err,
}
use nauro.Questions.{
  ResolvedRef, QuestionEntry, Block, header_block, prose_block, entry_block, OpenQuestionsFile,
}
use nauro.Questions.Ids.{canonicalize_question_reference, question_label}

-- `list(dict.fromkeys(xs))`
unfoldable pub unique : List Text → List Text → List Text
unique seen [] = []
unique seen (x ∷ xs) =
    let pass = unique seen xs in
    let fresh = unique (x ∷ seen) xs in if contains seen x then pass else x ∷ fresh

abbrev pub resolved_header : Text
resolved_header = codes "## Resolved"

abbrev pub pointer_flag_prefixes : List Text
pointer_flag_prefixes = codes "BRIEF:" ∷ codes "RESUME:" ∷ codes "SELECT:" ∷ []

abbrev pub requested_ids : List Text → List Text
requested_ids ids = unique [] (map canonicalize_question_reference ids)

module _ {Stamp Day : Type 0} where
  abbrev pub is_divider : Block Stamp Day → Bool
  is_divider (header_block text divider) = divider
  is_divider _ = false

  -- `resolved_divider_idx` is the number of these blocks, where there is a divider
  unfoldable pub before_divider : List (Block Stamp Day) → List (Block Stamp Day)
  before_divider [] = []
  before_divider (b ∷ blocks) =
      let rest = before_divider blocks in if is_divider b then [] else b ∷ rest

  unfoldable pub after_divider : List (Block Stamp Day) → List (Block Stamp Day)
  after_divider [] = []
  after_divider (b ∷ blocks) =
      let rest = after_divider blocks in if is_divider b then blocks else rest

  unfoldable pub has_divider : List (Block Stamp Day) → Bool
  has_divider = any is_divider

  unfoldable pub entries : List (Block Stamp Day) → List (QuestionEntry Stamp Day)
  entries [] = []
  entries (entry_block e ∷ blocks) = e ∷ entries blocks
  entries (_ ∷ blocks) = entries blocks

  abbrev pub is_open : QuestionEntry Stamp Day → Bool
  is_open e = elim e.resolved_by [ none ↦ true | some ref ↦ false ]

  unfoldable pub unresolved_entries : List (Block Stamp Day) → List (QuestionEntry Stamp Day)
  unresolved_entries blocks = select is_open (entries blocks)

  unfoldable pub is_discovery_pointer : QuestionEntry Stamp Day → Bool
  is_discovery_pointer e =
      any (λ prefix. starts_with prefix (lstrip_by is_space e.body)) pointer_flag_prefixes

  unfoldable pub genuine_open_entries : List (Block Stamp Day) → List (QuestionEntry Stamp Day)
  genuine_open_entries blocks =
      select (λ e. not (is_discovery_pointer e)) (unresolved_entries blocks)

  unfoldable pub flip_entry : ResolvedRef Day → Block Stamp Day → Block Stamp Day
  flip_entry ref (entry_block e) = entry_block (record e { resolved_by = some ref })
  flip_entry ref b = b

  abbrev pub new_divider : List (Block Stamp Day)
  new_divider = prose_block ([] ∷ []) ∷ header_block resolved_header true ∷ []

  module _ (strftime : Stamp → Text) where
    -- The bounds on the number keep `format_question_id` from raising; an entry has a number or a
    -- time stamp.
    unfoldable pub entry_id : QuestionEntry Stamp Day → Text
    entry_id e = elim e.num [
      | some number ↦ question_label number
      | none ↦ elim e.timestamp [ some stamp ↦ strftime stamp | none ↦ [] ]
    ]

    unfoldable pub ids_of : List (Block Stamp Day) → List Text
    ids_of blocks = map entry_id (entries blocks)

    unfoldable pub open_ids : List (Block Stamp Day) → List Text
    open_ids blocks = ids_of (before_divider blocks)

    unfoldable pub resolved_ids : List (Block Stamp Day) → List Text
    resolved_ids blocks = ids_of (after_divider blocks)

    abbrev pub is_alias : Text → QuestionEntry Stamp Day → Bool
    is_alias id e =
        entry_id e == id || elim e.source_question_id [ some source ↦ source == id | none ↦ false ]

    -- `id in self.ambiguous_ids`: the id, or the id as it was read, of an entry whose id stands twice
    unfoldable pub is_ambiguous : List (Block Stamp Day) → Text → Bool
    is_ambiguous blocks id =
        any (λ e. ltb 1 (count (entry_id e) (ids_of blocks)) && is_alias id e) (entries blocks)

    -- the entries that the loop of `resolve` changes
    unfoldable pub flips : List Text → Block Stamp Day → Bool
    flips requested (entry_block e) = contains requested (entry_id e) && is_open e
    flips requested _ = false

    unfoldable pub resolve_blocks :
        List Text → ResolvedRef Day → List (Block Stamp Day) → List (Block Stamp Day)
    resolve_blocks requested ref [] = []
    resolve_blocks requested ref (b ∷ blocks) =
        (if flips requested b then flip_entry ref b else b) ∷ resolve_blocks requested ref blocks

    abbrev pub with_divider :
        List Text → List (Block Stamp Day) → List (Block Stamp Day) → List (Block Stamp Day)
    with_divider requested blocks changed =
        if not (has_divider blocks) && any (flips requested) (before_divider blocks)
        then changed ++ new_divider
        else changed

pub record ResolveResult (Stamp Day : Type 0) : Type 0 where
  pub file : OpenQuestionsFile Stamp Day
  pub moved_ids : List Text
  pub unknown_ids : List Text
  pub ambiguous_ids : List Text

-- `ResolvedRef` refuses a decision's number below 1
pub data ResolveError : Type 0 where
  invalid_decision_num : ResolveError

module _ {Stamp Day : Type 0} (strftime : Stamp → Text) where
  abbrev pub resolve_requested :
      OpenQuestionsFile Stamp Day → List Text → ResolvedRef Day → ResolveResult Stamp Day
  resolve_requested file requested ref = record {
    file = record file {
      blocks =
          with_divider strftime requested file.blocks
            (resolve_blocks strftime requested ref file.blocks);
    };
    moved_ids = select (contains (ids_of strftime file.blocks)) requested;
    unknown_ids = select (λ id. not (contains (ids_of strftime file.blocks) id)) requested;
    ambiguous_ids = [];
  }

  abbrev pub resolve_unless :
      OpenQuestionsFile Stamp Day
      → List Text
      → ResolvedRef Day
      → List Text
      → Result ResolveError (ResolveResult Stamp Day)
  resolve_unless file requested ref (id ∷ ambiguous) =
      ok (record { file = file; moved_ids = []; unknown_ids = []; ambiguous_ids = id ∷ ambiguous })
  resolve_unless file requested ref [] =
      if ltb ref.decision_num 1
      then err invalid_decision_num
      else ok (resolve_requested file requested ref)

  unfoldable pub resolve :
      OpenQuestionsFile Stamp Day
      → List Text
      → ResolvedRef Day
      → Result ResolveError (ResolveResult Stamp Day)
  resolve file [] ref =
      ok (record { file = file; moved_ids = []; unknown_ids = []; ambiguous_ids = [] })
  resolve file (id ∷ ids) ref =
      let requested = requested_ids (id ∷ ids) in
      resolve_unless file requested ref (select (is_ambiguous strftime file.blocks) requested)
