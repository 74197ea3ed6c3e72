-- ===== src/Questions/Normalize/Order.antt =====
-- Which entries `normalize` of packages/nauro-core/src/nauro_core/questions.py leaves in place.
use mathlib.Core.List.{append-nil}
use nauro.Base.{
  ℕ, zero, suc, ◌≡◌, refl, sym, ap, ◌∙◌, Bool, true, false, ◌||◌, List, [], ◌∷◌, ◌++◌, Option, none,
  some, Text, select, All, arith, Bool-cases, inl, inr,
}
use nauro.Questions.{
  QuestionEntry, Block, header_block, prose_block, entry_block, triple_hash_block, unparsable_block,
  OpenQuestionsFile,
}
use nauro.Questions.Resolve.{
  is_divider, has_divider, is_open, entries, unresolved_entries, new_divider,
}
use nauro.Questions.Normalize.{
  Relocation, trailing_blank, keep, relocate, scan_entry, scan_blocks, relocated_blocks, is_header,
  insert_before_header, insert_after_divider, place, normalized, normalize,
}
use nauro.Questions.Normalize.Laws.{Removes, trailing_blank-Removes}

module _ {Stamp Day : Type 0} where
  abbrev Closed : QuestionEntry Stamp Day → Type 0
  Closed e = is_open e ≡ false

  unresolved_entries-append :
      (xs ys : List (Block Stamp Day))
      → unresolved_entries (xs ++ ys) ≡ unresolved_entries xs ++ unresolved_entries ys
  unfolding unresolved_entries entries select
  unresolved_entries-append [] ys = refl
  unresolved_entries-append (entry_block e ∷ xs) ys = elim (Bool-cases (is_open e)) [
    | inl unresolved ↦ rw unresolved (ap (λ es. e ∷ es) (unresolved_entries-append xs ys))
    | inr closed ↦ rw closed (unresolved_entries-append xs ys)
  ]
  unresolved_entries-append (header_block t d ∷ xs) ys = unresolved_entries-append xs ys
  unresolved_entries-append (prose_block ls ∷ xs) ys = unresolved_entries-append xs ys
  unresolved_entries-append (triple_hash_block ls i ∷ xs) ys = unresolved_entries-append xs ys
  unresolved_entries-append (unparsable_block ls ∷ xs) ys = unresolved_entries-append xs ys

  unresolved_entries-relocated_blocks :
      (es : List (QuestionEntry Stamp Day))
      → All Closed es
      → unresolved_entries (relocated_blocks es) ≡ []
  unfolding unresolved_entries entries select relocated_blocks
  unresolved_entries-relocated_blocks [] h = refl
  unresolved_entries-relocated_blocks (e ∷ es) h =
      rw (h.0) (unresolved_entries-relocated_blocks es h.1)

  unresolved_entries-congruent :
      (b : Block Stamp Day) (xs ys : List (Block Stamp Day))
      → unresolved_entries xs ≡ unresolved_entries ys
      → unresolved_entries (b ∷ xs) ≡ unresolved_entries (b ∷ ys)
  unresolved_entries-congruent b xs ys h =
      unresolved_entries-append (b ∷ []) xs
      ∙ ap (λ es. unresolved_entries (b ∷ []) ++ es) h
      ∙ sym (unresolved_entries-append (b ∷ []) ys)

  module _ (moved : List (Block Stamp Day)) (closed : unresolved_entries moved ≡ []) where
    unresolved_entries-insert_before_header :
        (blocks : List (Block Stamp Day))
        → unresolved_entries (insert_before_header moved blocks) ≡ unresolved_entries blocks
    unfolding insert_before_header
    unresolved_entries-insert_before_header [] =
        closed ∙ unfold unresolved_entries in unfold entries in unfold select in refl
    unresolved_entries-insert_before_header (b ∷ blocks) = elim (Bool-cases (is_header b)) [
      | inl header ↦ rw header (
          unresolved_entries-append moved (b ∷ blocks)
          ∙ ap (λ es. es ++ unresolved_entries (b ∷ blocks)) closed)
      | inr other ↦ rw other (
          unresolved_entries-congruent b (insert_before_header moved blocks) blocks
            (unresolved_entries-insert_before_header blocks))
    ]

    unresolved_entries-insert_after_divider :
        (blocks : List (Block Stamp Day))
        → unresolved_entries (insert_after_divider moved blocks) ≡ unresolved_entries blocks
    unfolding insert_after_divider
    unresolved_entries-insert_after_divider [] =
        closed ∙ unfold unresolved_entries in unfold entries in unfold select in refl
    unresolved_entries-insert_after_divider (b ∷ blocks) = elim (Bool-cases (is_divider b)) [
      | inl divider ↦ rw divider (
          unresolved_entries-congruent b (insert_before_header moved blocks) blocks
            (unresolved_entries-insert_before_header blocks))
      | inr other ↦ rw other (
          unresolved_entries-congruent b (insert_after_divider moved blocks) blocks
            (unresolved_entries-insert_after_divider blocks))
    ]

    unresolved_entries-place :
        (divided : Bool) (kept : List (Block Stamp Day))
        → unresolved_entries (place divided kept moved) ≡ unresolved_entries kept
    unfolding unresolved_entries entries select
    unresolved_entries-place true kept = unresolved_entries-insert_after_divider kept
    unresolved_entries-place false kept =
        unresolved_entries-append (kept ++ new_divider) moved
        ∙ ap (λ es. unresolved_entries (kept ++ new_divider) ++ es) closed
        ∙ append-nil (unresolved_entries (kept ++ new_divider))
        ∙ unresolved_entries-append kept new_divider
        ∙ append-nil (unresolved_entries kept)

  -- What the loop relocates is resolved, and what it keeps has the unresolved entries.
  abbrev Ordered : List (Block Stamp Day) → Relocation Stamp Day → Type 0
  Ordered blocks scan =
      (unresolved_entries scan.kept ≡ unresolved_entries blocks) × All Closed scan.to_relocate

  abbrev Blank : ℕ → List (Block Stamp Day) → Type 0
  Blank k blocks = Removes (λ e. true) k blocks

  keep-Ordered :
      (b : Block Stamp Day) (blocks : List (Block Stamp Day)) (scan : Relocation Stamp Day)
      → Ordered blocks scan
      → Ordered (b ∷ blocks) (keep b scan)
  keep-Ordered b blocks scan h = (unresolved_entries-congruent b scan.kept blocks h.0, h.1)

  relocate-Ordered :
      (e : QuestionEntry Stamp Day) (blocks : List (Block Stamp Day)) (scan : Relocation Stamp Day)
      → Closed e
      → Ordered blocks scan
      → Ordered (entry_block e ∷ blocks) (relocate e scan)
  unfolding unresolved_entries entries select
  relocate-Ordered e blocks scan closed h = (rw closed h.0, (closed, h.1))

  scan_entry-Ordered :
      (past : Bool) (e : QuestionEntry Stamp Day) (blocks : List (Block Stamp Day))
      (trailing : Option ℕ) (go : ℕ → Relocation Stamp Day)
      → trailing_blank blocks ≡ trailing
      → ((k : ℕ) → Blank k blocks → Ordered blocks (go k))
      → Ordered (entry_block e ∷ blocks) (scan_entry past e trailing go)
  unfolding scan_entry
  scan_entry-Ordered past e blocks none go h k = elim (Bool-cases (past || is_open e)) [
    | inl stays ↦ rw stays (keep-Ordered (entry_block e) blocks (go 0) (k 0 tt))
    | inr held ↦ rw held (keep-Ordered (entry_block e) blocks (go 0) (k 0 tt))
  ]
  scan_entry-Ordered past e blocks (some n) go h k = elim (Bool-cases (past || is_open e)) [
    | inl stays ↦ rw stays (keep-Ordered (entry_block e) blocks (go 0) (k 0 tt))
    | inr moves ↦ rw moves (
        relocate-Ordered e blocks (go n) (ground arith)
          (k n (trailing_blank-Removes (λ q. true) blocks n h)))
  ]

  prose-Ordered :
      (ls : List Text) (blocks : List (Block Stamp Day)) (scan : Relocation Stamp Day)
      → Ordered blocks scan
      → Ordered (prose_block ls ∷ blocks) scan
  unfolding unresolved_entries entries
  prose-Ordered ls blocks scan h = h

  scan_blocks-Ordered :
      (past : Bool) (k : ℕ) (blocks : List (Block Stamp Day))
      → Blank k blocks
      → Ordered blocks (scan_blocks past k blocks)
  unfolding scan_blocks
  scan_blocks-Ordered past zero [] r = (refl, tt)
  scan_blocks-Ordered past (suc k) [] r = absurd r
  scan_blocks-Ordered past zero (entry_block e ∷ blocks) r =
      scan_entry-Ordered past e blocks (trailing_blank blocks) (λ k. scan_blocks past k blocks) refl
        (λ k. scan_blocks-Ordered past k blocks)
  scan_blocks-Ordered past zero (header_block t d ∷ blocks) r =
      keep-Ordered (header_block t d) blocks (scan_blocks (past || d) 0 blocks)
        (scan_blocks-Ordered (past || d) 0 blocks tt)
  scan_blocks-Ordered past zero (prose_block ls ∷ blocks) r =
      keep-Ordered (prose_block ls) blocks (scan_blocks past 0 blocks)
        (scan_blocks-Ordered past 0 blocks tt)
  scan_blocks-Ordered past zero (triple_hash_block ls i ∷ blocks) r =
      keep-Ordered (triple_hash_block ls i) blocks (scan_blocks past 0 blocks)
        (scan_blocks-Ordered past 0 blocks tt)
  scan_blocks-Ordered past zero (unparsable_block ls ∷ blocks) r =
      keep-Ordered (unparsable_block ls) blocks (scan_blocks past 0 blocks)
        (scan_blocks-Ordered past 0 blocks tt)
  scan_blocks-Ordered past (suc k) (prose_block ls ∷ blocks) r =
      prose-Ordered ls blocks (scan_blocks past k blocks) (scan_blocks-Ordered past k blocks r)
  scan_blocks-Ordered past (suc k) (entry_block e ∷ blocks) r = absurd r
  scan_blocks-Ordered past (suc k) (header_block t d ∷ blocks) r = absurd r
  scan_blocks-Ordered past (suc k) (triple_hash_block ls i ∷ blocks) r = absurd r
  scan_blocks-Ordered past (suc k) (unparsable_block ls ∷ blocks) r = absurd r

  unresolved_entries-normalized :
      (strftime : Stamp → Text) (file : OpenQuestionsFile Stamp Day) (kept : List (Block Stamp Day))
      (moved skipped : List (QuestionEntry Stamp Day))
      → unresolved_entries kept ≡ unresolved_entries file.blocks
      → All Closed moved
      → unresolved_entries (normalized strftime file kept moved skipped).file.blocks
        ≡ unresolved_entries file.blocks
  unresolved_entries-normalized strftime file kept [] skipped h c = refl
  unresolved_entries-normalized strftime file kept (e ∷ es) skipped h c =
      unresolved_entries-place (relocated_blocks (e ∷ es))
        (unresolved_entries-relocated_blocks (e ∷ es) c) (has_divider file.blocks) kept
      ∙ h

  -- A normalized document has the unresolved entries that it had, each as it was, in their order.
  pub unresolved_entries-normalize :
      (strftime : Stamp → Text) (file : OpenQuestionsFile Stamp Day)
      → unresolved_entries (normalize strftime file).file.blocks ≡ unresolved_entries file.blocks
  unfolding normalize
  unresolved_entries-normalize strftime file =
      let scan = scan_blocks false 0 file.blocks in
      let ordered = scan_blocks-Ordered false 0 file.blocks tt in
      unresolved_entries-normalized strftime file scan.kept scan.to_relocate scan.skipped ordered.0
        ordered.1
