-- ===== src/Questions/Resolve/Laws.antt =====
-- What `resolve` of packages/nauro-core/src/nauro_core/questions.py changes.
use nauro.Base.{
  ◌≡◌, refl, ap, ◌∙◌, false, not, ◌&&◌, List, [], ◌∷◌, ◌++◌, Text, ltb, contains, any, select,
  if◌then◌else◌, text_eq, ok, arith, Bool-cases, inl, inr,
}
use nauro.Questions.{
  ResolvedRef, Block, header_block, prose_block, entry_block, triple_hash_block, unparsable_block,
  OpenQuestionsFile,
}
use nauro.Questions.Resolve.{
  before_divider, has_divider, is_divider, entries, unresolved_entries, entry_id, is_ambiguous,
  flips, flip_entry, resolve_blocks, new_divider, with_divider, ResolveResult, resolve_requested,
  resolve_unless, requested_ids, resolve,
}

module _ {Stamp Day : Type 0} (strftime : Stamp → Text) (requested : List Text) where
  abbrev pub flip_block : ResolvedRef Day → Block Stamp Day → Block Stamp Day
  flip_block ref b = if flips strftime requested b then flip_entry ref b else b

  pub flips-flip_block :
      (ref : ResolvedRef Day) (b : Block Stamp Day)
      → flips strftime requested (flip_block ref b) ≡ false
  unfolding flips flip_entry entry_id
  flips-flip_block ref (entry_block e) =
      elim (Bool-cases (flips strftime requested (entry_block e))) [
        | inl flipped ↦ rw flipped (ground arith)
        | inr kept ↦ rw kept kept
      ]
  flips-flip_block ref (header_block t d) = refl
  flips-flip_block ref (prose_block ls) = refl
  flips-flip_block ref (triple_hash_block ls i) = refl
  flips-flip_block ref (unparsable_block ls) = refl

  is_divider-flip_block :
      (ref : ResolvedRef Day) (b : Block Stamp Day) → is_divider (flip_block ref b) ≡ is_divider b
  unfolding flips flip_entry
  is_divider-flip_block ref (entry_block e) = ground arith
  is_divider-flip_block ref (header_block t d) = refl
  is_divider-flip_block ref (prose_block ls) = refl
  is_divider-flip_block ref (triple_hash_block ls i) = refl
  is_divider-flip_block ref (unparsable_block ls) = refl

  -- no block of a document changes when it is resolved again
  pub resolve_blocks_twice :
      (ref again : ResolvedRef Day) (blocks : List (Block Stamp Day))
      → resolve_blocks strftime requested again (resolve_blocks strftime requested ref blocks)
        ≡ resolve_blocks strftime requested ref blocks
  unfolding resolve_blocks
  resolve_blocks_twice ref again [] = refl
  resolve_blocks_twice ref again (b ∷ blocks) =
      rw (flips-flip_block ref b)
        (ap (λ bs. flip_block ref b ∷ bs) (resolve_blocks_twice ref again blocks))

  pub any-flips-resolve_blocks :
      (ref : ResolvedRef Day) (blocks : List (Block Stamp Day))
      → any
          (flips strftime requested)
          (before_divider (resolve_blocks strftime requested ref blocks))
        ≡ false
  unfolding resolve_blocks before_divider any
  any-flips-resolve_blocks ref [] = refl
  any-flips-resolve_blocks ref (b ∷ blocks) =
      ground (arith, flips-flip_block ref b, any-flips-resolve_blocks ref blocks)

  pub has_divider-resolve_blocks :
      (ref : ResolvedRef Day) (blocks : List (Block Stamp Day))
      → has_divider (resolve_blocks strftime requested ref blocks) ≡ has_divider blocks
  unfolding resolve_blocks has_divider any
  has_divider-resolve_blocks ref [] = refl
  has_divider-resolve_blocks ref (b ∷ blocks) =
      rw (is_divider-flip_block ref b, has_divider-resolve_blocks ref blocks)

  unresolved_entries-resolve_blocks :
      (ref : ResolvedRef Day) (blocks : List (Block Stamp Day))
      → unresolved_entries (resolve_blocks strftime requested ref blocks)
        ≡ select (λ e. not (contains requested (entry_id strftime e))) (unresolved_entries blocks)
  unfolding resolve_blocks unresolved_entries entries select flips flip_entry
  unresolved_entries-resolve_blocks ref [] = refl
  unresolved_entries-resolve_blocks ref (entry_block e ∷ blocks) =
      ground (arith, unresolved_entries-resolve_blocks ref blocks)
  unresolved_entries-resolve_blocks ref (header_block t d ∷ blocks) =
      unresolved_entries-resolve_blocks ref blocks
  unresolved_entries-resolve_blocks ref (prose_block ls ∷ blocks) =
      unresolved_entries-resolve_blocks ref blocks
  unresolved_entries-resolve_blocks ref (triple_hash_block ls i ∷ blocks) =
      unresolved_entries-resolve_blocks ref blocks
  unresolved_entries-resolve_blocks ref (unparsable_block ls ∷ blocks) =
      unresolved_entries-resolve_blocks ref blocks

  -- what a new divider leaves as it is
  unresolved_entries-divided :
      (blocks : List (Block Stamp Day))
      → unresolved_entries (blocks ++ new_divider) ≡ unresolved_entries blocks
  unfolding unresolved_entries entries select
  unresolved_entries-divided [] = refl
  unresolved_entries-divided (entry_block e ∷ blocks) =
      ground (arith, unresolved_entries-divided blocks)
  unresolved_entries-divided (header_block t d ∷ blocks) = unresolved_entries-divided blocks
  unresolved_entries-divided (prose_block ls ∷ blocks) = unresolved_entries-divided blocks
  unresolved_entries-divided (triple_hash_block ls i ∷ blocks) = unresolved_entries-divided blocks
  unresolved_entries-divided (unparsable_block ls ∷ blocks) = unresolved_entries-divided blocks

  unresolved_entries-with_divider :
      (blocks changed : List (Block Stamp Day))
      → unresolved_entries (with_divider strftime requested blocks changed)
        ≡ unresolved_entries changed
  unresolved_entries-with_divider blocks changed =
      elim (Bool-cases
        (not (has_divider blocks) && any (flips strftime requested) (before_divider blocks))) [
          | inl added ↦ rw added (unresolved_entries-divided changed)
          | inr unchanged ↦ rw unchanged
        ]

module _ {Stamp Day : Type 0} (strftime : Stamp → Text) where
  pub resolve_unless-eq-ok :
      (file : OpenQuestionsFile Stamp Day) (requested : List Text) (ref : ResolvedRef Day)
      (ambiguous : List Text) (result : ResolveResult Stamp Day)
      → resolve_unless strftime file requested ref ambiguous ≡ ok result
      → result.ambiguous_ids ≡ []
      → (ambiguous ≡ []) × (result ≡ resolve_requested strftime file requested ref)
  resolve_unless-eq-ok file requested ref (id ∷ ambiguous) result h e = absurd (ground arith)
  resolve_unless-eq-ok file requested ref [] result h e =
      elim (Bool-cases (ltb ref.decision_num 1)) [
        | inl refused ↦ absurd (let wrong = rw refused at h in cc)
        | inr valid ↦ let made = rw valid at h in (refl, ground arith)
      ]

  -- After a resolution that was asked for some ids, none of them ambiguous, the entries that are
  -- still unresolved are those that were and that no requested id names, in their order.
  pub unresolved_after_resolve :
      (file : OpenQuestionsFile Stamp Day) (id : Text) (ids : List Text) (ref : ResolvedRef Day)
      (result : ResolveResult Stamp Day)
      → resolve strftime file (id ∷ ids) ref ≡ ok result
      → result.ambiguous_ids ≡ []
      → unresolved_entries result.file.blocks
        ≡ select
            (λ e. not (contains (requested_ids (id ∷ ids)) (entry_id strftime e)))
            (unresolved_entries file.blocks)
  unfolding resolve
  unresolved_after_resolve file id ids ref result h e =
      let requested = requested_ids (id ∷ ids) in
      let (clear, made) =
        resolve_unless-eq-ok file requested ref
          (select (is_ambiguous strftime file.blocks) requested) result h e in
      rw made (
        unresolved_entries-with_divider strftime requested file.blocks
          (resolve_blocks strftime requested ref file.blocks)
        ∙ unresolved_entries-resolve_blocks strftime requested ref file.blocks)
