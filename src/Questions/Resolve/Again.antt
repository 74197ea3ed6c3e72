-- ===== src/Questions/Resolve/Again.antt =====
-- What a second `resolve` with the same ids does: packages/nauro-core/src/nauro_core/questions.py.
use nauro.Base.{
  ◌≡◌, refl, ap, ◌∙◌, Bool, true, false, not, ◌&&◌, ◌||◌, List, [], ◌∷◌, ◌++◌, Text, ltb, count,
  any, select, if◌then◌else◌, text_eq, ok, arith, Bool-cases, inl, inr,
}
use nauro.Questions.{
  ResolvedRef, QuestionEntry, Block, header_block, prose_block, entry_block, triple_hash_block,
  unparsable_block, OpenQuestionsFile,
}
use nauro.Questions.Resolve.{
  before_divider, has_divider, entries, is_alias, entry_id, ids_of, is_ambiguous, flips, flip_entry,
  resolve_blocks, new_divider, with_divider, ResolveResult, requested_ids, resolve,
}
use nauro.Questions.Resolve.Laws.{
  resolve_blocks_twice, any-flips-resolve_blocks, resolve_unless-eq-ok,
}

module _ {Stamp Day : Type 0} (strftime : Stamp → Text) (requested : List Text) where
  ids_of-resolve_blocks :
      (ref : ResolvedRef Day) (blocks : List (Block Stamp Day))
      → ids_of strftime (resolve_blocks strftime requested ref blocks) ≡ ids_of strftime blocks
  unfolding resolve_blocks ids_of entries flips flip_entry entry_id
  ids_of-resolve_blocks ref [] = refl
  ids_of-resolve_blocks ref (entry_block e ∷ blocks) =
      ground (arith, ids_of-resolve_blocks ref blocks)
  ids_of-resolve_blocks ref (header_block t d ∷ blocks) = ids_of-resolve_blocks ref blocks
  ids_of-resolve_blocks ref (prose_block ls ∷ blocks) = ids_of-resolve_blocks ref blocks
  ids_of-resolve_blocks ref (triple_hash_block ls i ∷ blocks) = ids_of-resolve_blocks ref blocks
  ids_of-resolve_blocks ref (unparsable_block ls ∷ blocks) = ids_of-resolve_blocks ref blocks

  ids_of-divided :
      (blocks : List (Block Stamp Day))
      → ids_of strftime (blocks ++ new_divider) ≡ ids_of strftime blocks
  unfolding ids_of entries
  ids_of-divided [] = refl
  ids_of-divided (entry_block e ∷ blocks) =
      ap (λ ids. entry_id strftime e ∷ ids) (ids_of-divided blocks)
  ids_of-divided (header_block t d ∷ blocks) = ids_of-divided blocks
  ids_of-divided (prose_block ls ∷ blocks) = ids_of-divided blocks
  ids_of-divided (triple_hash_block ls i ∷ blocks) = ids_of-divided blocks
  ids_of-divided (unparsable_block ls ∷ blocks) = ids_of-divided blocks

  -- an entry whose id stands twice among `ids` and that `id` names
  abbrev doubled : List Text → Text → QuestionEntry Stamp Day → Bool
  doubled ids id e = ltb 1 (count (entry_id strftime e) ids) && is_alias strftime id e

  any-doubled-resolve_blocks :
      (ids : List Text) (id : Text) (ref : ResolvedRef Day) (blocks : List (Block Stamp Day))
      → any (doubled ids id) (entries (resolve_blocks strftime requested ref blocks))
        ≡ any (doubled ids id) (entries blocks)
  unfolding resolve_blocks entries any flips flip_entry entry_id
  any-doubled-resolve_blocks ids id ref [] = refl
  any-doubled-resolve_blocks ids id ref (entry_block e ∷ blocks) =
      elim (Bool-cases (flips strftime requested (entry_block e))) [
        | inl flipped ↦ rw (flipped, any-doubled-resolve_blocks ids id ref blocks)
        | inr kept ↦ rw (kept, any-doubled-resolve_blocks ids id ref blocks)
      ]
  any-doubled-resolve_blocks ids id ref (header_block t d ∷ blocks) =
      any-doubled-resolve_blocks ids id ref blocks
  any-doubled-resolve_blocks ids id ref (prose_block ls ∷ blocks) =
      any-doubled-resolve_blocks ids id ref blocks
  any-doubled-resolve_blocks ids id ref (triple_hash_block ls i ∷ blocks) =
      any-doubled-resolve_blocks ids id ref blocks
  any-doubled-resolve_blocks ids id ref (unparsable_block ls ∷ blocks) =
      any-doubled-resolve_blocks ids id ref blocks

  any-doubled-divided :
      (ids : List Text) (id : Text) (blocks : List (Block Stamp Day))
      → any (doubled ids id) (entries (blocks ++ new_divider))
        ≡ any (doubled ids id) (entries blocks)
  unfolding entries any
  any-doubled-divided ids id [] = refl
  any-doubled-divided ids id (entry_block e ∷ blocks) =
      ap (λ b. doubled ids id e || b) (any-doubled-divided ids id blocks)
  any-doubled-divided ids id (header_block t d ∷ blocks) = any-doubled-divided ids id blocks
  any-doubled-divided ids id (prose_block ls ∷ blocks) = any-doubled-divided ids id blocks
  any-doubled-divided ids id (triple_hash_block ls i ∷ blocks) = any-doubled-divided ids id blocks
  any-doubled-divided ids id (unparsable_block ls ∷ blocks) = any-doubled-divided ids id blocks

  resolve_blocks-divided :
      (ref : ResolvedRef Day) (blocks : List (Block Stamp Day))
      → resolve_blocks strftime requested ref (blocks ++ new_divider)
        ≡ resolve_blocks strftime requested ref blocks ++ new_divider
  unfolding resolve_blocks flips
  resolve_blocks-divided ref [] = refl
  resolve_blocks-divided ref (b ∷ blocks) =
      ap (λ bs. (if flips strftime requested b then flip_entry ref b else b) ∷ bs)
        (resolve_blocks-divided ref blocks)

  has_divider-divided :
      (blocks : List (Block Stamp Day)) → has_divider (blocks ++ new_divider) ≡ true
  unfolding has_divider any
  has_divider-divided [] = refl
  has_divider-divided (b ∷ blocks) = ground (arith, has_divider-divided blocks)

  -- the blocks of a resolution
  abbrev after : ResolvedRef Day → List (Block Stamp Day) → List (Block Stamp Day)
  after ref blocks =
      with_divider strftime requested blocks (resolve_blocks strftime requested ref blocks)

  abbrev adds : List (Block Stamp Day) → Bool
  adds blocks = not (has_divider blocks) && any (flips strftime requested) (before_divider blocks)

  ids_of-after :
      (ref : ResolvedRef Day) (blocks : List (Block Stamp Day))
      → ids_of strftime (after ref blocks) ≡ ids_of strftime blocks
  ids_of-after ref blocks = elim (Bool-cases (adds blocks)) [
    | inl added ↦ rw added (
        ids_of-divided (resolve_blocks strftime requested ref blocks)
        ∙ ids_of-resolve_blocks ref blocks)
    | inr unchanged ↦ rw unchanged (ids_of-resolve_blocks ref blocks)
  ]

  is_ambiguous-after :
      (id : Text) (ref : ResolvedRef Day) (blocks : List (Block Stamp Day))
      → is_ambiguous strftime (after ref blocks) id ≡ is_ambiguous strftime blocks id
  unfolding is_ambiguous
  is_ambiguous-after id ref blocks = rw (ids_of-after ref blocks) (elim (Bool-cases (adds blocks)) [
    | inl added ↦ rw added (
        any-doubled-divided (ids_of strftime blocks) id
          (resolve_blocks strftime requested ref blocks)
        ∙ any-doubled-resolve_blocks (ids_of strftime blocks) id ref blocks)
    | inr unchanged ↦
        rw unchanged (any-doubled-resolve_blocks (ids_of strftime blocks) id ref blocks)
  ])

  after_twice :
      (ref again : ResolvedRef Day) (blocks : List (Block Stamp Day))
      → after again (after ref blocks) ≡ after ref blocks
  after_twice ref again blocks =
      let changed = resolve_blocks strftime requested ref blocks in
      elim (Bool-cases (adds blocks)) [
        | inl added ↦ rw added (
            rw (
              has_divider-divided changed,
              resolve_blocks-divided again changed,
              resolve_blocks_twice strftime requested ref again blocks,
            ))
        | inr unchanged ↦ rw unchanged (
            rw
              (
                any-flips-resolve_blocks strftime requested ref blocks,
                resolve_blocks_twice strftime requested ref again blocks,
              )
              (ground arith))
      ]

select_congruent :
    (p q : Text → Bool) → ((x : Text) → p x ≡ q x) → (xs : List Text) → select p xs ≡ select q xs
unfolding select
select_congruent p q same [] = refl
select_congruent p q same (x ∷ xs) = rw (same x, select_congruent p q same xs)

module _ {Stamp Day : Type 0} (strftime : Stamp → Text) where
  -- Where some ids were resolved, none of them ambiguous, to resolve them once more, by a decision
  -- whose number is valid, gives the same file and reports the same ids.
  pub resolve_twice :
      (file : OpenQuestionsFile Stamp Day) (id : Text) (ids : List Text)
      (ref again : ResolvedRef Day) (result : ResolveResult Stamp Day)
      → resolve strftime file (id ∷ ids) ref ≡ ok result
      → result.ambiguous_ids ≡ []
      → ltb again.decision_num 1 ≡ false
      → resolve strftime result.file (id ∷ ids) again ≡ ok result
  unfolding resolve
  resolve_twice file id ids ref again result h e valid =
      let requested = requested_ids (id ∷ ids) in
      let (clear, made) =
        resolve_unless-eq-ok strftime file requested ref
          (select (is_ambiguous strftime file.blocks) requested) result h e in
      let still_clear =
        select_congruent (is_ambiguous strftime (after strftime requested ref file.blocks))
          (is_ambiguous strftime file.blocks)
          (λ i. is_ambiguous-after strftime requested i ref file.blocks) requested
        ∙ clear in
      rw made (
        rw (still_clear, valid)
          (rw (
            ids_of-after strftime requested ref file.blocks,
            after_twice strftime requested ref again file.blocks,
          )))
