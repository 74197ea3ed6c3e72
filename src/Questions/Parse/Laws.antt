-- ===== src/Questions/Parse/Laws.antt =====
-- What `format` gives back of a document that `parse` read:
-- packages/nauro-core/src/nauro_core/questions.py.
use mathlib.Core.List.{append_assoc}
use nauro.Questions.Legacy.{extract_embedded_id}
use nauro.Base.{
  ℕ, zero, suc, ◌≡◌, refl, sym, ap, ◌∙◌, List, [], ◌∷◌, ◌++◌, Option, none, some, Text, codes,
  is_space, rstrip_by, starts_with, drop, length, cut, lstrip_by, split, join, join-split, Bool,
  true, false, All, if◌then◌else◌, arith, Bool-cases, inl, inr,
}
use nauro.Questions.{
  ResolvedRef, QuestionEntry, Block, header_block, entry_block, triple_hash_block, unparsable_block,
}
use nauro.Questions.Parse.Heads.{Rendered, IsHead, head-Rendered}
use nauro.Questions.Parse.{
  LineKind, section, topic, dash, other, line_kind, topic_lines, continuation_lines,
  parse_identified, parse_resolved, parse_bracketed, parse_entry, parse, format, parse_header,
  parse_lines, parse_line, place_entry, is_resolved_header, render_lines, block_lines, flush_prose,
  is_blank, parse_identified_after, resolved_prefix_token,
}

-- what a topic takes, by the kind of the line
take_topic :
    (kind : LineKind) (blank : Bool) (line : Text) (lines rest : List Text)
    → rest ++ drop (length rest) lines ≡ lines
    → (let taken = if blank then [] else elim kind [ other ↦ line ∷ rest | _ ↦ [] ] in
        taken ++ drop (length taken) (line ∷ lines) ≡ line ∷ lines)
take_topic kind true line lines rest h = refl
take_topic section false line lines rest h = refl
take_topic topic false line lines rest h = refl
take_topic dash false line lines rest h = refl
take_topic other false line lines rest h = ap (λ ls. line ∷ ls) h

-- the lines that a topic or an entry takes, and the lines left after them
drop-topic_lines :
    (lines : List Text) → topic_lines lines ++ drop (length (topic_lines lines)) lines ≡ lines
unfolding topic_lines
drop-topic_lines [] = refl
drop-topic_lines (line ∷ lines) =
    take_topic (line_kind line) (is_blank line) line lines (topic_lines lines)
      (drop-topic_lines lines)

drop-continuation_lines :
    (lines : List Text)
    → continuation_lines lines ++ drop (length (continuation_lines lines)) lines ≡ lines
unfolding continuation_lines
drop-continuation_lines [] = refl
drop-continuation_lines (line ∷ lines) = elim (Bool-cases (starts_with (codes "  ") line)) [
  | inl taken ↦ rw taken (ap (λ ls. line ∷ ls) (drop-continuation_lines lines))
  | inr left ↦ rw left
]

module _ {Stamp Day : Type 0} (strptime : Text → Option Stamp) (strftime : Stamp → Text)
    (fromisoformat : Text → Option Day) (isoformat : Day → Text) (lower : Text → Text) where
  parse_identified-continuation :
      (id_str body : Text) (lines : List Text) (ref : Option (ResolvedRef Day))
      (e : QuestionEntry Stamp Day)
      → parse_identified strptime strftime id_str body lines ref ≡ some e
      → e.continuation ≡ lines
  unfolding parse_identified
  parse_identified-continuation id_str body lines ref e h = ground arith

  parse_identified_after-continuation :
      (found : Text × Option Text) (lines : List Text) (ref : ResolvedRef Day)
      (e : QuestionEntry Stamp Day)
      → parse_identified_after strptime strftime found lines ref ≡ some e
      → e.continuation ≡ lines
  parse_identified_after-continuation (id_str, none) lines ref e h = cc
  parse_identified_after-continuation (id_str, some body) lines ref e h =
      parse_identified-continuation id_str (lstrip_by is_space body) lines (some ref) e h

  parse_resolved-continuation :
      (ref : Option (ResolvedRef Day)) (after : Text) (lines : List Text)
      (e : QuestionEntry Stamp Day)
      → parse_resolved strptime strftime ref after lines ≡ some e
      → e.continuation ≡ lines
  unfolding parse_resolved
  parse_resolved-continuation none after lines e h = cc
  parse_resolved-continuation (some ref) [] lines e h = cc
  parse_resolved-continuation (some ref) (c ∷ after) lines e h =
      elim (Bool-cases (starts_with (codes "[") (c ∷ after))) [
        | inl opened ↦
            parse_identified_after-continuation (cut b']' after) lines ref e (rw opened at h)
        | inr closed ↦ let wrong = rw closed at h in cc
      ]

  parse_bracketed-continuation :
      (first : Text) (after : Option Text) (lines : List Text) (e : QuestionEntry Stamp Day)
      → parse_bracketed strptime strftime fromisoformat first after lines ≡ some e
      → e.continuation ≡ continuation_lines lines
  unfolding parse_bracketed
  parse_bracketed-continuation first none lines e h = cc
  parse_bracketed-continuation first (some after) lines e h =
      elim (Bool-cases (starts_with resolved_prefix_token first)) [
        | inl resolved ↦
            parse_resolved-continuation _ _ (continuation_lines lines) e (rw resolved at h)
        | inr direct ↦
            parse_identified-continuation first _ (continuation_lines lines) none e (rw direct at h)
      ]

  parse_entry-continuation :
      (line : Text) (lines : List Text) (e : QuestionEntry Stamp Day)
      → parse_entry strptime strftime fromisoformat line lines ≡ some e
      → e.continuation ≡ continuation_lines lines
  unfolding parse_entry
  parse_entry-continuation line lines e h =
      parse_bracketed-continuation (cut b']' (drop 3 line)).0 (cut b']' (drop 3 line)).1 lines e h

  -- A line comes back as it was written: a section's has no blanks at its end, and one that begins
  -- like an entry is the head of one as it is written, or is read as none.
  abbrev pub IsStable : Text → Type 0
  IsStable line =
      (line_kind line ≡ section → rstrip_by is_space line ≡ line)
      × (line_kind line ≡ dash → IsHead strptime strftime fromisoformat isoformat line)

  abbrev rendered : List (Block Stamp Day) → List Text
  rendered = block_lines strptime strftime isoformat

  rendered-flush_prose :
      (pending : List Text) (blocks : List (Block Stamp Day))
      → rendered (flush_prose strptime strftime pending blocks) ≡ pending ++ rendered blocks
  unfolding block_lines render_lines
  rendered-flush_prose [] blocks = refl
  rendered-flush_prose (line ∷ pending) blocks = refl

  abbrev parsed : ℕ → List Text → List Text → List (Block Stamp Day)
  parsed = parse_lines strptime strftime fromisoformat lower

  -- What the rest of the loop gives back.
  abbrev Renders : List Text → (ℕ → List Text → List (Block Stamp Day)) → Type 0
  Renders lines go =
      (skip : ℕ) (pending : List Text) → rendered (go skip pending) ≡ pending ++ drop skip lines

  entry_rendered :
      (entry : QuestionEntry Stamp Day) (line : Text) (lines : List Text)
      (go : ℕ → List Text → List (Block Stamp Day))
      → parse_entry strptime strftime fromisoformat line lines ≡ some entry
      → Rendered strptime strftime fromisoformat isoformat line
      → Renders lines go
      → rendered (entry_block entry ∷ go (length entry.continuation) []) ≡ line ∷ lines
  unfolding block_lines render_lines
  entry_rendered entry line lines go e s r =
      let taken : entry.continuation ≡ continuation_lines lines =
        parse_entry-continuation line lines entry e in
      rw (s lines entry e) (
        ap (λ ls. line ∷ ls)
          (ap (λ ls. entry.continuation ++ ls) (r (length entry.continuation) [])
            ∙ ap (λ ls. ls ++ drop (length ls) lines) taken
            ∙ drop-continuation_lines lines))

  place_entry-rendered :
      (found : Option (QuestionEntry Stamp Day)) (pending : List Text) (line : Text)
      (lines : List Text) (go : ℕ → List Text → List (Block Stamp Day))
      → parse_entry strptime strftime fromisoformat line lines ≡ found
      → Rendered strptime strftime fromisoformat isoformat line
      → Renders lines go
      → rendered (place_entry strptime strftime fromisoformat lower found pending line go)
        ≡ pending ++ line ∷ lines
  unfolding place_entry block_lines render_lines
  place_entry-rendered none pending line lines go e s r =
      rendered-flush_prose pending (unparsable_block (line ∷ []) ∷ go 0 [])
      ∙ ap (λ ls. pending ++ ls) (ap (λ ls. line ∷ ls) (r 0 []))
  place_entry-rendered (some entry) pending line lines go e s r =
      rendered-flush_prose pending (entry_block entry ∷ go (length entry.continuation) [])
      ∙ ap (λ ls. pending ++ ls) (entry_rendered entry line lines go e s r)

  parse_line-rendered :
      (kind : LineKind) (pending : List Text) (line : Text) (lines : List Text)
      (go : ℕ → List Text → List (Block Stamp Day))
      → line_kind line ≡ kind
      → IsStable line
      → Renders lines go
      → rendered (parse_line strptime strftime fromisoformat lower kind pending line lines go)
        ≡ pending ++ line ∷ lines
  unfolding parse_line block_lines render_lines
  parse_line-rendered section pending line lines go k s r =
      rendered-flush_prose pending
        (header_block (rstrip_by is_space line) (is_resolved_header lower line) ∷ go 0 [])
      ∙ ap (λ ls. pending ++ ls) (rw (s.0 k) (ap (λ ls. line ∷ ls) (r 0 [])))
  parse_line-rendered topic pending line lines go k s r =
      rendered-flush_prose pending (
        triple_hash_block (line ∷ topic_lines lines)
          (extract_embedded_id strptime strftime none line)
        ∷ go (length (topic_lines lines)) [])
      ∙ ap (λ ls. pending ++ ls)
          (ap (λ ls. line ∷ ls)
            (ap (λ ls. topic_lines lines ++ ls) (r (length (topic_lines lines)) [])
              ∙ drop-topic_lines lines))
  parse_line-rendered dash pending line lines go k s r =
      place_entry-rendered (parse_entry strptime strftime fromisoformat line lines) pending line
        lines go refl (head-Rendered strptime strftime fromisoformat isoformat line (s.1 k)) r
  parse_line-rendered other pending line lines go k s r =
      r 0 (pending ++ line ∷ []) ∙ append_assoc pending (line ∷ []) lines

  -- Where every line is stable, the lines of a document come back in their order, after the prose
  -- that was pending and without the lines that were skipped.
  pub rendered-parse_lines :
      (skip : ℕ) (pending lines : List Text)
      → All IsStable lines
      → rendered (parsed skip pending lines) ≡ pending ++ drop skip lines
  unfolding parse_lines block_lines
  rendered-parse_lines zero pending [] s = rendered-flush_prose pending []
  rendered-parse_lines (suc skip) pending [] s = rendered-flush_prose pending []
  rendered-parse_lines (suc skip) pending (line ∷ lines) s =
      rendered-parse_lines skip pending lines s.1
  rendered-parse_lines zero pending (line ∷ lines) s =
      parse_line-rendered (line_kind line) pending line lines
        (λ skip prose. parsed skip prose lines) refl s.0
        (λ skip prose. rendered-parse_lines skip prose lines s.1)

  -- A line that opens a document: no blank line, no section, and no blanks at its end.
  abbrev pub IsTitle : Text → Type 0
  IsTitle line =
      (is_blank line ≡ false)
      × (starts_with (codes "# ") line ≡ true)
      × (starts_with (codes "## ") line ≡ false)
      × (rstrip_by is_space line ≡ line)

  parse_header-IsTitle :
      (line : Text) (lines : List Text) → IsTitle line → parse_header (line ∷ lines) ≡ (line, lines)
  unfolding parse_header
  parse_header-IsTitle line lines (filled, hashed, single, trimmed) =
      rw (filled, hashed, single, trimmed)

  -- A document is formatted, once parsed, to the text that it was, if its first line is a title
  -- with no blanks at its end, no section's line has blanks at its end, and each line that begins
  -- with `- [` is read as no entry or is written as the head of one: `- [id] body`, where the id
  -- does not begin with `Resolved by D`, or `- [Resolved by Dn on date] [id] body`, where n is
  -- positive and written in at most 4300 digits without leading zeros, and the date is the text of
  -- one that is read back from it, without blanks around it. No bracket closes within the id or the
  -- date, and one blank stands before the body.
  pub format-parse :
      (content title : Text) (lines : List Text)
      → split 10 content ≡ title ∷ lines
      → IsTitle title
      → All IsStable lines
      → format strptime strftime isoformat (parse strptime strftime fromisoformat lower content)
        ≡ content
  unfolding parse format
  format-parse content title lines h t s = rw h (
      rw (parse_header-IsTitle title lines t) (
        ap (λ ls. join 10 (title ∷ ls)) (rendered-parse_lines 0 [] lines s)
        ∙ ap (join 10) (sym h)
        ∙ join-split 10 content))
