-- ===== src/Questions/Parse/Heads.antt =====
-- The lines that stand for an entry, and what they are read as:
-- packages/nauro-core/src/nauro_core/questions.py.
use nauro.Base.{
  ℕ, ◌≤◌, ◌≡◌, ◌⊎◌, refl, sym, ap, ◌∙◌, false, List, ◌∷◌, ◌++◌, Option, none, some, Text, codes,
  is_space, starts_with, length, lstrip_by, strip_by, arith, Option-cases, inl, inr, ltb, text_eq,
  nat_eq, contains, Free, append-Free, all-Free,
}
use mathlib.Core.List.{append_assoc}
use mathlib.Core.Option.{some-injective}
use nauro.Questions.{ResolvedRef, QuestionEntry}
use nauro.Questions.Ids.{decimal, is_digit, is_ascii_decimal, parse_q_id}
use nauro.Questions.Ids.Digits.{read_digits-decimal}
use nauro.Questions.Legacy.{legacy_question_id}
use nauro.Questions.Resolve.{entry_id}
use nauro.Questions.Parse.{
  resolved_prefix_token, resolved_prefix_sep, parse_resolved_prefix, parse_identified,
  parse_resolved, parse_bracketed, parse_entry, render_head, continuation_lines,
}
use nauro.Sync.Names.Laws.{decimal-digits}
use nauro.Questions.Parse.Cuts.{
  cut-closed, cut_text-digits, decimal-filled, lstrip-blank, lstrip-bracket,
}

module _ {Stamp Day : Type 0} (strptime : Text → Option Stamp) (strftime : Stamp → Text)
    (fromisoformat : Text → Option Day) (isoformat : Day → Text) where
  -- the head of an entry that is not resolved, with the id `id`
  abbrev pub IsOpenHead : Text → Type 0
  IsOpenHead line =
      (id : Text) × (body : Text) × (line ≡ codes "- [" ++ (id ++ (codes "] " ++ body)))
      × Free b']' id
      × (starts_with resolved_prefix_token id ≡ false)
      × (lstrip_by is_space body ≡ body)

  abbrev resolved_inside : ℕ → Day → Text
  resolved_inside n day =
      resolved_prefix_token ++ (decimal n ++ (resolved_prefix_sep ++ isoformat day))

  -- the head of a resolved entry, with a date whose text is read as the date
  abbrev pub IsResolvedHead : Text → Type 0
  IsResolvedHead line =
      (n : ℕ) × (day : Day) × (id : Text) × (body : Text) × (line
        ≡ codes "- [" ++ (resolved_inside n day ++ (codes "] [" ++ (id ++ (codes "] " ++ body)))))
      × (1 ≤ n)
      × (length (decimal n) ≤ 4300)
      × (fromisoformat (isoformat day) ≡ some day)
      × (strip_by is_space (isoformat day) ≡ isoformat day)
      × Free b']' (isoformat day)
      × Free b']' id
      × (lstrip_by is_space body ≡ body)

  -- what the line is read as renders to it
  abbrev pub Rendered : Text → Type 0
  Rendered line =
      (lines : List Text) (e : QuestionEntry Stamp Day)
      → parse_entry strptime strftime fromisoformat line lines ≡ some e
      → render_head strptime strftime isoformat e ≡ line

  -- the head with what stands before the id
  abbrev head_with : Option (ResolvedRef Day) → Text → Text
  head_with none rest = codes "- " ++ rest
  head_with (some ref) rest =
      codes "- [" ++ (resolved_inside ref.decision_num ref.date ++ (codes "] " ++ rest))

  legacy-own :
      (value : Text) (stamp : Stamp)
      → legacy_question_id strptime strftime value ≡ some stamp
      → strftime stamp ≡ value
  unfolding legacy_question_id
  legacy-own value stamp h = ground (arith, h, text_eq.beq_iff (strftime stamp) value)

  -- the text of `render_head`, associated to the right
  rendered_with :
      (ref : Option (ResolvedRef Day)) (id body : Text)
      → (let identified = codes "[" ++ id ++ codes "] " ++ body in
          elim ref [
            | none ↦ codes "- " ++ identified
            | some r ↦
                codes "- ["
                ++ resolved_prefix_token
                ++ decimal r.decision_num
                ++ resolved_prefix_sep
                ++ isoformat r.date
                ++ codes "] "
                ++ identified
          ])
        ≡ head_with ref (codes "[" ++ (id ++ (codes "] " ++ body)))
  rendered_with none id body = simp append_assoc
  rendered_with (some r) id body = simp append_assoc

  identified-number :
      (id body : Text) (lines : List Text) (ref : Option (ResolvedRef Day)) (num : ℕ)
      → parse_q_id id ≡ some num
      → parse_identified strptime strftime id body lines ref
        ≡ some (record {
          num = some num;
          timestamp = none;
          body = body;
          continuation = lines;
          resolved_by = ref;
          source_question_id = some id;
        })
  unfolding parse_identified
  identified-number id body lines ref num q = rw (parse_identified, q) refl

  identified-stamp :
      (id body : Text) (lines : List Text) (ref : Option (ResolvedRef Day)) (stamp : Stamp)
      → parse_q_id id ≡ none
      → legacy_question_id strptime strftime id ≡ some stamp
      → parse_identified strptime strftime id body lines ref
        ≡ some (record {
          num = none;
          timestamp = some stamp;
          body = body;
          continuation = lines;
          resolved_by = ref;
          source_question_id = none;
        })
  unfolding parse_identified
  identified-stamp id body lines ref stamp q r = rw (parse_identified, q) (rw r refl)

  identified-none :
      (id body : Text) (lines : List Text) (ref : Option (ResolvedRef Day))
      → parse_q_id id ≡ none
      → legacy_question_id strptime strftime id ≡ none
      → parse_identified strptime strftime id body lines ref ≡ none
  unfolding parse_identified
  identified-none id body lines ref q r = rw (parse_identified, q) (rw r refl)

  -- an entry that is read from an id and a body renders to them
  render_head-identified :
      (id body : Text) (lines : List Text) (ref : Option (ResolvedRef Day))
      (e : QuestionEntry Stamp Day)
      → parse_identified strptime strftime id body lines ref ≡ some e
      → render_head strptime strftime isoformat e
        ≡ head_with ref (codes "[" ++ (id ++ (codes "] " ++ body)))
  unfolding entry_id
  render_head-identified id body lines ref e h = elim (Option-cases (parse_q_id id)) [
    | inr (num, q) ↦
        let same = some-injective _ _ (sym (identified-number id body lines ref num q) ∙ h) in
        sym (ap (render_head strptime strftime isoformat) same) ∙ rendered_with ref id body
    | inl q ↦ elim (Option-cases (legacy_question_id strptime strftime id)) [
      | inl r ↦ let wrong = sym (identified-none id body lines ref q r) ∙ h in cc
      | inr (stamp, r) ↦
          let same = some-injective _ _ (sym (identified-stamp id body lines ref stamp q r) ∙ h) in
          sym (ap (render_head strptime strftime isoformat) same)
          ∙ rendered_with ref (strftime stamp) body
          ∙ ap (λ (i : Text). head_with ref (codes "[" ++ (i ++ (codes "] " ++ body))))
              (legacy-own id stamp r)
    ]
  ]

  open_head-Rendered : (line : Text) → IsOpenHead line → Rendered line
  unfolding parse_entry parse_bracketed
  open_head-Rendered line (id, body, form, free, direct, trimmed) lines e h =
      let read : parse_entry strptime strftime fromisoformat line lines
          ≡ parse_identified strptime strftime id body (continuation_lines lines) none =
        rw form (
          rw (cut-closed id (b' ' ∷ body) free)
            (rw direct (rw (lstrip-blank body) (rw trimmed refl)))) in
      render_head-identified id body (continuation_lines lines) none e (sym read ∙ h) ∙ sym form

  resolved_inside-read :
      (n : ℕ) (day : Day)
      → 1 ≤ n
      → length (decimal n) ≤ 4300
      → fromisoformat (isoformat day) ≡ some day
      → strip_by is_space (isoformat day) ≡ isoformat day
      → parse_resolved_prefix fromisoformat (resolved_inside n day)
        ≡ some (record { decision_num = n; date = day })
  unfolding parse_resolved_prefix is_ascii_decimal
  resolved_inside-read n day positive short dated stripped =
      let dated_ref : ℕ → Option (ResolvedRef Day) =
        λ k. some (record { decision_num = k; date = day }) in
      let small : ltb 4300 (length (decimal n)) ≡ false = ground arith in
      let some_number : ltb n 1 ≡ false = ground arith in
      rw (parse_resolved_prefix, cut_text-digits (decimal n) (isoformat day) (decimal-digits n))
        (rw (decimal-filled n) (
          rw (decimal-digits n) (
            rw small (
              rw (read_digits-decimal n)
                (rw some_number (rw stripped (rw dated (ap dated_ref (read_digits-decimal n)))))))))

  resolved_inside-Free :
      (n : ℕ) (day : Day) → Free b']' (isoformat day) → Free b']' (resolved_inside n day)
  resolved_inside-Free n day free =
      append-Free b']' resolved_prefix_token _ (unfold contains in refl) (
        append-Free b']' (decimal n) _ (all-Free is_digit b']' (decimal n) refl (decimal-digits n))
          (append-Free b']' resolved_prefix_sep _ (unfold contains in refl) free))

  resolved_head-Rendered : (line : Text) → IsResolvedHead line → Rendered line
  unfolding parse_entry parse_bracketed parse_resolved starts_with
  resolved_head-Rendered line
        (n, day, id, body, form, positive, short, dated, stripped, day_free, free, trimmed) lines e
        h =
      let ref : ResolvedRef Day = record { decision_num = n; date = day } in
      let rest = codes "[" ++ (id ++ (codes "] " ++ body)) in
      let read : parse_entry strptime strftime fromisoformat line lines
          ≡ parse_identified strptime strftime id body (continuation_lines lines) (some ref) =
        rw form (
          rw
            (cut-closed (resolved_inside n day) (b' ' ∷ rest) (resolved_inside-Free n day day_free))
            (rw (lstrip-blank rest) (
              rw (lstrip-bracket (id ++ (codes "] " ++ body))) (
                rw (resolved_inside-read n day positive short dated stripped) (
                  rw (cut-closed id (b' ' ∷ body) free)
                    (rw (lstrip-blank body) (rw trimmed refl))))))) in
      render_head-identified id body (continuation_lines lines) (some ref) e (sym read ∙ h)
      ∙ sym form

  -- a line that is read as no entry
  abbrev pub IsNoEntry : Text → Type 0
  IsNoEntry line =
      (lines : List Text) → parse_entry strptime strftime fromisoformat line lines ≡ none

  abbrev pub IsHead : Text → Type 0
  IsHead line = IsOpenHead line ⊎ (IsResolvedHead line ⊎ IsNoEntry line)

  pub head-Rendered : (line : Text) → IsHead line → Rendered line
  head-Rendered line (inl open_head) = open_head-Rendered line open_head
  head-Rendered line (inr (inl resolved)) = resolved_head-Rendered line resolved
  head-Rendered line (inr (inr no_entry)) = λ lines e h. let wrong = sym (no_entry lines) ∙ h in cc
