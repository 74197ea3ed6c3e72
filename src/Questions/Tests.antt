-- ===== src/Questions/Tests.antt =====
-- Runs of the operations on questions at concrete inputs:
-- packages/nauro-core/src/nauro_core/questions.py. A stamp and a day are their texts here.
use nauro.Questions.Ids.Digits.{read_digits-decimal}
use nauro.Questions.Parse.{
  line_kind, parse_entry, parse_bracketed, parse, format, parse_header, parse_lines, parse_line,
  block_lines, render_lines,
}
use nauro.Questions.Parse.Laws.{IsStable, format-parse}
use nauro.Base.{
  arith, inl, inr, rstrip_by, strip_by, split, join, cut, cons_head, starts_with, strip_by,
  rstrip_by, is_space, ℕ, suc, ◌+◌, ◌≡◌, refl, true, not, List, [], ◌∷◌, Option, none, some, Text,
  codes, contains, count, any, select, text_eq, nat_eq, lstrip_by, ok, all,
}
use nauro.Questions.{
  ResolvedRef, QuestionEntry, Block, header_block, prose_block, entry_block, OpenQuestionsFile,
}
use nauro.Questions.Ids.{
  format_question_id, parse_question_id, digits_before, decimal, format_positive_ascii_decimal,
  join_chunks, join_padded, is_ascii_decimal, read_digits, canonicalize_question_reference,
}
use nauro.Questions.Resolve.{
  before_divider, has_divider, entries, unresolved_entries, entry_id, ids_of, is_ambiguous, flips,
  flip_entry, resolve_blocks, requested_ids, unique, ResolveResult, resolve,
}
use nauro.Questions.Resolve.Laws.{unresolved_after_resolve}
use nauro.Questions.Resolve.Again.{resolve_twice}
use nauro.Questions.Migrate.{
  MigrationResult, numbers, legacy_stamp, max_number, migrate_block, migrate_step, migrate_blocks,
  migrate,
}
use nauro.Questions.Migrate.Again.{migrate_twice}
use nauro.Questions.Migrate.Laws.{minted, count-migrate}
use nauro.Questions.Normalize.{normalize}
use nauro.Questions.Normalize.Order.{unresolved_entries-normalize}
use nauro.Questions.Normalize.Laws.{tally, tally-normalize}

abbrev stamp_text : Text → Text
stamp_text t = t

abbrev entry : Option ℕ → Option Text → Option (ResolvedRef Text) → QuestionEntry Text Text
entry num timestamp ref = record {
  num = num;
  timestamp = timestamp;
  body = codes "why";
  continuation = [];
  resolved_by = ref;
  source_question_id = none;
}

abbrev decided : ℕ → ResolvedRef Text
decided n = record { decision_num = n; date = codes "2026-01-01" }

abbrev question : ℕ → QuestionEntry Text Text
question n = entry (some n) none none

abbrev document : List (Block Text Text) → OpenQuestionsFile Text Text
document blocks = record { header = codes "# Open Questions"; blocks = blocks }

abbrev two_open : OpenQuestionsFile Text Text
two_open = document (entry_block (question 1) ∷ entry_block (question 2) ∷ [])

abbrev one_resolved : OpenQuestionsFile Text Text
one_resolved = document (
    entry_block (entry (some 1) none (some (decided 7)))
    ∷ entry_block (question 2)
    ∷ prose_block ([] ∷ [])
    ∷ header_block (codes "## Resolved") true
    ∷ [])

abbrev resolution : ResolveResult Text Text
resolution = record {
  file = one_resolved;
  moved_ids = codes "Q1" ∷ [];
  unknown_ids = codes "Q9" ∷ [];
  ambiguous_ids = [];
}

asked : resolve stamp_text two_open (codes "Q01" ∷ codes "Q9" ∷ []) (decided 7) ≡ ok resolution
unfolding resolve is_ambiguous any entries ids_of entry_id count select contains text_eq unique
    canonicalize_question_reference parse_question_id is_ascii_decimal all read_digits
    format_question_id format_positive_ascii_decimal digits_before join_chunks join_padded decimal
    resolve_blocks flips flip_entry has_divider before_divider lstrip_by
asked = refl

unresolved_after_resolve_example :
    unresolved_entries one_resolved.blocks
    ≡ select
        (λ e.
          not (contains (requested_ids (codes "Q01" ∷ codes "Q9" ∷ [])) (entry_id stamp_text e)))
        (unresolved_entries two_open.blocks)
unresolved_after_resolve_example =
    unresolved_after_resolve stamp_text two_open (codes "Q01") (codes "Q9" ∷ []) (decided 7)
      resolution asked refl

resolve_twice_example :
    resolve stamp_text one_resolved (codes "Q01" ∷ codes "Q9" ∷ []) (decided 8) ≡ ok resolution
resolve_twice_example =
    resolve_twice stamp_text two_open (codes "Q01") (codes "Q9" ∷ []) (decided 7) (decided 8)
      resolution asked refl refl

abbrev with_legacy : OpenQuestionsFile Text Text
with_legacy = document (
    entry_block (question 4)
    ∷ entry_block (entry none (some (codes "2026-01-01 10:00 UTC")) none)
    ∷ [])

abbrev migration : MigrationResult Text Text
migration = record {
  file = document (
      entry_block (question 4)
      ∷ entry_block (record (question 5) { body = codes "why (logged 2026-01-01 10:00 UTC)" })
      ∷ []);
  renames =
      record {
        old_id = codes "2026-01-01 10:00 UTC";
        new_id = codes "Q5";
        logged = codes "(logged 2026-01-01 10:00 UTC)";
      }
      ∷ [];
}

migrated : migrate stamp_text with_legacy ≡ ok migration
unfolding migrate migrate_blocks migrate_step migrate_block legacy_stamp numbers max_number
    format_question_id format_positive_ascii_decimal digits_before join_chunks join_padded decimal
    text_eq
migrated = refl

count-migrate_example :
    count 5 (numbers migration.file.blocks)
    ≡ count 5 (numbers with_legacy.blocks)
      + minted (suc (max_number (numbers with_legacy.blocks))) 1 5
count-migrate_example = count-migrate stamp_text 5 with_legacy migration migrated

tally-normalize_example :
    tally (λ e. true) (entries (normalize stamp_text one_resolved).file.blocks)
    ≡ tally (λ e. true) (entries one_resolved.blocks)
tally-normalize_example = tally-normalize (λ e. true) stamp_text one_resolved

abbrev as_is : Text → Option Text
as_is t = some t

abbrev entry_line : Text
entry_line = codes "- [Q1] why"

abbrev small_document : Text
small_document =
    codes "# Open Questions\n- [Q1] why\n  since\n- [Resolved by D12 on 2026-01-02] [Q2] how\nprose"

abbrev Stable : Text → Type 0
Stable = IsStable as_is stamp_text as_is stamp_text stamp_text

entry_line-Stable : Stable entry_line
unfolding line_kind starts_with contains lstrip_by is_space
entry_line-Stable = ((λ k. cc), λ k. inl (codes "Q1", codes "why", refl, refl, refl, refl))

abbrev resolved_line : Text
resolved_line = codes "- [Resolved by D12 on 2026-01-02] [Q2] how"

resolved_line-Stable : Stable resolved_line
unfolding line_kind starts_with contains lstrip_by rstrip_by strip_by is_space decimal digits_before
resolved_line-Stable = (
  (λ k. cc),
  λ k. inr (
      inl (
        12,
        codes "2026-01-02",
        codes "Q2",
        codes "how",
        refl,
        omega arith,
        omega arith,
        refl,
        refl,
        refl,
        refl,
        refl,
      )),
)

continuation-Stable : Stable (codes "  since")
unfolding line_kind starts_with parse_entry parse_bracketed cut
continuation-Stable = ((λ k. cc), λ k. cc)

prose-Stable : Stable (codes "prose")
unfolding line_kind starts_with parse_entry parse_bracketed cut
prose-Stable = ((λ k. cc), λ k. cc)

format-parse_example :
    format as_is stamp_text stamp_text (parse as_is stamp_text as_is stamp_text small_document)
    ≡ small_document
unfolding split strip_by lstrip_by rstrip_by is_space text_eq starts_with
format-parse_example =
    format-parse as_is stamp_text as_is stamp_text stamp_text small_document
      (codes "# Open Questions") (entry_line ∷ codes "  since" ∷ resolved_line ∷ codes "prose" ∷ [])
      refl (refl, refl, refl, refl)
      (entry_line-Stable, (continuation-Stable, (resolved_line-Stable, (prose-Stable, tt))))

read_digits-decimal_example : read_digits 0 (decimal 120) ≡ 120
read_digits-decimal_example = read_digits-decimal 120

-- the blank line at the start is dropped
leading_blank :
    format as_is stamp_text stamp_text (parse as_is stamp_text as_is stamp_text (codes "\n# T\n"))
    ≡ codes "# T\n"
unfolding parse format parse_header parse_lines parse_line line_kind block_lines render_lines join
    split strip_by lstrip_by rstrip_by is_space text_eq starts_with cons_head
leading_blank = refl

unresolved_entries-normalize_example :
    unresolved_entries (normalize stamp_text one_resolved).file.blocks
    ≡ unresolved_entries one_resolved.blocks
unresolved_entries-normalize_example = unresolved_entries-normalize stamp_text one_resolved

migrate_twice_example :
    migrate stamp_text migration.file ≡ ok (record { file = migration.file; renames = [] })
migrate_twice_example = migrate_twice stamp_text with_legacy migration migrated
