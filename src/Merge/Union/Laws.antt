-- ===== src/Merge/Union/Laws.antt =====
-- What a union of two documents holds.
use nauro.Base.{
  min, ◌+◌, ◌≡◌, ◌≢◌, List, [], ◌++◌, Text, contains, count, count-append, text_eq, arith,
  All-append,
}
use nauro.Merge.Union.{
  parse_sections, dedupe, dedupe_preserve_order, group_sections, emit_sections, union_lines,
}
use nauro.Merge.Union.Lines.{
  count-section_lines-append, count-parse_sections, count-dedupe_blank, count-dedupe,
  count-group_sections, count-emit_sections,
}
use nauro.Merge.Union.Blanks.{parse_sections-HasHeaders, blank_group_sections, blank_emit_sections}

-- A line that is not blank stands in the union exactly once if either document has it, and not
-- at all otherwise.
pub count-union_lines :
    (a : Text) (local remote : List Text)
    → a ≢ []
    → count a (union_lines local remote) ≡ min 1 (count a local + count a remote)
unfolding union_lines dedupe_preserve_order contains count
count-union_lines a local remote h =
    let (lp, ls) = parse_sections local in
    let (rp, rs) = parse_sections remote in
    let groups = group_sections [] (ls ++ rs) in
    omega (
      arith,
      count-dedupe a [] (dedupe [] (lp ++ rp) ++ emit_sections groups) h,
      count-append a (dedupe [] (lp ++ rp)) (emit_sections groups),
      count-dedupe a [] (lp ++ rp) h,
      count-append a lp rp,
      count-emit_sections a groups h,
      count-group_sections a [] (ls ++ rs),
      count-section_lines-append a ls rs,
      count-parse_sections a local,
      count-parse_sections a remote,
    )

-- The union has as many blank lines as both documents together.
pub count-union_lines_blank :
    (local remote : List Text)
    → count [] (union_lines local remote) ≡ count [] local + count [] remote
unfolding union_lines dedupe_preserve_order count
count-union_lines_blank local remote =
    let (lp, ls) = parse_sections local in
    let (rp, rs) = parse_sections remote in
    let groups = group_sections [] (ls ++ rs) in
    omega (
      arith,
      count-dedupe_blank [] (dedupe [] (lp ++ rp) ++ emit_sections groups),
      count-append [] (dedupe [] (lp ++ rp)) (emit_sections groups),
      count-dedupe_blank [] (lp ++ rp),
      count-append [] lp rp,
      blank_emit_sections groups,
      blank_group_sections [] (ls ++ rs) (
          All-append (λ s. s.header ≢ []) ls rs (parse_sections-HasHeaders local)
            (parse_sections-HasHeaders remote)),
      count-section_lines-append [] ls rs,
      count-parse_sections [] local,
      count-parse_sections [] remote,
    )
