-- ===== src/Merge/Union/Documents.antt =====
-- What the union of two documents holds, as texts.
use nauro.Base.{
  nat_beq, nat_beq_iff, min, ◌+◌, ◌≡◌, ◌≢◌, refl, ap, List, [], ◌∷◌, Text, contains, count,
  count-append, text_eq, split, join, arith, inl, inr, Bool-cases, All, Free, split-Free,
  split-join, split-append_sep, count-of_All, All-of_count,
}
use nauro.Merge.Union.{newline, union_lines, drop_final_blank, text_lines, set_union_markdown}
use nauro.Merge.Union.Laws.{count-union_lines}

count-drop_final_blank :
    (a : Text) (lines : List Text) → a ≢ [] → count a (drop_final_blank lines) ≡ count a lines
unfolding drop_final_blank count
count-drop_final_blank a [] h = refl
count-drop_final_blank a (line ∷ []) h =
    ground (arith, text_eq.beq_iff line [], text_eq.beq_iff line a)
count-drop_final_blank a (line ∷ next ∷ lines) h =
    omega (arith, count-drop_final_blank a (next ∷ lines) h)

count-text_lines :
    (a : Text) (text : Text) → a ≢ [] → count a (text_lines text) ≡ count a (split newline text)
unfolding text_lines
count-text_lines a text h = ground (arith, count-drop_final_blank a (split newline text) h)

-- A line of a union is a line of one of the documents, so it holds no newline.
union_line-Free :
    (a local remote : Text)
    → a ≢ []
    → count a (union_lines (text_lines local) (text_lines remote)) ≢ 0
    → Free newline a
union_line-Free a local remote h n = elim (Bool-cases (nat_beq (count a (split newline local)) 0)) [
  | inl absent ↦
      count-of_All (Free newline) a (split newline remote) (split-Free newline remote) λ p. n (
        omega
          (arith, here, there, united, (nat_beq_iff (count a (split newline local)) 0).0 absent))
  | inr present ↦
      count-of_All (Free newline) a (split newline local) (split-Free newline local)
        λ p. cc (present, (nat_beq_iff (count a (split newline local)) 0).1 p)
]
  where
    here : count a (text_lines local) ≡ count a (split newline local)
    here = count-text_lines a local h

    there : count a (text_lines remote) ≡ count a (split newline remote)
    there = count-text_lines a remote h

    united :
        count a (union_lines (text_lines local) (text_lines remote))
        ≡ min 1 (count a (text_lines local) + count a (text_lines remote))
    united = count-union_lines a (text_lines local) (text_lines remote) h

union_lines-Free :
    (local remote : Text) → All (Free newline) (union_lines (text_lines local) (text_lines remote))
union_lines-Free local remote =
    All-of_count (Free newline) (union_lines (text_lines local) (text_lines remote)) line_Free
  where
    line_Free :
        (a : Text)
        → count a (union_lines (text_lines local) (text_lines remote)) ≢ 0
        → Free newline a
    line_Free [] n = unfold contains in refl
    line_Free (c ∷ a) n = union_line-Free (c ∷ a) local remote (λ e. cc) n

count-split-join :
    (a : Text) (lines : List Text)
    → a ≢ []
    → All (Free newline) lines
    → count a (split newline (join newline lines)) ≡ count a lines
count-split-join a [] h k = unfold join split count in ground (arith, text_eq.beq_iff [] a)
count-split-join a (line ∷ lines) h k = ap (count a) (split-join newline line lines k.0 k.1)

count_blank_only : (a : Text) → a ≢ [] → count a ([] ∷ []) ≡ 0
unfolding count
count_blank_only a h = ground (arith, text_eq.beq_iff [] a)

-- A line that is not blank stands in the merged document exactly once if either version has it,
-- and not at all otherwise.
pub count-set_union_markdown :
    (a local remote : Text)
    → a ≢ []
    → count a (split newline (set_union_markdown local remote))
      ≡ min 1 (count a (split newline local) + count a (split newline remote))
unfolding set_union_markdown
count-set_union_markdown a local remote h = ground (
  arith,
  count-split-join a (union_lines (text_lines local) (text_lines remote)) h
      (union_lines-Free local remote),
  count-union_lines a (text_lines local) (text_lines remote) h,
  count-text_lines a local h,
  count-text_lines a remote h,
  split-append_sep newline (join newline (union_lines (text_lines local) (text_lines remote))),
  count-append a (split newline (join newline (union_lines (text_lines local) (text_lines remote))))
      ([] ∷ []),
  count_blank_only a h,
)
