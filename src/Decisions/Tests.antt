-- ===== src/Decisions/Tests.antt =====
-- Runs of packages/nauro-core/src/nauro_core/operations/_decision_transitions.py.
use nauro.Base.{
  ℕ, ◌≡◌, refl, arith, Bool, true, false, ◌+◌, ◌-◌, ◌&&◌, ◌||◌, [], ◌∷◌, ◌++◌, map, Option, none,
  some, Text, codes, leb, strip_by, lstrip_by, rstrip_by, is_space, contains, all, any, list_beq,
  text_eq, if◌then◌else◌,
}
use nauro.Sync.Names.{Unicode}
use nauro.Questions.Ids.{decimal, digits_before, read_digits, is_ascii_decimal, repeat, is_digit}
use nauro.Decisions.Model.{
  Decision, active, high, api_design, mcp, is_some, validate_supersession_ref,
  require_complete_approval_provenance, require_reasons_on_active, superseded_requires_ref,
}
use nauro.Decisions.Transitions.{
  DecisionProvenance, apply_current_version_provenance, append_decision_update, attach_supersedes,
  mark_superseded,
}
use nauro.Decisions.Transitions.Laws.{Accepted, transitions-Accepted}
use nauro.Decisions.Slug.{before_last, slug_chars, slugify_decision_title}
use nauro.Decisions.Slug.Shape.{SlugShape, slugify-SlugShape}

-- the methods on ASCII
abbrev ascii : Unicode
ascii = record {
  lower = map (λ c. if leb b'A' c && leb c b'Z' then c + 32 else c);
  upper = map (λ c. if leb b'a' c && leb c b'z' then c - 32 else c);
  casefold = map (λ c. if leb b'A' c && leb c b'Z' then c + 32 else c);
  is_alnum = λ c. is_digit c || leb b'a' c && leb c b'z' || leb b'A' c && leb c b'Z';
  is_str_digit = is_digit;
  is_decimal = is_digit;
}

slugify_short : slugify_decision_title ascii (codes " Use C++ & CMake!") ≡ codes "use-c-cmake"
unfolding slugify_decision_title slug_chars strip_by lstrip_by rstrip_by
slugify_short = refl

-- the cut falls on a dash
slugify_cut :
    slugify_decision_title ascii (repeat 40 b'x' ++ codes " " ++ repeat 18 b'y' ++ codes " tail")
    ≡ repeat 40 b'x' ++ codes "-" ++ repeat 18 b'y'
unfolding slugify_decision_title slug_chars strip_by lstrip_by rstrip_by before_last contains repeat
slugify_cut = refl

slugify-SlugShape_example :
    SlugShape ascii (
      slugify_decision_title ascii (repeat 40 b'x' ++ codes " " ++ repeat 18 b'y' ++ codes " tail"))
slugify-SlugShape_example =
    slugify-SlugShape ascii refl (repeat 40 b'x' ++ codes " " ++ repeat 18 b'y' ++ codes " tail")

abbrev decided : ℕ → Option Text → Decision Text Bool
decided num reason = record {
  date = codes "2026-01-01";
  confidence = high;
  version = 1;
  status = active;
  decision_type = some api_design;
  reversibility = none;
  source = some mcp;
  files_affected = [];
  supersedes = some (codes "3");
  superseded_by = none;
  proposed_by = none;
  approved_by = none;
  approved_at = none;
  proposal_id = none;
  proposed_base_commit = none;
  rejected = record { name = codes "REST"; reason = reason } ∷ [];
  num = num;
  title = codes "Use RPC";
  rationale = codes " It is fast. ";
  body = [];
  content = [];
  model_extra = true;
}

-- an active decision gives a reason for what it rejects
require_reasons_on_active_missing : require_reasons_on_active (decided 4 none) ≡ false
unfolding require_reasons_on_active is_some all
require_reasons_on_active_missing = refl

decided-Accepted : (n : ℕ) → Accepted (decided n (some (codes "slow")))
unfolding require_reasons_on_active is_some all any validate_supersession_ref is_ascii_decimal
    decimal read_digits digits_before list_beq text_eq require_complete_approval_provenance
    superseded_requires_ref
decided-Accepted n = record {
  versioned = omega arith;
  supersedes_ref = refl;
  superseded_by_ref = refl;
  complete = refl;
  reasons = refl;
  replaced = refl;
}

abbrev approval : DecisionProvenance
approval = record {
  proposed_by = codes "a";
  approved_by = codes "b";
  approved_at = codes "2026-01-02T00:00:00Z";
  proposal_id = codes "c";
  proposed_base_commit = none;
}

append_decision_update_text :
    (append_decision_update
      (λ day. day)
      (decided 4 none)
      (codes "Still.\n")
      (codes "2026-01-02")
      (some approval)).rationale
    ≡ codes "It is fast.\n\n*Update (v2) — 2026-01-02:* Still."
unfolding append_decision_update apply_current_version_provenance strip_by lstrip_by rstrip_by
    decimal digits_before is_space any
append_decision_update_text = refl

transitions-Accepted_example :
    Accepted (attach_supersedes (decided 12 (some (codes "slow"))) 4)
    × Accepted (mark_superseded (decided 4 (some (codes "slow"))) 12)
    × Accepted (
        append_decision_update
          (λ day. day)
          (decided 4 (some (codes "slow")))
          (codes "Still.")
          (codes "2026-01-02")
          (some approval))
transitions-Accepted_example =
    transitions-Accepted (λ day. day) (decided 4 (some (codes "slow")))
      (decided 12 (some (codes "slow"))) (codes "Still.") (codes "2026-01-02") (some approval)
      (decided-Accepted 4) (decided-Accepted 12)
