-- ===== src/Sync/Collisions/Heals.antt =====
-- How the completion pass finishes a renumbering that was cut off:
-- packages/nauro/src/nauro/sync/collisions.py.
use nauro.Base.{ℕ, ◌≡◌, refl, [], some, text_eq, nat_eq}
use nauro.Sync.Corpus.{DecisionFile, heading_of_file}
use nauro.Sync.Collisions.Complete.{mismatched_files}

-- the heading of the file, where it has one, gives the number of its name
abbrev pub HeadingAgrees : DecisionFile → Type 0
HeadingAgrees f = (n : ℕ) → heading_of_file f ≡ some n → n ≡ f.number

mismatched-nil : mismatched_files [] ≡ []
unfolding mismatched_files
mismatched-nil = refl
