-- ===== src/Merge/Skip/Laws.antt =====
-- What sync leaves alone: `should_skip` of packages/nauro/src/nauro/sync/merge.py.
use nauro.Base.{ℕ, ◌≡◌, refl, [], ◌∷◌, Text, contains, after_last, nat_eq, arith, Free}

after_last-Free : (sep : ℕ) (w : Text) → Free sep w → after_last sep w ≡ w
unfolding after_last contains
after_last-Free sep [] h = refl
after_last-Free sep (c ∷ w) h = ground (arith, after_last-Free sep w)
