-- ===== src/Base/Splitting.antt =====
-- Laws of `split` and `join`.
use Prim.Native.Nat.{ℕ}
use mathlib.Core.Path.{◌≡◌, refl, ◌∙◌, ap}
use mathlib.Core.Logic.{◌≢◌, inl, inr}
use mathlib.Core.Bool.{Bool, true, false}
use mathlib.Core.List.{List, [], ◌∷◌, ◌++◌}
use native.Mathlib.Omega.{arith}
use nauro.Base.Tests.{nat_beq, nat_beq_iff, Bool-cases}
use nauro.Base.Equality.{nat_eq, contains, contains-append, count, beq_refl}
use nauro.Base.Lists.{All, all}
use nauro.Base.Texts.{Text, split, join, cons_head, split-cases, text_eq}

-- No code point of the text is the separator.
abbrev pub Free : ℕ → Text → Type 0
Free sep w = contains w sep ≡ false

cons_head-Free :
    (sep c : ℕ) (ws : List Text)
    → nat_beq c sep ≡ false
    → All (Free sep) ws
    → All (Free sep) (cons_head c ws)
unfolding cons_head contains
cons_head-Free sep c [] e h = (rw e, tt)
cons_head-Free sep c (w ∷ ws) e h = (rw e h.0, h.1)

-- The pieces of a split hold no separator.
pub split-Free : (sep : ℕ) (s : Text) → All (Free sep) (split sep s)
unfolding split
split-Free sep [] = unfold contains in (refl, tt)
split-Free sep (c ∷ s) = elim (Bool-cases (nat_beq c sep)) [
  | inl e ↦ rw e (unfold contains in refl, split-Free sep s)
  | inr e ↦ rw e (cons_head-Free sep c (split sep s) e (split-Free sep s))
]

pub split_one : (sep : ℕ) (w : Text) → Free sep w → split sep w ≡ w ∷ []
unfolding split contains cons_head
split_one sep [] h = refl
split_one sep (c ∷ w) h = ground (arith, split_one sep w)

pub split-append : (sep : ℕ) (w t : Text) → Free sep w → split sep (w ++ sep ∷ t) ≡ w ∷ split sep t
unfolding split contains cons_head
split-append sep [] t h = ground arith
split-append sep (c ∷ w) t h = ground (arith, split-append sep w t)

-- Splitting what was joined gives the pieces back, if none of them holds the separator.
pub split-join :
    (sep : ℕ) (w : Text) (ws : List Text)
    → Free sep w
    → All (Free sep) ws
    → split sep (join sep (w ∷ ws)) ≡ w ∷ ws
unfolding join
split-join sep w [] h k = split_one sep w h
split-join sep w (v ∷ ws) h k =
    split-append sep w (join sep (v ∷ ws)) h ∙ ap (λ r. w ∷ r) (split-join sep v ws k.0 k.1)

cons_head-append :
    (c : ℕ) (ws vs : List Text) → ws ≢ [] → cons_head c (ws ++ vs) ≡ cons_head c ws ++ vs
unfolding cons_head
cons_head-append c [] vs h = absurd (h refl)
cons_head-append c (w ∷ ws) vs h = refl

split-ne-nil : (sep : ℕ) (s : Text) → split sep s ≢ []
split-ne-nil sep s = let (w, ws, e) = split-cases sep s in rw e (λ p. cc)

pub split-append_sep : (sep : ℕ) (t : Text) → split sep (t ++ sep ∷ []) ≡ split sep t ++ [] ∷ []
unfolding split
split-append_sep sep [] = ground arith
split-append_sep sep (c ∷ t) = elim (Bool-cases (nat_beq c sep)) [
  | inl e ↦ rw (e, split-append_sep sep t) refl
  | inr e ↦
      rw (e, split-append_sep sep t)
        (cons_head-append c (split sep t) ([] ∷ []) (split-ne-nil sep t))
]

-- A blank at the end of a list of lines counts for nothing but blanks.
pub count-of_All {κ} :
    (P : Text → Type κ) (a : Text) (ws : List Text) → All P ws → count a ws ≢ 0 → P a
unfolding count
count-of_All P a [] h n = absurd (n refl)
count-of_All P a (w ∷ ws) h n = elim (Bool-cases (text_eq.beq w a)) [
  | inl e ↦ rw ((text_eq.beq_iff w a).0 e) at h.0
  | inr e ↦ count-of_All P a ws h.1 (λ p. n (rw e (omega arith)))
]

pub All-of_count {κ} :
    (P : Text → Type κ) (ws : List Text) → ((a : Text) → count a ws ≢ 0 → P a) → All P ws
unfolding count
All-of_count P [] h = tt
All-of_count P (w ∷ ws) h =
    (h w (λ p. ground (arith, beq_refl w)), All-of_count P ws (λ a n. h a (λ p. n (omega arith))))

-- A test that the separator fails holds of no text with the separator in it.
pub all-Free : (p : ℕ → Bool) (sep : ℕ) (t : Text) → p sep ≡ false → all p t ≡ true → Free sep t
unfolding all contains
all-Free p sep [] e h = refl
all-Free p sep (c ∷ t) e h = ground (arith, all-Free p sep t e, nat_beq_iff c sep, ap p)

pub append-Free : (sep : ℕ) (w t : Text) → Free sep w → Free sep t → Free sep (w ++ t)
append-Free sep w t h k = rw contains-append (rw (h, k))
