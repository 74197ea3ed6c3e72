-- ===== src/Base/Texts.antt =====
-- Python's `str` as a list of code points, with the methods that the program calls on it.
use Prim.Native.Nat.{◌-◌, ℕ}
use Prim.Native.Char.{code}
use Prim.Native.String.{String}
use mathlib.Core.Path.{◌≡◌, refl}
use mathlib.Core.Bool.{Bool, true, false, ◌&&◌, ◌||◌}
use mathlib.Core.List.{List, [], ◌∷◌, ◌++◌, reverse}
use mathlib.Core.Option.{Option, none, some}
use nauro.Base.Tests.{leb, nat_beq, nat_beq_iff, if◌then◌else◌}
use nauro.Base.Lists.{take, length}
use nauro.Base.Equality.{contains, Eq, nat_eq, list_beq, list_beq_iff, ◌==◌}

abbrev pub Text : Type 0
Text = List ℕ

-- The code points of a literal.
abbrev pub codes : String → Text
codes String.[] = []
codes (String.◌∷◌ c s) = code c ∷ codes s

instance unfoldable pub text_eq : Eq Text
unfolding list_beq
text_eq = record { beq = list_beq; beq_iff = list_beq_iff }

-- `str.isspace` on one code point: what `strip()` removes and `split()` splits at.
unfoldable pub is_space : ℕ → Bool
is_space c =
    (leb 9 c && leb c 13)
    || (leb 28 c && leb c 32)
    || nat_beq c 133
    || nat_beq c 160
    || nat_beq c 5760
    || (leb 8192 c && leb c 8202)
    || nat_beq c 8232
    || nat_beq c 8233
    || nat_beq c 8239
    || nat_beq c 8287
    || nat_beq c 12288

-- `text.startswith(prefix)`
unfoldable pub starts_with : Text → Text → Bool
starts_with [] s = true
starts_with (p ∷ ps) [] = false
starts_with (p ∷ ps) (c ∷ s) = nat_beq p c && starts_with ps s

-- `text.lstrip(chars)` and its like, by the test of a code point
unfoldable pub lstrip_by : (ℕ → Bool) → Text → Text
lstrip_by p [] = []
lstrip_by p (c ∷ s) = let rest = lstrip_by p s in if p c then rest else c ∷ s

unfoldable pub rstrip_by : (ℕ → Bool) → Text → Text
rstrip_by p [] = []
rstrip_by p (c ∷ s) =
    let rest = rstrip_by p s in elim rest [ [] ↦ if p c then [] else c ∷ [] | d ∷ r ↦ c ∷ d ∷ r ]

unfoldable pub strip_by : (ℕ → Bool) → Text → Text
unfolding lstrip_by rstrip_by
strip_by p s = rstrip_by p (lstrip_by p s)

-- `text.endswith(suffix)`
unfoldable pub ends_with : Text → Text → Bool
unfolding starts_with
ends_with suffix s = starts_with (reverse suffix) (reverse s)

-- the head of `text.split(sep)` and what follows the first separator, if there is one
unfoldable pub cut : ℕ → Text → Text × Option Text
cut sep [] = ([], none)
cut sep (c ∷ s) =
    let (first, rest) = cut sep s in if nat_beq c sep then ([], some s) else (c ∷ first, rest)

unfoldable pub cons_head : ℕ → List Text → List Text
cons_head c [] = (c ∷ []) ∷ []
cons_head c (w ∷ ws) = (c ∷ w) ∷ ws

-- `text.split(sep)` for a separator of one code point: never empty
unfoldable pub split : ℕ → Text → List Text
unfolding cons_head
split sep [] = [] ∷ []
split sep (c ∷ s) = let rest = split sep s in if nat_beq c sep then [] ∷ rest else cons_head c rest

-- `sep.join(words)`
unfoldable pub join : ℕ → List Text → Text
join sep [] = []
join sep (w ∷ []) = w
join sep (w ∷ v ∷ ws) = w ++ sep ∷ join sep (v ∷ ws)

-- `text.replace(old, new)` for single code points
unfoldable pub replace : ℕ → ℕ → Text → Text
replace old new [] = []
replace old new (c ∷ s) = (if nat_beq c old then new else c) ∷ replace old new s

join-cons_head :
    (sep c : ℕ) (w : Text) (ws : List Text)
    → join sep (cons_head c (w ∷ ws)) ≡ c ∷ join sep (w ∷ ws)
unfolding join cons_head
join-cons_head sep c w [] = refl
join-cons_head sep c w (v ∷ ws) = refl

-- `split` gives at least one piece.
pub split-cases : (sep : ℕ) (s : Text) → (w : Text) × (ws : List Text) × (split sep s ≡ w ∷ ws)
unfolding split
split-cases sep [] = ([], [], refl)
split-cases sep (c ∷ s) = let (w, ws, e) = split-cases sep s in split_step (nat_beq c sep) w ws e
  where
    split_step :
        (b : Bool) (w : Text) (ws : List Text)
        → split sep s ≡ w ∷ ws
        → (v : Text) × (vs : List Text) × ((if b
              then [] ∷ split sep s
              else cons_head c (split sep s))
            ≡ v ∷ vs)
    split_step true w ws e = ([], w ∷ ws, rw e)
    split_step false w ws e = (c ∷ w, ws, rw e)

join-split_step :
    (sep c : ℕ) (w : Text) (ws : List Text) (s : Text) (b : Bool)
    → (b ≡ true → c ≡ sep)
    → join sep (w ∷ ws) ≡ s
    → join sep (if b then [] ∷ w ∷ ws else cons_head c (w ∷ ws)) ≡ c ∷ s
unfolding join
join-split_step sep c w ws s true same h = rw (h, same refl)
join-split_step sep c w ws s false same h = rw (join-cons_head sep c w ws) (rw h)

-- Joining what `split` gives restores the text.
pub join-split : (sep : ℕ) (s : Text) → join sep (split sep s) ≡ s
unfolding split
join-split sep [] = unfold join in refl
join-split sep (c ∷ s) =
    let (w, ws, e) = split-cases sep s in
    rw e (
      join-split_step sep c w ws s (nat_beq c sep) (nat_beq_iff c sep).0
        (rw (← e) (join-split sep s)))

-- `text.replace(old, new)` for one code point and the text that stands for it
unfoldable pub replace_text : ℕ → Text → Text → Text
replace_text old new [] = []
replace_text old new (c ∷ s) = (if nat_beq c old then new else c ∷ []) ++ replace_text old new s

-- `text.rsplit(sep, 1)[-1]`
unfoldable pub after_last : ℕ → Text → Text
after_last sep [] = []
after_last sep (c ∷ s) =
    let rest = after_last sep s in
    if contains s sep then rest else if nat_beq c sep then s else c ∷ s

-- `text[:-n]`
unfoldable pub drop_end : ℕ → Text → Text
drop_end n s = take (length s - n) s

-- `[part for part in parts if part]`
unfoldable pub nonempty : List Text → List Text
nonempty [] = []
nonempty (part ∷ parts) = let rest = nonempty parts in if part == [] then rest else part ∷ rest

-- the runs of a text between its whitespace, empty ones included
unfoldable pub split_spaces : Text → List Text
unfolding cons_head
split_spaces [] = [] ∷ []
split_spaces (c ∷ s) =
    let rest = split_spaces s in if is_space c then [] ∷ rest else cons_head c rest

-- `text.split()`
unfoldable pub words : Text → List Text
unfolding split_spaces nonempty
words s = nonempty (split_spaces s)
