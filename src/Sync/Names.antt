-- ===== src/Sync/Names.antt =====
-- The names of decision files: `extract_decision_number` of
-- packages/nauro-core/src/nauro_core/parsing.py, `strip_number_prefix` of
-- packages/nauro/src/nauro/sync/headings.py and `is_canonical_decision_path` of
-- packages/nauro/src/nauro/sync/collisions.py. Names whose run of digits is longer than `int`
-- converts are beyond the model.
pub mod Laws
use nauro.Base.{
  ℕ, zero, suc, ◌+◌, ◌-◌, ◌≡◌, refl, Bool, true, false, not, ◌&&◌, ◌||◌, List, [], ◌∷◌, ◌++◌, map,
  Option, none, some, Text, codes, nat_beq, leb, length, drop, all, any, contains, starts_with,
  ends_with, drop_end, split, cut, ◌==◌, if◌then◌else◌, text_eq, nat_eq, Eq,
}
use nauro.Questions.Ids.{decimal, repeat, is_digit, is_ascii_decimal, read_digits}

-- the methods of `str` that go by Unicode
pub record Unicode : Type 0 where
  pub lower : Text → Text
  pub upper : Text → Text
  pub casefold : Text → Text
  pub is_alnum : ℕ → Bool
  pub is_str_digit : ℕ → Bool
  pub is_decimal : ℕ → Bool

-- `text.removesuffix(suffix)` for a suffix that is not empty
unfoldable pub remove_suffix : Text → Text → Text
remove_suffix suffix [] = []
remove_suffix suffix (c ∷ text) =
    let rest = remove_suffix suffix text in if c ∷ text == suffix then [] else c ∷ rest

-- `f"{number:03d}"`
unfoldable pub padded_number : ℕ → Text
padded_number number = let digits = decimal number in repeat (3 - length digits) b'0' ++ digits

abbrev pub decisions_dir : Text
decisions_dir = codes "decisions"

abbrev pub device_digits : Text
device_digits = codes "123456789" ++ 0xB9 ∷ 0xB2 ∷ 0xB3 ∷ []

abbrev pub reserved_device_names : List Text
reserved_device_names =
    codes "CON"
      ∷ codes "PRN"
      ∷ codes "AUX"
      ∷ codes "NUL"
      ∷ map (λ digit. codes "COM" ++ digit ∷ []) device_digits
    ++ map (λ digit. codes "LPT" ++ digit ∷ []) device_digits

abbrev pub number_of : Option Text → Option ℕ
number_of none = none
number_of (some []) = none
number_of (some (c ∷ digits)) = some (read_digits 0 (c ∷ digits))

module _ (unicode : Unicode) where
  -- the digits before the first other character, none where the run goes on in another script
  unfoldable pub leading_digits : Text → Option Text
  leading_digits [] = some []
  leading_digits (c ∷ s) =
      let rest = leading_digits s in
      if is_digit c
      then elim rest [ none ↦ none | some digits ↦ some (c ∷ digits) ]
      else if unicode.is_decimal c
      then none
      else some []

  abbrev pub second_is_digit : Text → Bool
  second_is_digit s = elim (drop 1 s) [ [] ↦ false | c ∷ rest ↦ is_digit c ]

  abbrev pub without_prefix : Text → Text
  without_prefix s =
      let low = unicode.lower s in
      if starts_with (codes "decision-") low
      then drop 9 s
      else if starts_with (codes "d") low && second_is_digit s
      then drop 1 s
      else s

  unfoldable pub extract_decision_number : Text → Option ℕ
  extract_decision_number identifier =
      number_of (leading_digits (without_prefix (remove_suffix (codes ".md") identifier)))

  -- the name after a run of digits and a hyphen
  unfoldable pub after_digits : Text → Option Text
  after_digits [] = none
  after_digits (c ∷ name) =
      let rest = after_digits name in
      if unicode.is_str_digit c then rest else if nat_beq c b'-' then some name else none

  unfoldable pub strip_number_prefix : Text → Text
  strip_number_prefix [] = []
  strip_number_prefix (c ∷ name) =
      if unicode.is_str_digit c
      then elim (after_digits name) [ none ↦ c ∷ name | some rest ↦ rest ]
      else c ∷ name

  abbrev is_name_char : ℕ → Bool
  is_name_char c = unicode.is_alnum c || contains (codes "-._") c

  abbrev is_canonical_stem : Text → Text → Bool
  is_canonical_stem stem filename =
      if stem == [] || not (filename == unicode.lower filename)
      then false
      else if not (any unicode.is_alnum stem)
      then false
      else if not (all is_name_char stem)
      then false
      else not (contains reserved_device_names (unicode.upper (cut b'.' stem).0))

  unfoldable pub is_canonical_filename : Text → Bool
  is_canonical_filename filename =
      if ends_with (codes ".md") filename
      then is_canonical_stem (drop_end 3 filename) filename
      else false

  abbrev canonical_parts : List Text → Text → Bool
  canonical_parts (directory ∷ filename ∷ []) rel =
      if not (directory == decisions_dir) || not (is_canonical_filename filename)
      then false
      else decisions_dir ++ b'/' ∷ filename == rel
  canonical_parts _ rel = false

  unfoldable pub is_canonical_decision_path : Text → Bool
  is_canonical_decision_path rel = canonical_parts (split b'/' rel) rel
