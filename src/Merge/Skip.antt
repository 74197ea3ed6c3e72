-- ===== src/Merge/Skip.antt =====
-- packages/nauro/src/nauro/sync/merge.py: `normalize_rel` and `should_skip`, with `_tmp_name` and
-- `is_tmp_sibling` of packages/nauro/src/nauro/store/_atomic.py. The token of a temporary name comes
-- from `secrets` and is an argument.
pub mod Laws
use nauro.Base.{
  ℕ, ◌≡◌, Bool, true, false, ◌&&◌, ◌||◌, List, [], ◌∷◌, ◌++◌, Text, codes, starts_with, ends_with,
  replace, cut, contains, nat_beq, leb, length, after_last, drop_end, all, any, ◌==◌, if◌then◌else◌,
  text_eq, nat_eq, Eq, refl, list_beq, reverse, split,
}
use nauro.Merge.Paths.{
  PathClass, ordinary, reserved_control, unsafe, slash, backslash, classify_sync_path,
}

unfoldable pub normalize_rel : Text → Text
unfolding replace
normalize_rel path = replace backslash slash path

abbrev pub tmp_suffix : Text
tmp_suffix = codes ".tmp"

abbrev pub is_hex : ℕ → Bool
is_hex c = (leb b'0' c && leb c b'9') || (leb b'a' c && leb c b'f')

unfoldable pub tmp_name : Text → Text → Text
tmp_name name token = codes "." ++ name ++ codes "." ++ token ++ tmp_suffix

abbrev pub is_token : Text → Bool
is_token token = nat_beq (length token) 16 && all is_hex token

unfoldable pub is_tmp_sibling : Text → Bool
is_tmp_sibling name =
    if starts_with (codes ".") name && ends_with tmp_suffix name
    then is_token (after_last b'.' (drop_end 4 name))
    else false

abbrev never_sync : List Text
never_sync = codes ".sync-state.json" ∷ codes "nauro-graph.html" ∷ []

abbrev has_lock_suffix : Text → Bool
has_lock_suffix path =
    ends_with (codes ".md.lock") path
    || ends_with (codes ".json.lock") path
    || ends_with (codes ".rmwlock") path

abbrev is_reserved : PathClass → Bool
is_reserved reserved_control = true
is_reserved _ = false

module _ (casefold : Text → Text) where
  unfoldable pub should_skip : Text → Bool
  should_skip path =
      let normalized = normalize_rel path in
      let basename = after_last slash normalized in
      if is_reserved (classify_sync_path casefold path).path_class
      then true
      else if contains never_sync normalized
      then true
      else if starts_with (codes ".pull-spool-") (cut slash normalized).0
      then true
      else if starts_with (codes "journal/") normalized
      then true
      else if is_tmp_sibling basename
      then true
      else basename == codes ".lock" || has_lock_suffix normalized
