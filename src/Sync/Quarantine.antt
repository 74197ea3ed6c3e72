-- ===== src/Sync/Quarantine.antt =====
-- packages/nauro/src/nauro/sync/quarantine.py: the names of the backups of remote decisions that were
-- not installed. The digest, UTF-8 and `int(text, 16)` of two characters come from the standard library
-- and are arguments; a path is encoded as the bytes of its UTF-8.
pub mod Tokens
pub mod Laws
use nauro.Base.{
  ℕ, zero, suc, ◌+◌, ◌-◌, ◌*◌, ◌/◌, ◌%◌, Bool, true, false, ◌&&◌, ◌||◌, List, [], ◌∷◌, ◌++◌, Option,
  none, some, Text, codes, nat_beq, leb, ltb, length, take, drop, drop_end, ends_with, contains,
  ◌==◌, if◌then◌else◌, text_eq, nat_eq, Eq,
}
use nauro.Merge.Conflict.{Bytes, Backups, read_backup, write_backup}

abbrev pub is_safe_name_char : ℕ → Bool
is_safe_name_char c =
    (leb b'a' c && leb c b'z')
    || (leb b'A' c && leb c b'Z')
    || (leb b'0' c && leb c b'9')
    || contains (codes "._-") c

abbrev pub upper_hex : ℕ → ℕ
upper_hex d = if ltb d 10 then b'0' + d else 55 + d

abbrev pub encode_byte : ℕ → Text
encode_byte byte =
    if is_safe_name_char byte
    then byte ∷ []
    else b'%' ∷ upper_hex (byte / 16) ∷ upper_hex (byte % 16) ∷ []

unfoldable pub encode_bytes : Bytes → Text
encode_bytes [] = []
encode_bytes (byte ∷ bytes) = encode_byte byte ++ encode_bytes bytes

-- `_encode_path` of the bytes of a path
unfoldable pub encode_path : Bytes → Text
encode_path path =
    let encoded = encode_bytes path in
    if ends_with (codes ".") encoded then drop_end 1 encoded ++ codes "%2E" else encoded

abbrev pub max_encoded_path : ℕ
max_encoded_path = 145

abbrev pub is_percent_at : ℕ → Text → Bool
is_percent_at zero (c ∷ s) = nat_beq c b'%'
is_percent_at (suc n) (c ∷ s) = is_percent_at n s
is_percent_at n [] = false

-- the first `cut` characters, without an escape that begins in the last two
unfoldable pub cut_encoded : ℕ → Text → Text
cut_encoded cut encoded =
    if leb 2 cut && is_percent_at (cut - 2) encoded
    then take (cut - 2) encoded
    else if leb 1 cut && is_percent_at (cut - 1) encoded
    then take (cut - 1) encoded
    else take cut encoded

unfoldable pub truncate_encoded : Text → Text
truncate_encoded encoded =
    if leb (length encoded) max_encoded_path then encoded else cut_encoded max_encoded_path encoded

abbrev decoded : Option ℕ → Bytes → Bytes → Bytes
decoded none as_char after_escape = as_char
decoded (some byte) as_char after_escape = byte ∷ after_escape

module _ (utf8 : ℕ → Bytes) (int16 : ℕ → ℕ → Option ℕ) where
  -- `_decoded_bytes`, up to the bytes
  unfoldable pub decoded_bytes : Text → Bytes
  decoded_bytes [] = []
  decoded_bytes (c ∷ []) = utf8 c
  decoded_bytes (c ∷ d ∷ []) = let rest = decoded_bytes (d ∷ []) in utf8 c ++ rest
  decoded_bytes (c ∷ d ∷ e ∷ s) =
      let next = decoded_bytes (d ∷ e ∷ s) in
      let after_escape = decoded_bytes s in
      if nat_beq c b'%' then decoded (int16 d e) (utf8 c ++ next) after_escape else utf8 c ++ next

  -- `_decode_path`; `decode_replace` is `decode("utf-8", errors="replace")`
  unfoldable pub decode_path : (Bytes → Text) → Text → Text
  decode_path decode_replace encoded = decode_replace (decoded_bytes encoded)

module _ (digest : Bytes → Text) where
  unfoldable pub quarantine_key : Bytes → Bytes → Text
  quarantine_key remote_etag remote_content =
      digest (if remote_etag == [] then remote_content else remote_etag)

  unfoldable pub path_key : Bytes → Text
  path_key remote_path = digest remote_path

  unfoldable pub quarantine_backup_name : Bytes → Text → Text
  quarantine_backup_name remote_path key =
      codes "number-collision-"
      ++ key
      ++ b'-' ∷ path_key remote_path
      ++ b'-' ∷ truncate_encoded (encode_path remote_path)

  -- `save_quarantine_backup` in a folder that is admitted
  unfoldable pub save_quarantine_backup : Bytes → Bytes → Bytes → Backups → Text × Backups
  save_quarantine_backup remote_path remote_content remote_etag backups =
      let name = quarantine_backup_name remote_path (quarantine_key remote_etag remote_content) in
      elim (read_backup name backups) [
        | some existing ↦ (name, backups)
        | none ↦ (name, write_backup name remote_content backups)
      ]
