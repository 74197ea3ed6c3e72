-- ===== src/Sync/Quarantine/Laws.antt =====
-- What is read back from the name of a quarantined backup:
-- packages/nauro/src/nauro/sync/quarantine.py.
use nauro.Base.{
  ℕ, zero, suc, ◌+◌, ◌-◌, ◌*◌, ◌≤◌, ◌<◌, ◌≡◌, refl, sym, ap, ◌∙◌, false, ◌&&◌, List, [], ◌∷◌, ◌++◌,
  map, Option, some, Text, nat_beq, leb, length, take, text_eq, nat_eq, arith, Bool-cases, inl, inr,
  All,
}
use mathlib.Core.List.{map-append, append-nil}
use nauro.Merge.Conflict.{Bytes}
use nauro.Sync.Quarantine.{
  upper_hex, encode_path, max_encoded_path, is_percent_at, cut_encoded, truncate_encoded,
  decoded_bytes, decode_path,
}
use nauro.Sync.Quarantine.Tokens.{
  Token, plain, escape, Sound, value, render, upper_hex-other, encode_path-Tokens,
}

-- What `str.encode` and `int` document: ASCII is itself, and two upper-case hexadecimal digits are
-- read as their value.
pub record AsciiBytes (utf8 : ℕ → Bytes) (int16 : ℕ → ℕ → Option ℕ) : Type 0 where
  pub ascii : (c : ℕ) → c < 128 → utf8 c ≡ c ∷ []
  pub hex : (h l : ℕ) → h < 16 → l < 16 → int16 (upper_hex h) (upper_hex l) ≡ some (16 * h + l)

-- Reading

module _ (utf8 : ℕ → Bytes) (int16 : ℕ → ℕ → Option ℕ) (codec : AsciiBytes utf8 int16) where
  decode-plain :
      (c : ℕ) (s : Text)
      → nat_beq c b'%' ≡ false
      → c < 128
      → decoded_bytes utf8 int16 (c ∷ s) ≡ c ∷ decoded_bytes utf8 int16 s
  unfolding decoded_bytes
  decode-plain c [] n h = codec.ascii c h
  decode-plain c (d ∷ []) n h = ap (λ p. p ++ utf8 d) (codec.ascii c h)
  decode-plain c (d ∷ e ∷ s) n h = rw n (rw (codec.ascii c h) refl)

  decode-escape :
      (h l : ℕ) (s : Text)
      → h < 16
      → l < 16
      → decoded_bytes utf8 int16 (b'%' ∷ upper_hex h ∷ upper_hex l ∷ s)
        ≡ (16 * h + l) ∷ decoded_bytes utf8 int16 s
  unfolding decoded_bytes
  decode-escape h l s p q = rw (codec.hex h l p q) refl

  decode-render :
      (ts : List Token) → All Sound ts → decoded_bytes utf8 int16 (render ts) ≡ map value ts
  unfolding render
  decode-render [] h = unfold decoded_bytes in refl
  decode-render (plain c ∷ ts) h =
      decode-plain c (render ts) h.0.0 h.0.1 ∙ ap (λ w. c ∷ w) (decode-render ts h.1)
  decode-render (escape a l ∷ ts) h =
      decode-escape a l (render ts) h.0.0 h.0.1 ∙ ap (λ w. (16 * a + l) ∷ w) (decode-render ts h.1)

-- Cutting

cut-plain :
    (n c : ℕ) (s : Text)
    → nat_beq c b'%' ≡ false
    → cut_encoded (suc n) (c ∷ s) ≡ c ∷ cut_encoded n s
unfolding cut_encoded
cut-plain zero c s h = ground arith
cut-plain (suc zero) c s h = ground arith
cut-plain (suc (suc n)) c s h = ground arith

cut-escape :
    (n a l : ℕ) (s : Text)
    → nat_beq a b'%' ≡ false
    → nat_beq l b'%' ≡ false
    → cut_encoded (suc (suc (suc n))) (b'%' ∷ a ∷ l ∷ s) ≡ b'%' ∷ a ∷ l ∷ cut_encoded n s
unfolding cut_encoded
cut-escape zero a l s h k = ground arith
cut-escape (suc zero) a l s h k = ground arith
cut-escape (suc (suc n)) a l s h k = ground arith

cut-nil : (n : ℕ) → cut_encoded n [] ≡ []
unfolding cut_encoded
cut-nil zero = refl
cut-nil (suc zero) = refl
cut-nil (suc (suc n)) = ground arith

-- in an escape there is nothing to keep
cut-open_escape :
    (s : Text)
    → (cut_encoded 0 s ≡ []) × (cut_encoded 1 (b'%' ∷ s) ≡ []) × (cut_encoded 2 (b'%' ∷ s) ≡ [])
unfolding cut_encoded
cut-open_escape s = (refl, refl, refl)

-- A cut keeps whole tokens.
cut-render :
    (n : ℕ) (ts : List Token)
    → All Sound ts
    → (kept left : List Token) × (ts ≡ kept ++ left)
      × (cut_encoded n (render ts) ≡ render kept)
      × All Sound kept
unfolding render
cut-render n [] h = ([], [], refl, cut-nil n, tt)
cut-render zero (t ∷ ts) h = ([], t ∷ ts, refl, (cut-open_escape (render (t ∷ ts))).0, tt)
cut-render (suc n) (plain c ∷ ts) h =
    let (kept, left, e, q, s) = cut-render n ts h.1 in
    (
      plain c ∷ kept,
      left,
      ap (λ w. plain c ∷ w) e,
      cut-plain n c (render ts) h.0.0 ∙ ap (λ w. c ∷ w) q,
      (h.0, s),
    )
cut-render (suc zero) (escape a l ∷ ts) h = ([], escape a l ∷ ts, refl, (cut-open_escape _).1, tt)
cut-render (suc (suc zero)) (escape a l ∷ ts) h =
    ([], escape a l ∷ ts, refl, (cut-open_escape _).2, tt)
cut-render (suc (suc (suc n))) (escape a l ∷ ts) h =
    let (kept, left, e, q, s) = cut-render n ts h.1 in
    let whole =
      cut-escape n (upper_hex a) (upper_hex l) (render ts) (upper_hex-other a h.0.0).1
        (upper_hex-other l h.0.1).1 in
    (
      escape a l ∷ kept,
      left,
      ap (λ w. escape a l ∷ w) e,
      whole ∙ ap (λ w. b'%' ∷ upper_hex a ∷ upper_hex l ∷ w) q,
      (h.0, s),
    )

truncate-render :
    (ts : List Token)
    → All Sound ts
    → (kept left : List Token) × (ts ≡ kept ++ left)
      × (truncate_encoded (render ts) ≡ render kept)
      × All Sound kept
unfolding truncate_encoded
truncate-render ts h = elim (Bool-cases (leb (length (render ts)) max_encoded_path)) [
  | inl e ↦ rw e (ts, [], rw append-nil refl, refl, h)
  | inr e ↦ rw e (cut-render max_encoded_path ts h)
]

length-take : (n : ℕ) (s : Text) → length (take n s) ≤ n
length-take zero s = omega arith
length-take (suc n) [] = omega arith
length-take (suc n) (c ∷ s) = omega (arith, length-take n s)

length-cut : (n : ℕ) (s : Text) → length (cut_encoded n s) ≤ n
unfolding cut_encoded
length-cut n s = elim (Bool-cases (leb 2 n && is_percent_at (n - 2) s)) [
  | inl e ↦ rw e (omega (arith, length-take (n - 2) s))
  | inr e ↦ rw e (elim (Bool-cases (leb 1 n && is_percent_at (n - 1) s)) [
    | inl q ↦ rw q (omega (arith, length-take (n - 1) s))
    | inr q ↦ rw q (length-take n s)
  ])
]

length-truncate : (s : Text) → length (truncate_encoded s) ≤ max_encoded_path
unfolding truncate_encoded
length-truncate s = elim (Bool-cases (leb (length s) max_encoded_path)) [
  | inl e ↦ rw e (ground arith)
  | inr e ↦ rw e (length-cut max_encoded_path s)
]

decoded-encode_path :
    (utf8 : ℕ → Bytes) (int16 : ℕ → ℕ → Option ℕ) (path : Bytes)
    → AsciiBytes utf8 int16
    → All (λ b. b < 256) path
    → decoded_bytes utf8 int16 (encode_path path) ≡ path
decoded-encode_path utf8 int16 path codec h =
    let (ts, e, v, s) = encode_path-Tokens path h in
    ap (decoded_bytes utf8 int16) e ∙ decode-render utf8 int16 codec ts s ∙ v

-- Where a backup's name is not cut, the path that is read back from it is the path, if the path's
-- UTF-8 is bytes that decode to it.
pub decode-encode_path :
    (utf8 : ℕ → Bytes) (int16 : ℕ → ℕ → Option ℕ) (encode_utf8 : Text → Bytes)
    (decode_replace : Bytes → Text) (path : Text)
    → AsciiBytes utf8 int16
    → All (λ b. b < 256) (encode_utf8 path)
    → decode_replace (encode_utf8 path) ≡ path
    → decode_path utf8 int16 decode_replace (encode_path (encode_utf8 path)) ≡ path
unfolding decode_path
decode-encode_path utf8 int16 encode_utf8 decode_replace path codec h back =
    ap decode_replace (decoded-encode_path utf8 int16 (encode_utf8 path) codec h) ∙ back

-- The path in a backup's name has at most 145 characters, and the bytes that are collected from it
-- are the first bytes of the path's UTF-8: a cut never leaves a part of an escape. It may leave a
-- part of a character, which only the decoding of these bytes as UTF-8 replaces.
pub decoded-truncate_encoded :
    (utf8 : ℕ → Bytes) (int16 : ℕ → ℕ → Option ℕ) (path : Bytes)
    → AsciiBytes utf8 int16
    → All (λ b. b < 256) path
    → (length (truncate_encoded (encode_path path)) ≤ 145)
      × ((left : Bytes) × (path
            ≡ decoded_bytes utf8 int16 (truncate_encoded (encode_path path)) ++ left))
decoded-truncate_encoded utf8 int16 path codec h =
    let (ts, e, v, s) = encode_path-Tokens path h in
    let (kept, left, q, t, k) = truncate-render ts s in
    let read =
      ap (λ w. decoded_bytes utf8 int16 (truncate_encoded w)) e
      ∙ ap (decoded_bytes utf8 int16) t
      ∙ decode-render utf8 int16 codec kept k in
    (
      length-truncate (encode_path path),
      (map value left, rw read (sym v ∙ ap (map value) q ∙ map-append value kept left)),
    )
