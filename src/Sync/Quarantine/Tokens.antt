-- ===== src/Sync/Quarantine/Tokens.antt =====
-- An encoded path as a list of tokens, a character or an escape each:
-- packages/nauro/src/nauro/sync/quarantine.py.
use nauro.Base.{
  ℕ, zero, suc, ◌+◌, ◌-◌, ◌*◌, ◌/◌, ◌%◌, ◌<◌, ◌≡◌, ◌≢◌, refl, sym, ap, ◌∙◌, true, false, List, [],
  ◌∷◌, ◌++◌, map, Text, codes, nat_beq, nat_beq_iff, length, take, drop, drop_end, ends_with,
  starts_with, contains, if◌then◌else◌, text_eq, nat_eq, arith, Bool-cases, inl, inr, All,
  length-append,
}
use mathlib.Core.List.{reverse_aux}
use nauro.Merge.Conflict.{Bytes}
use nauro.Sync.Quarantine.{is_safe_name_char, upper_hex, encode_bytes, encode_path}

pub data Token : Type 0 where
  plain : ℕ → Token
  escape : ℕ → ℕ → Token

abbrev pub Sound : Token → Type 0
Sound (plain c) = (nat_beq c b'%' ≡ false) × (c < 128)
Sound (escape h l) = (h < 16) × (l < 16)

abbrev pub value : Token → ℕ
value (plain c) = c
value (escape h l) = 16 * h + l

unfoldable pub render : List Token → Text
render [] = []
render (plain c ∷ ts) = c ∷ render ts
render (escape h l ∷ ts) = b'%' ∷ upper_hex h ∷ upper_hex l ∷ render ts

abbrev token : ℕ → Token
token b = if is_safe_name_char b then plain b else escape (b / 16) (b % 16)

-- a path whose encoding is the rendering of the tokens
abbrev pub Tokens : Text → Bytes → Type 0
Tokens s path = (ts : List Token) × (s ≡ render ts) × (map value ts ≡ path) × All Sound ts

token-Sound : (b : ℕ) → b < 256 → Sound (token b) × (value (token b) ≡ b)
unfolding contains
token-Sound b h = elim (Bool-cases (is_safe_name_char b)) [
  | inl e ↦ rw e ((ground arith, ground arith), refl)
  | inr e ↦ rw e ((omega arith, omega arith), omega arith)
]

encode_bytes-Tokens : (path : Bytes) → All (λ b. b < 256) path → Tokens (encode_bytes path) path
unfolding encode_bytes render
encode_bytes-Tokens [] h = ([], refl, refl, tt)
encode_bytes-Tokens (b ∷ path) h =
    let (ts, e, v, s) = encode_bytes-Tokens path h.1 in
    let (sound, same) = token-Sound b h.0 in
    (
      token b ∷ ts,
      elim (Bool-cases (is_safe_name_char b)) [
        | inl q ↦ rw q (ap (λ w. b ∷ w) e)
        | inr q ↦ rw q (ap (λ w. b'%' ∷ upper_hex (b / 16) ∷ upper_hex (b % 16) ∷ w) e)
      ],
      rw same (ap (λ w. b ∷ w) v),
      (sound, s),
    )

-- the digits of an escape are neither dots nor percent signs
pub upper_hex-other : (d : ℕ) → d < 16 → (upper_hex d ≢ b'.') × (nat_beq (upper_hex d) b'%' ≡ false)
upper_hex-other d h = (λ e. ground arith, ground arith)

abbrev char_at : ℕ → Text → ℕ
char_at n [] = 0
char_at zero (c ∷ s) = c
char_at (suc n) (c ∷ s) = char_at n s

-- the last token, if it is a dot, escaped
escape_dot :
    (ts : List Token) (init : Text)
    → All Sound ts
    → render ts ≡ init ++ b'.' ∷ []
    → Tokens (init ++ codes "%2E") (map value ts)
unfolding render
escape_dot [] [] h e = cc
escape_dot [] (i ∷ init) h e = cc
escape_dot (plain c ∷ []) [] h e = (
  escape 2 14 ∷ [],
  refl,
  ap (λ w. w ∷ []) (sym (ap (char_at 0) e)),
  ((omega arith, omega arith), tt),
)
escape_dot (plain c ∷ plain d ∷ ts) [] h e = cc
escape_dot (plain c ∷ escape a l ∷ ts) [] h e = cc
escape_dot (plain c ∷ ts) (i ∷ init) h e =
    let (us, q, v, s) = escape_dot ts init h.1 (ap (drop 1) e) in
    let first : c ≡ i = ap (char_at 0) e in
    rw (← first) (plain c ∷ us, ap (λ w. c ∷ w) q, ap (λ w. c ∷ w) v, (h.0, s))
escape_dot (escape a l ∷ ts) [] h e =
    let first : ◌≡◌ {A = ℕ} b'%' b'.' = ap (char_at 0) e in ground arith
escape_dot (escape a l ∷ ts) (i ∷ []) h e = absurd ((upper_hex-other a h.0.0).0 (ap (char_at 1) e))
escape_dot (escape a l ∷ ts) (i ∷ j ∷ []) h e =
    absurd ((upper_hex-other l h.0.1).0 (ap (char_at 2) e))
escape_dot (escape a l ∷ ts) (i ∷ j ∷ k ∷ init) h e =
    let (us, q, v, s) = escape_dot ts init h.1 (ap (drop 3) e) in
    let first : b'%' ≡ i = ap (char_at 0) e in
    let high : upper_hex a ≡ j = ap (char_at 1) e in
    let low : upper_hex l ≡ k = ap (char_at 2) e in
    rw (← first) (
      rw (← high) (
        rw (← low) (
          escape a l ∷ us,
          ap (λ w. b'%' ∷ upper_hex a ∷ upper_hex l ∷ w) q,
          ap (λ w. (16 * a + l) ∷ w) v,
          (h.0, s),
        )))

-- A text that ends in a dot is another text before the dot.
ends_dot-split :
    (c : ℕ) (s r : Text)
    → starts_with (codes ".") (reverse_aux (c ∷ s) r) ≡ true
    → (init : Text) × (c ∷ s ≡ init ++ b'.' ∷ [])
unfolding starts_with
ends_dot-split c [] r h = ([], ap (λ w. w ∷ []) (ground (arith, nat_beq_iff b'.' c)))
ends_dot-split c (d ∷ s) r h =
    let (init, e) = ends_dot-split d s (c ∷ r) h in (c ∷ init, ap (λ w. c ∷ w) e)

ends_with_dot :
    (s : Text) → ends_with (codes ".") s ≡ true → (init : Text) × (s ≡ init ++ b'.' ∷ [])
unfolding ends_with
ends_with_dot [] h = unfold starts_with in cc
ends_with_dot (c ∷ s) h = ends_dot-split c s [] h

take-init : (init t : Text) → take (length init) (init ++ t) ≡ init
take-init [] t = refl
take-init (c ∷ init) t = ap (λ w. c ∷ w) (take-init init t)

drop_end-dot : (init : Text) → drop_end 1 (init ++ b'.' ∷ []) ≡ init
unfolding drop_end
drop_end-dot init =
    let n : length (init ++ b'.' ∷ []) - 1 ≡ length init =
      omega (arith, length-append init (b'.' ∷ [])) in
    rw n (take-init init (b'.' ∷ []))

pub encode_path-Tokens : (path : Bytes) → All (λ b. b < 256) path → Tokens (encode_path path) path
unfolding encode_path
encode_path-Tokens path h = elim (Bool-cases (ends_with (codes ".") (encode_bytes path))) [
  | inr e ↦ rw e (encode_bytes-Tokens path h)
  | inl e ↦
      let (init, p) = ends_with_dot (encode_bytes path) e in
      let (ts, q, v, s) = encode_bytes-Tokens path h in
      let (us, q2, v2, s2) = escape_dot ts init s (sym q ∙ p) in
      rw e (
        us,
        ap (λ t. drop_end 1 t ++ codes "%2E") p
            ∙ ap (λ t. t ++ codes "%2E") (drop_end-dot init)
            ∙ q2,
        v2 ∙ v,
        s2,
      )
]
