-- ===== src/Sync/Collisions/Laws.antt =====
-- Which local file a verdict may move: packages/nauro/src/nauro/sync/collisions.py.
use nauro.Base.{
  ℕ, ◌≡◌, ◌≢◌, All, refl, sym, ap, ◌∙◌, Bool, true, false, not, ◌&&◌, List, [], ◌∷◌, Option, none,
  some, Text, arith, Bool-cases, Option-cases, inl, inr, nat_beq, nat_beq_iff, select, contains,
  if◌then◌else◌, text_eq, nat_eq, ◌==◌,
}
use mathlib.Core.List.{Mem, mem-cons_self, mem-cons_of_mem}
use nauro.Sync.Names.{is_canonical_decision_path, extract_decision_number}
use nauro.Sync.Corpus.{
  DecisionFile, DecisionCorpus, IrregularEntry, read_bytes, holders, holders_in, file_named,
  named_in, irregular_holders, has_name, case_variant, is_irregular,
}
use nauro.Sync.Corpus.Files.{Listed}
use nauro.Sync.Collisions.{
  DecisionOutcome, canonicalize, renumber_local, QuarantineReason, DecisionVerdict, verdict, refuse,
  relative_path, Surroundings, isolation_defect, classify_collider, classify_unpublished,
  sibling_defect, classify_same_path, classify_number, compare_bytes, classify_decision,
  is_rewritable_text, filename_of, classify_holders, sibling_verdict, classify_claimed,
  classify_irregular, siblings_defect, contested_defect, listed_defect, classify_listed,
  classify_unlisted, classify_named,
}

abbrev pub moves : DecisionOutcome → Bool
moves canonicalize = true
moves renumber_local = true
moves _ = false

-- why a file may move: it is a twin of the remote one, or it is isolated and can be renumbered
abbrev pub Grounds : Surroundings → DecisionFile → Text → DecisionOutcome → Type 0
Grounds s f remote canonicalize = read_bytes s.directory f.name ≡ some remote
Grounds s f remote renumber_local =
    (isolation_defect s.readers s.corpus f (f.number ∷ []) ≡ none)
    × (is_rewritable_text f.text f.number ≡ true)
Grounds s f remote _ = true ≡ false

pub record Movable (s : Surroundings) (remote : Text) (v : DecisionVerdict) (f : DecisionFile)
    : Type 0 where
  pub sole : v.colliders ≡ f.name ∷ []
  pub untracked : contains s.tracked (relative_path f) ≡ false
  pub unpublished : contains s.manifest (relative_path f) ≡ false
  pub grounds : Grounds s f remote v.outcome

pub select-head_mem {ℓ} :
    {A : Type ℓ} (p : A → Bool) (xs : List A) {a : A} {rest : List A}
    → select p xs ≡ a ∷ rest
    → Mem a xs × (p a ≡ true)
unfolding select
select-head_mem p [] h = cc
select-head_mem {A} p (x ∷ xs) {a} {rest} h = go (p x) refl h (select-head_mem p xs)
  where
    go :
        (b : Bool)
        → p x ≡ b
        → (if b then x ∷ select p xs else select p xs) ≡ a ∷ rest
        → (select p xs ≡ a ∷ rest → Mem a xs × (p a ≡ true))
        → Mem a (x ∷ xs) × (p a ≡ true)
    go true e k ih = let q : x ≡ a = cc in rw (← q) (mem-cons_self, e)
    go false e k ih = let (m, t) = ih k in (mem-cons_of_mem x m, t)

classify_unpublished-Movable :
    (s : Surroundings) (f : DecisionFile) (remote bytes : Text)
    → contains s.tracked (relative_path f) ≡ false
    → contains s.manifest (relative_path f) ≡ false
    → read_bytes s.directory f.name ≡ some bytes
    → moves (classify_unpublished s f f.number remote bytes).outcome ≡ true
    → Movable s remote (classify_unpublished s f f.number remote bytes) f
unfolding classify_unpublished verdict refuse
classify_unpublished-Movable s f remote bytes t m b h =
    elim (Bool-cases (text_eq.beq bytes remote)) [
      | inl e ↦ rw e (record {
        sole = refl;
        untracked = t;
        unpublished = m;
        grounds = b ∙ ap some ((text_eq.beq_iff bytes remote).0 e);
      })
      | inr e ↦ elim (Option-cases (isolation_defect s.readers s.corpus f (f.number ∷ []))) [
        | inr (d, e2) ↦ ground arith
        | inl e2 ↦ elim (Bool-cases (is_rewritable_text f.text f.number)) [
          | inl e3 ↦ rw e (
              rw e2 (
                rw e3 (record { sole = refl; untracked = t; unpublished = m; grounds = (e2, e3) })))
          | inr e3 ↦ ground arith
        ]
      ]
    ]

select-head_p {ℓ} :
    {A : Type ℓ} (p : A → Bool) (xs : List A) {a : A} {rest : List A}
    → select p xs ≡ a ∷ rest
    → p a ≡ true
select-head_p p xs e = (select-head_mem p xs e).1

select-select {ℓ} :
    {A : Type ℓ} (p q : A → Bool) (xs : List A)
    → select p (select q xs) ≡ select (λ x. q x && p x) xs
unfolding select
select-select p q [] = refl
select-select p q (x ∷ xs) = ground (arith, select-select p q xs)

other_holder-sole :
    (corpus : DecisionCorpus) (n : ℕ) (name : Text) {f : DecisionFile} {rest : List DecisionFile}
    → select (λ holder. not (holder.name == name)) (holders corpus n) ≡ f ∷ rest
    → Mem f corpus.files × (f.number ≡ n)
unfolding holders holders_in
other_holder-sole corpus n name {f} h =
    let both : DecisionFile → Bool = λ entry. nat_beq entry.number n && not (entry.name == name) in
    let (m, e) = select-head_mem both corpus.files (
      sym (
        select-select (λ holder. not (holder.name == name)) (λ entry. nat_beq entry.number n)
          corpus.files)
      ∙ h) in
    (m, ground (arith, nat_beq_iff f.number n))

-- what a verdict on a name gives of the file that it moves
abbrev Sound : Surroundings → Text → Text → DecisionVerdict → Type 0
Sound s filename remote v =
    moves v.outcome ≡ true
    → (f : DecisionFile) × (Mem f s.corpus.files × (f.name ≢ filename) × Movable s remote v f)

pub classify_collider-Movable :
    (s : Surroundings) (f : DecisionFile) (remote : Text)
    → moves (classify_collider s f f.number remote).outcome ≡ true
    → Movable s remote (classify_collider s f f.number remote) f
unfolding classify_collider refuse
classify_collider-Movable s f remote h = elim (Bool-cases (contains s.tracked (relative_path f))) [
  | inl e ↦ ground arith
  | inr t ↦ elim (Bool-cases (contains s.manifest (relative_path f))) [
    | inl e ↦ ground arith
    | inr m ↦ elim (Option-cases (read_bytes s.directory f.name)) [
      | inl e ↦ ground arith
      | inr (bytes, e) ↦
          let k : moves (classify_unpublished s f f.number remote bytes).outcome ≡ true =
            ground arith in
          rw t (rw m (rw e (classify_unpublished-Movable s f remote bytes t m e k)))
    ]
  ]
]

-- the one holder of a number is a listed file that has it
holder-sole :
    (corpus : DecisionCorpus) (n : ℕ) {f : DecisionFile} {rest : List DecisionFile}
    → holders corpus n ≡ f ∷ rest
    → Mem f corpus.files × (f.number ≡ n)
unfolding holders holders_in
holder-sole corpus n {f} h =
    let (m, e) = select-head_mem (λ entry. nat_beq entry.number n) corpus.files h in
    (m, (nat_beq_iff f.number n).0 e)

select-head_All {ℓ} :
    {A : Type ℓ} (P : A → Type 0) (p : A → Bool) (xs : List A) {a : A} {rest : List A}
    → All P xs
    → select p xs ≡ a ∷ rest
    → P a
unfolding select
select-head_All P p [] h e = cc
select-head_All P p (x ∷ xs) {a} h e = elim (Bool-cases (p x)) [
  | inl q ↦ let same : x ≡ a = let found = rw q at e in cc in rw (← same) h.0
  | inr q ↦ select-head_All P p xs h.1 (rw q at e)
]

-- a file that is found under a name has it
named_in-name :
    (name : Text) (files : List DecisionFile) {entry : DecisionFile}
    → named_in name files ≡ some entry
    → entry.name ≡ name
unfolding named_in
named_in-name name [] e = cc
named_in-name name (f ∷ files) {entry} e = elim (Bool-cases (text_eq.beq f.name name)) [
  | inl q ↦
      let same : f ≡ entry = let found = rw q at e in cc in
      ap (λ g. g.name) (sym same) ∙ (text_eq.beq_iff f.name name).0 q
  | inr q ↦ named_in-name name files (rw q at e)
]

module _ (s : Surroundings) (filename remote : Text) where
  refuse-Sound :
      (colliders : List Text) (reason : QuarantineReason)
      → Sound s filename remote (refuse colliders reason)
  unfolding refuse
  refuse-Sound colliders reason h = cc

  -- the same under another name of the number
  classify_collider-Sound :
      (f : DecisionFile) (n : ℕ)
      → Mem f s.corpus.files × (f.number ≡ n)
      → f.name ≢ filename
      → Sound s filename remote (classify_collider s f n remote)
  classify_collider-Sound f n (m, q) other =
      rw (← q) (λ k. (f, (m, other, classify_collider-Movable s f remote k)))

  -- where the name is not listed, the holders of a number have other names
  abbrev Unlisted : Type 0
  Unlisted = Listed s.corpus × (has_name s.corpus filename ≡ false)

  holder-other :
      (n : ℕ) {f : DecisionFile} {rest : List DecisionFile}
      → Unlisted
      → holders s.corpus n ≡ f ∷ rest
      → f.name ≢ filename
  unfolding holders holders_in
  holder-other n {f} (all_listed, absent) e same =
      let listed =
        select-head_All (λ g. has_name s.corpus g.name ≡ true) (λ entry. nat_beq entry.number n)
          s.corpus.files all_listed.names_listed e in
      let wrong = ap (has_name s.corpus) same in cc

  classify_holders-Sound :
      (n : ℕ) (fs : List DecisionFile)
      → Unlisted
      → holders s.corpus n ≡ fs
      → Sound s filename remote (classify_holders s n remote fs)
  unfolding verdict
  classify_holders-Sound n [] u e = λ k. cc
  classify_holders-Sound n (f ∷ []) u e =
      classify_collider-Sound f n (holder-sole s.corpus n e) (holder-other n u e)
  classify_holders-Sound n (f ∷ g ∷ fs) u e = refuse-Sound _ _

  classify_irregular-Sound :
      (n : ℕ) (is : List IrregularEntry)
      → Unlisted
      → Sound s filename remote (classify_irregular s n remote is)
  classify_irregular-Sound n [] u = classify_holders-Sound n (holders s.corpus n) u refl
  classify_irregular-Sound n (i ∷ is) u = refuse-Sound _ _

  classify_claimed-Sound :
      (o : Option ℕ) → Unlisted → Sound s filename remote (classify_claimed s remote o)
  unfolding verdict
  classify_claimed-Sound none u = λ k. cc
  classify_claimed-Sound (some n) u = classify_irregular-Sound n (irregular_holders s.corpus n) u

  compare_bytes-Sound :
      (o : Option Text) → Sound s filename remote (compare_bytes filename o remote)
  unfolding compare_bytes verdict
  compare_bytes-Sound none = refuse-Sound _ _
  compare_bytes-Sound (some bytes) = λ k. ground arith

  sibling_verdict-Sound :
      (v : DecisionVerdict)
      → Sound s filename remote v
      → Sound s filename remote (sibling_verdict v)
  unfolding refuse
  sibling_verdict-Sound v h k =
      let same : sibling_verdict v ≡ v = ground arith in rw same (h (rw same at k))

  siblings_defect-Sound :
      (entry : DecisionFile) (fs : List DecisionFile)
      → entry.name ≡ filename
      → select (λ holder. not (holder.name == entry.name)) (holders s.corpus entry.number) ≡ fs
      → Sound s filename remote
          (classify_listed s filename remote (siblings_defect s entry remote fs))
  siblings_defect-Sound entry [] p q = compare_bytes-Sound (read_bytes s.directory filename)
  siblings_defect-Sound entry (f ∷ []) p q = sibling_verdict-Sound _ (
      classify_collider-Sound f entry.number (other_holder-sole s.corpus entry.number entry.name q)
        (λ same.
          let other =
            select-head_p (λ holder. not (holder.name == entry.name))
              (holders s.corpus entry.number) q in
          let equal = (text_eq.beq_iff f.name entry.name).1 (same ∙ sym p) in ground arith))
  siblings_defect-Sound entry (f ∷ g ∷ fs) p q = refuse-Sound _ _

  contested_defect-Sound :
      (entry : DecisionFile) (is : List IrregularEntry)
      → entry.name ≡ filename
      → Sound s filename remote
          (classify_listed s filename remote (contested_defect s entry remote is))
  contested_defect-Sound entry [] p = siblings_defect-Sound entry _ p refl
  contested_defect-Sound entry (i ∷ is) p = refuse-Sound _ _

  listed_defect-Sound :
      (o : Option DecisionFile)
      → file_named s.corpus filename ≡ o
      → Sound s filename remote (classify_listed s filename remote (listed_defect s remote o))
  unfolding sibling_defect file_named
  listed_defect-Sound none e = compare_bytes-Sound (read_bytes s.directory filename)
  listed_defect-Sound (some entry) e =
      contested_defect-Sound entry (irregular_holders s.corpus entry.number)
        (named_in-name filename s.corpus.files e)

  if_Sound :
      (b : Bool) (v w : DecisionVerdict)
      → Sound s filename remote v
      → Sound s filename remote w
      → Sound s filename remote (if b then v else w)
  if_Sound true v w h k = h
  if_Sound false v w h k = k

  classify_same_path-Sound : Sound s filename remote (classify_same_path s filename remote)
  unfolding classify_same_path
  classify_same_path-Sound =
      if_Sound (is_irregular s.corpus filename) _ _ (refuse-Sound _ _)
        (listed_defect-Sound (file_named s.corpus filename) refl)

  classify_unlisted-Sound :
      (o : Option Text) → Unlisted → Sound s filename remote (classify_unlisted s filename remote o)
  unfolding classify_number
  classify_unlisted-Sound (some v) u = refuse-Sound _ _
  classify_unlisted-Sound none u =
      classify_claimed-Sound (extract_decision_number s.readers.unicode filename) u

  classify_named-Sound :
      Listed s.corpus → Sound s filename remote (classify_named s filename remote)
  classify_named-Sound listed = elim (Bool-cases (has_name s.corpus filename)) [
    | inl e ↦ rw e classify_same_path-Sound
    | inr e ↦ rw e (classify_unlisted-Sound (case_variant s.readers s.corpus filename) (listed, e))
  ]

-- A verdict that moves a local file names that file alone. Where the files of the
-- view have different names, all of them listed, the file is one that the view lists under another name than the remote decision's, neither tracked
-- by the sync state nor held by the server's manifest, and it is either the bytes of the remote
-- decision or isolated, with a heading that can be rewritten.
pub moved_file-Movable :
    (s : Surroundings) (remote_path remote : Text)
    → Listed s.corpus
    → moves (classify_decision s remote_path remote).outcome ≡ true
    → (f : DecisionFile) × (Mem f s.corpus.files
        × (f.name ≢ filename_of remote_path)
        × Movable s remote (classify_decision s remote_path remote) f)
unfolding classify_decision
moved_file-Movable s remote_path remote listed =
    let filename = filename_of remote_path in
    if_Sound s filename remote (is_canonical_decision_path s.readers.unicode remote_path) _ _
      (classify_named-Sound s filename remote listed) (refuse-Sound s filename remote _ _)
