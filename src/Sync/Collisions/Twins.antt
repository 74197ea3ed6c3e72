-- ===== src/Sync/Collisions/Twins.antt =====
-- Which file a remote decision is adopted from under another name:
-- packages/nauro/src/nauro/sync/collisions.py.
use nauro.Base.{
  ℕ, ◌≡◌, refl, Bool, true, false, List, [], ◌∷◌, Option, none, some, Text, arith, if◌then◌else◌,
  text_eq, nat_eq,
}
use nauro.Sync.Names.{is_canonical_decision_path, extract_decision_number}
use nauro.Sync.Corpus.{
  DecisionFile, DecisionCorpus, IrregularEntry, read_bytes, holders, file_named, irregular_holders,
  has_name, case_variant,
}
use nauro.Sync.Collisions.{
  DecisionOutcome, canonicalize, QuarantineReason, DecisionVerdict, verdict, refuse, Surroundings,
  classify_collider, classify_unpublished, sibling_defect, classify_same_path, classify_number,
  compare_bytes, classify_decision, filename_of, classify_holders, sibling_verdict,
  classify_claimed, classify_irregular, siblings_defect, contested_defect, listed_defect,
  classify_listed, classify_unlisted,
}

abbrev pub canonicalizes : DecisionOutcome → Bool
canonicalizes canonicalize = true
canonicalizes _ = false

-- the sole holder of the number of a file name, which the verdict names
abbrev pub Twin : DecisionCorpus → Option ℕ → DecisionVerdict → Type 0
Twin corpus number v =
    (n : ℕ) × (f : DecisionFile) × (number ≡ some n)
    × (holders corpus n ≡ f ∷ [])
    × (v.colliders ≡ f.name ∷ [])

abbrev Twinned : DecisionCorpus → Option ℕ → DecisionVerdict → Type 0
Twinned corpus number v = canonicalizes v.outcome ≡ true → Twin corpus number v

module _ (s : Surroundings) (remote : Text) (number : Option ℕ) where
  refuse-Twinned :
      (colliders : List Text) (reason : QuarantineReason)
      → Twinned s.corpus number (refuse colliders reason)
  unfolding refuse
  refuse-Twinned colliders reason h = cc

  classify_collider-sole :
      (f : DecisionFile) (n : ℕ)
      → canonicalizes (classify_collider s f n remote).outcome ≡ true
      → (classify_collider s f n remote).colliders ≡ f.name ∷ []
  unfolding classify_collider classify_unpublished verdict refuse
  classify_collider-sole f n h = ground arith

  classify_holders-Twinned :
      (n : ℕ) (fs : List DecisionFile)
      → number ≡ some n
      → holders s.corpus n ≡ fs
      → Twinned s.corpus number (classify_holders s n remote fs)
  unfolding verdict
  classify_holders-Twinned n [] q e = λ k. cc
  classify_holders-Twinned n (f ∷ []) q e = λ k. (n, f, q, e, classify_collider-sole f n k)
  classify_holders-Twinned n (f ∷ g ∷ fs) q e = refuse-Twinned _ _

  classify_irregular-Twinned :
      (n : ℕ) (is : List IrregularEntry)
      → number ≡ some n
      → Twinned s.corpus number (classify_irregular s n remote is)
  classify_irregular-Twinned n [] q = classify_holders-Twinned n (holders s.corpus n) q refl
  classify_irregular-Twinned n (i ∷ is) q = refuse-Twinned _ _

  classify_claimed-Twinned :
      (o : Option ℕ) → number ≡ o → Twinned s.corpus number (classify_claimed s remote o)
  unfolding verdict
  classify_claimed-Twinned none q = λ k. cc
  classify_claimed-Twinned (some n) q =
      classify_irregular-Twinned n (irregular_holders s.corpus n) q

  compare_bytes-never_canonicalizes :
      (filename : Text) (o : Option Text)
      → canonicalizes (compare_bytes filename o remote).outcome ≡ false
  unfolding compare_bytes verdict refuse
  compare_bytes-never_canonicalizes filename none = refl
  compare_bytes-never_canonicalizes filename (some bytes) = ground arith

  sibling_verdict-never_canonicalizes :
      (v : DecisionVerdict) → canonicalizes (sibling_verdict v).outcome ≡ false
  unfolding refuse
  sibling_verdict-never_canonicalizes v = ground arith

  siblings_defect-never_canonicalizes :
      (filename : Text) (entry : DecisionFile) (fs : List DecisionFile)
      → canonicalizes
          (classify_listed s filename remote (siblings_defect s entry remote fs)).outcome
        ≡ false
  unfolding refuse
  siblings_defect-never_canonicalizes filename entry [] =
      compare_bytes-never_canonicalizes filename (read_bytes s.directory filename)
  siblings_defect-never_canonicalizes filename entry (f ∷ []) =
      sibling_verdict-never_canonicalizes (classify_collider s f entry.number remote)
  siblings_defect-never_canonicalizes filename entry (f ∷ g ∷ fs) = refl

  contested_defect-never_canonicalizes :
      (filename : Text) (entry : DecisionFile) (is : List IrregularEntry)
      → canonicalizes
          (classify_listed s filename remote (contested_defect s entry remote is)).outcome
        ≡ false
  unfolding refuse
  contested_defect-never_canonicalizes filename entry [] =
      siblings_defect-never_canonicalizes filename entry _
  contested_defect-never_canonicalizes filename entry (i ∷ is) = refl

  listed_defect-never_canonicalizes :
      (filename : Text) (o : Option DecisionFile)
      → canonicalizes (classify_listed s filename remote (listed_defect s remote o)).outcome ≡ false
  unfolding sibling_defect
  listed_defect-never_canonicalizes filename none =
      compare_bytes-never_canonicalizes filename (read_bytes s.directory filename)
  listed_defect-never_canonicalizes filename (some entry) =
      contested_defect-never_canonicalizes filename entry _

  classify_same_path-never_canonicalizes :
      (filename : Text) → canonicalizes (classify_same_path s filename remote).outcome ≡ false
  unfolding classify_same_path refuse
  classify_same_path-never_canonicalizes filename =
      ground (arith, listed_defect-never_canonicalizes filename (file_named s.corpus filename))

  if_Twinned :
      (b : Bool) (v w : DecisionVerdict)
      → Twinned s.corpus number v
      → Twinned s.corpus number w
      → Twinned s.corpus number (if b then v else w)
  if_Twinned true v w h k = h
  if_Twinned false v w h k = k

  never_Twinned :
      (v : DecisionVerdict) → canonicalizes v.outcome ≡ false → Twinned s.corpus number v
  never_Twinned v h k = ground arith

-- A file is taken over under the name of a remote decision only where it is the sole holder of the
-- number of that name.
pub canonicalize-Twin :
    (s : Surroundings) (remote_path remote : Text)
    → canonicalizes (classify_decision s remote_path remote).outcome ≡ true
    → Twin s.corpus
        (extract_decision_number s.readers.unicode (filename_of remote_path))
        (classify_decision s remote_path remote)
unfolding classify_decision classify_number
canonicalize-Twin s remote_path remote =
    let filename = filename_of remote_path in
    let number = extract_decision_number s.readers.unicode filename in
    if_Twinned s remote number (is_canonical_decision_path s.readers.unicode remote_path) _ _
      (if_Twinned s remote number (has_name s.corpus filename) _ _
        (never_Twinned s remote number (classify_same_path s filename remote)
          (classify_same_path-never_canonicalizes s remote number filename))
        (unlisted (case_variant s.readers s.corpus filename)))
      (refuse-Twinned s remote number _ _)
  where
    unlisted :
        (o : Option Text)
        → Twinned s.corpus
            (extract_decision_number s.readers.unicode (filename_of remote_path))
            (classify_unlisted s (filename_of remote_path) remote o)
    unlisted (some v) = refuse-Twinned s remote _ _ _
    unlisted none =
        classify_claimed-Twinned s remote _
          (extract_decision_number s.readers.unicode (filename_of remote_path)) refl
