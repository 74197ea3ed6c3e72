-- ===== src/Sync/Collisions/Installs.antt =====
-- When a remote decision is installed: packages/nauro/src/nauro/sync/collisions.py.
use nauro.Base.{
  ℕ, ◌≡◌, refl, Bool, true, false, List, [], ◌∷◌, Option, none, some, Text, arith, Bool-cases,
  Option-cases, inl, inr, text_eq, nat_eq,
}
use nauro.Sync.Names.{is_canonical_decision_path, extract_decision_number}
use nauro.Sync.Corpus.{
  DecisionFile, DecisionCorpus, IrregularEntry, read_bytes, holders, file_named, irregular_holders,
  has_name, case_variant,
}
use nauro.Sync.Collisions.{
  DecisionOutcome, install, DecisionVerdict, verdict, refuse, Surroundings, classify_collider,
  classify_unpublished, sibling_defect, classify_same_path, classify_number, compare_bytes,
  classify_decision, filename_of, sibling_verdict, classify_claimed, classify_irregular,
  siblings_defect, contested_defect, listed_defect, classify_listed,
}

abbrev pub installs : DecisionOutcome → Bool
installs install = true
installs _ = false

-- no entry of the view claims the number
abbrev pub Unclaimed : DecisionCorpus → Option ℕ → Type 0
Unclaimed corpus none = Unit
Unclaimed corpus (some n) = (holders corpus n ≡ []) × (irregular_holders corpus n ≡ [])

module _ (s : Surroundings) (remote : Text) where
  classify_collider-never_installs :
      (f : DecisionFile) (n : ℕ) → installs (classify_collider s f n remote).outcome ≡ false
  unfolding classify_collider classify_unpublished verdict refuse
  classify_collider-never_installs f n = ground arith

  compare_bytes-never_installs :
      (filename : Text) (o : Option Text)
      → installs (compare_bytes filename o remote).outcome ≡ false
  unfolding compare_bytes verdict refuse
  compare_bytes-never_installs filename none = refl
  compare_bytes-never_installs filename (some bytes) = ground arith

  sibling_verdict-never_installs :
      (v : DecisionVerdict)
      → installs v.outcome ≡ false
      → installs (sibling_verdict v).outcome ≡ false
  unfolding refuse
  sibling_verdict-never_installs v h = ground arith

  siblings_defect-never_installs :
      (filename : Text) (entry : DecisionFile) (fs : List DecisionFile)
      → installs (classify_listed s filename remote (siblings_defect s entry remote fs)).outcome
        ≡ false
  unfolding refuse
  siblings_defect-never_installs filename entry [] =
      compare_bytes-never_installs filename (read_bytes s.directory filename)
  siblings_defect-never_installs filename entry (f ∷ []) =
      sibling_verdict-never_installs _ (classify_collider-never_installs f entry.number)
  siblings_defect-never_installs filename entry (f ∷ g ∷ fs) = refl

  contested_defect-never_installs :
      (filename : Text) (entry : DecisionFile) (is : List IrregularEntry)
      → installs (classify_listed s filename remote (contested_defect s entry remote is)).outcome
        ≡ false
  unfolding refuse
  contested_defect-never_installs filename entry [] =
      siblings_defect-never_installs filename entry _
  contested_defect-never_installs filename entry (i ∷ is) = refl

  listed_defect-never_installs :
      (filename : Text) (o : Option DecisionFile)
      → installs (classify_listed s filename remote (listed_defect s remote o)).outcome ≡ false
  unfolding sibling_defect
  listed_defect-never_installs filename none =
      compare_bytes-never_installs filename (read_bytes s.directory filename)
  listed_defect-never_installs filename (some entry) =
      contested_defect-never_installs filename entry _

  classify_same_path-never_installs :
      (filename : Text) → installs (classify_same_path s filename remote).outcome ≡ false
  unfolding classify_same_path refuse
  classify_same_path-never_installs filename =
      ground (arith, listed_defect-never_installs filename (file_named s.corpus filename))

  classify_irregular-Unclaimed :
      (n : ℕ) (is : List IrregularEntry) (fs : List DecisionFile)
      → irregular_holders s.corpus n ≡ is
      → holders s.corpus n ≡ fs
      → installs (classify_irregular s n remote is).outcome ≡ true
      → Unclaimed s.corpus (some n)
  unfolding verdict refuse
  classify_irregular-Unclaimed n (i ∷ is) fs e q h = cc
  classify_irregular-Unclaimed n [] [] e q h = (q, e)
  classify_irregular-Unclaimed n [] (f ∷ []) e q h =
      ground (arith, classify_collider-never_installs f n)
  classify_irregular-Unclaimed n [] (f ∷ g ∷ fs) e q h = ground arith

  classify_claimed-Unclaimed :
      (o : Option ℕ) → installs (classify_claimed s remote o).outcome ≡ true → Unclaimed s.corpus o
  classify_claimed-Unclaimed none h = tt
  classify_claimed-Unclaimed (some n) h =
      classify_irregular-Unclaimed n (irregular_holders s.corpus n) (holders s.corpus n) refl refl h

-- A decision is installed only under a canonical path, whose file name is not listed and differs from
-- every listed name by more than its case, and whose number, if it has one, no file and no
-- irregular entry of the view claims.
pub install-Unclaimed :
    (s : Surroundings) (remote_path remote : Text)
    → installs (classify_decision s remote_path remote).outcome ≡ true
    → (is_canonical_decision_path s.readers.unicode remote_path ≡ true)
      × (has_name s.corpus (filename_of remote_path) ≡ false)
      × (case_variant s.readers s.corpus (filename_of remote_path) ≡ none)
      × Unclaimed s.corpus (extract_decision_number s.readers.unicode (filename_of remote_path))
unfolding classify_decision classify_number refuse
install-Unclaimed s remote_path remote h =
    elim (Bool-cases (is_canonical_decision_path s.readers.unicode remote_path)) [
      | inr e ↦ ground arith
      | inl e ↦ elim (Bool-cases (has_name s.corpus (filename_of remote_path))) [
        | inl e2 ↦
            ground (arith, classify_same_path-never_installs s remote (filename_of remote_path))
        | inr e2 ↦ elim (Option-cases (case_variant s.readers s.corpus (filename_of remote_path))) [
          | inr (v, e3) ↦ ground arith
          | inl e3 ↦
              let number = extract_decision_number s.readers.unicode (filename_of remote_path) in
              let k : installs (classify_claimed s remote number).outcome ≡ true = ground arith in
              (e, e2, e3, classify_claimed-Unclaimed s remote number k)
        ]
      ]
    ]
