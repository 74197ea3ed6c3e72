-- ===== src/Commit/Finalize/Complete.antt =====
-- The order in which observations come in does not matter: `finalize_judgment_commit` of
-- packages/nauro-core/src/nauro_core/operations/_commit_finalize.py.
use mathlib.Core.List.{Permᴰ, map-append, append-nil, append_assoc}
use mathlib.Core.List.Permᴰ.{nil, cons, swap, trans, symm}
use nauro.Base.{
  ◌≡◌, refl, sym, ap, ◌∙◌, true, false, List, [], ◌∷◌, ◌++◌, map, Option, some, Text, contains,
  contains-append, all, ok, arith, beq_refl, All,
}
use nauro.Commit.Claims.{
  ClaimProbe, ClaimObservation, ClaimIntents, ClaimKey, key_eq, probe_key, observation_key,
}
use nauro.Commit.Finalize.{
  Observed, observed_keys, find_observation, collect, order_observations, validate_all,
  parse_observations, plan_observed, finalize_judgment_commit,
}
use nauro.Commit.Finalize.Laws.{Distinct, Answers, keyed}

abbrev keys_of : List ClaimObservation → List ClaimKey
keys_of = map observation_key

contains-perm :
    (key : ClaimKey) {xs ys : List ClaimObservation}
    → Permᴰ xs ys
    → contains (keys_of xs) key ≡ contains (keys_of ys) key
unfolding contains
contains-perm key nil = refl
contains-perm key (cons e p) = rw (e, contains-perm key p)
contains-perm key (swap e f) = rw (e, f) (ground arith)
contains-perm key (trans p q) = contains-perm key p ∙ contains-perm key q

Distinct-perm :
    {xs ys : List ClaimObservation} → Permᴰ xs ys → Distinct (keys_of xs) → Distinct (keys_of ys)
unfolding contains
Distinct-perm nil d = tt
Distinct-perm (cons {a} {b} e p) d =
    (rw (← e) (sym (contains-perm (observation_key a) p) ∙ d.0), Distinct-perm p d.1)
Distinct-perm (swap {a} {b} e f) d =
    rw (← f, ← e)
      (
        ground (
          arith,
          key_eq.beq_iff (observation_key a) (observation_key b),
          key_eq.beq_iff (observation_key b) (observation_key a),
        ),
        (ground arith, d.1.1),
      )
Distinct-perm (trans p q) d = Distinct-perm q (Distinct-perm p d)

find-perm :
    (key : ClaimKey) {xs ys : List ClaimObservation}
    → Permᴰ xs ys
    → Distinct (keys_of xs)
    → find_observation key (map keyed xs) ≡ find_observation key (map keyed ys)
unfolding find_observation keyed contains
find-perm key nil d = refl
find-perm key (cons e p) d = rw (e, find-perm key p d.1)
find-perm key (swap {a} {b} e f) d =
    rw (← e, ← f)
      (ground (
        arith,
        key_eq.beq_iff (observation_key a) key,
        key_eq.beq_iff (observation_key b) key,
        key_eq.beq_iff (observation_key b) (observation_key a),
      ))
find-perm key (trans p q) d = find-perm key p d ∙ find-perm key q (Distinct-perm p d)

observed_keys-keyed : (xs : List ClaimObservation) → observed_keys (map keyed xs) ≡ keys_of xs
unfolding keyed
observed_keys-keyed [] = refl
observed_keys-keyed (x ∷ xs) = ap (λ r. observation_key x ∷ r) (observed_keys-keyed xs)

-- No key of the observations is one of the keys given.
abbrev Fresh : List ClaimKey → List ClaimObservation → Type 0
Fresh seen = All (λ o. contains seen (observation_key o) ≡ false)

Fresh-snoc :
    (seen : List ClaimKey) (o : ClaimObservation) (rest : List ClaimObservation)
    → contains (keys_of rest) (observation_key o) ≡ false
    → Fresh seen rest
    → Fresh (seen ++ observation_key o ∷ []) rest
unfolding contains
Fresh-snoc seen o [] h f = tt
Fresh-snoc seen o (x ∷ rest) h f = (
  ground (
    arith,
    contains-append seen (observation_key o ∷ []) (observation_key x),
    key_eq.beq_iff (observation_key o) (observation_key x),
    key_eq.beq_iff (observation_key x) (observation_key o),
    f.0,
  ),
  Fresh-snoc seen o rest (ground arith) f.1,
)

collect-Distinct :
    (observed : Observed) (observations : List ClaimObservation)
    → Distinct (keys_of observations)
    → Fresh (observed_keys observed) observations
    → collect observed observations ≡ ok (observed ++ map keyed observations)
unfolding collect keyed
collect-Distinct observed [] d f = rw append-nil
collect-Distinct observed (o ∷ rest) d f = rw f.0 (
    collect-Distinct (observed ++ keyed o ∷ []) rest d.1
      (rw map-append (Fresh-snoc (observed_keys observed) o rest d.0 f.1))
    ∙ ap ok (append_assoc observed (keyed o ∷ []) (map keyed rest)))

-- Each observation is found under its key.
abbrev FindsAll : Observed → List ClaimObservation → Type 0
FindsAll observed = All (λ o. find_observation (observation_key o) observed ≡ some o)

FindsAll-cons :
    (o : ClaimObservation) (observed : Observed) (rest : List ClaimObservation)
    → contains (keys_of rest) (observation_key o) ≡ false
    → FindsAll observed rest
    → FindsAll (keyed o ∷ observed) rest
unfolding find_observation keyed contains
FindsAll-cons o observed [] h f = tt
FindsAll-cons o observed (x ∷ rest) h f = (
  ground (
    arith,
    key_eq.beq_iff (observation_key o) (observation_key x),
    key_eq.beq_iff (observation_key x) (observation_key o),
    f.0,
  ),
  FindsAll-cons o observed rest (ground arith) f.1,
)

FindsAll-self :
    (observations : List ClaimObservation)
    → Distinct (keys_of observations)
    → FindsAll (map keyed observations) observations
FindsAll-self [] d = tt
FindsAll-self (o ∷ rest) d = (
  unfold find_observation keyed in rw (beq_refl (observation_key o)),
  FindsAll-cons o (map keyed rest) rest d.0 (FindsAll-self rest d.1),
)

keys_of-Answers :
    (probes : List ClaimProbe) (observations : List ClaimObservation)
    → Answers probes observations
    → keys_of observations ≡ map probe_key probes
keys_of-Answers [] [] a = refl
keys_of-Answers [] (o ∷ rest) a = absurd a
keys_of-Answers (p ∷ probes) [] a = absurd a
keys_of-Answers (p ∷ probes) (o ∷ rest) a = cc (a.0, keys_of-Answers probes rest a.2)

order-FindsAll :
    (observed : Observed) (probes : List ClaimProbe) (observations : List ClaimObservation)
    → Answers probes observations
    → FindsAll observed observations
    → order_observations observed probes ≡ some observations
unfolding order_observations
order-FindsAll observed [] [] a f = refl
order-FindsAll observed [] (o ∷ rest) a f = absurd a
order-FindsAll observed (p ∷ probes) [] a f = absurd a
order-FindsAll observed (p ∷ probes) (o ∷ rest) a f = ground (
  arith,
  order-FindsAll observed probes rest a.2 f.1,
  ap (λ key. find_observation key observed) a.0,
  f.0,
)

validate_all-Answers :
    (probes : List ClaimProbe) (observations : List ClaimObservation)
    → Answers probes observations
    → validate_all probes observations ≡ ok tt
unfolding validate_all
validate_all-Answers [] [] a = refl
validate_all-Answers [] (o ∷ rest) a = absurd a
validate_all-Answers (p ∷ probes) [] a = absurd a
validate_all-Answers (p ∷ probes) (o ∷ rest) a = rw a.1 (validate_all-Answers probes rest a.2)

all-contains :
    (zs ys : List ClaimKey)
    → ((key : ClaimKey) → contains ys key ≡ true → contains zs key ≡ true)
    → all (contains zs) ys ≡ true
unfolding all contains
all-contains zs [] h = refl
all-contains zs (y ∷ ys) h =
    rw (h y (ground (arith, beq_refl y))) (all-contains zs ys (λ key k. h key (ground (arith, k))))

FindsAll-perm :
    {parsed observations : List ClaimObservation}
    → Permᴰ parsed observations
    → Distinct (keys_of parsed)
    → (rest : List ClaimObservation) → FindsAll (map keyed observations) rest
    → FindsAll (map keyed parsed) rest
FindsAll-perm p d [] f = tt
FindsAll-perm p d (o ∷ rest) f =
    (find-perm (observation_key o) p d ∙ f.0, FindsAll-perm p d rest f.1)

all-Fresh : (observations : List ClaimObservation) → Fresh [] observations
unfolding contains
all-Fresh [] = tt
all-Fresh (o ∷ rest) = (refl, all-Fresh rest)

module _ {Raw : Type 0} (validate_python : Raw → Option ClaimObservation)
    (plan_record : List ClaimObservation → Text) where
  plan_observed-Answers :
      (probes : List ClaimProbe) (intents : ClaimIntents)
      {parsed observations : List ClaimObservation}
      → Permᴰ parsed observations
      → Answers probes observations
      → Distinct (keys_of parsed)
      → Distinct (keys_of observations)
      → plan_observed validate_python plan_record probes intents (map keyed parsed)
        ≡ ok (record {
          validated_claim_observations = observations;
          claim_plan = intents;
          plan_record = plan_record observations;
        })
  unfolding plan_observed
  plan_observed-Answers probes intents {parsed} {observations} p a d k =
      rw (observed_keys-keyed parsed, ← keys_of-Answers probes observations a)
        (rw
          (all-contains (keys_of observations) (keys_of parsed)
            (λ key h. sym (contains-perm key p) ∙ h))
          (rw
            (all-contains (keys_of parsed) (keys_of observations)
              (λ key h. contains-perm key p ∙ h))
            (rw
              (order-FindsAll (map keyed parsed) probes observations a
                (FindsAll-perm p d observations (FindsAll-self observations k)))
              (rw (validate_all-Answers probes observations a)))))

  -- Observations that answer distinct probes make a plan, in whatever order they come in: the plan
  -- holds them in the probes' order.
  pub finalize_complete :
      (probes : List ClaimProbe) (intents : ClaimIntents) (raws : List Raw)
      (parsed observations : List ClaimObservation)
      → parse_observations validate_python plan_record raws ≡ ok parsed
      → Permᴰ parsed observations
      → Answers probes observations
      → Distinct (map probe_key probes)
      → finalize_judgment_commit validate_python plan_record probes intents raws
        ≡ ok (record {
          validated_claim_observations = observations;
          claim_plan = intents;
          plan_record = plan_record observations;
        })
  unfolding finalize_judgment_commit
  finalize_complete probes intents raws parsed observations e p a d =
      let k : Distinct (keys_of observations) = rw (keys_of-Answers probes observations a) d in
      let j : Distinct (keys_of parsed) = Distinct-perm (symm p) k in
      rw e (
        rw (collect-Distinct [] parsed j (all-Fresh parsed))
          (plan_observed-Answers probes intents p a j k))
