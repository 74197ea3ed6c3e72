-- ===== src/Sync/Collisions/Renumber.antt =====
-- What a renumbering does: packages/nauro/src/nauro/sync/collisions.py.
use nauro.Base.{
  ℕ, suc, ◌≡◌, ◌≢◌, ◌≤◌, ◌<◌, refl, sym, ap, ◌∙◌, Bool, true, false, List, [], ◌∷◌, ◌++◌, Option,
  none, some, Text, arith, Bool-cases, Option-cases, inl, inr, nat_beq_iff, contains,
  contains-append, text_eq, nat_eq, ◌==◌, All, Result, ok, err, ◌>>=◌, >>=-eq-ok, if◌then◌else◌,
}
use nauro.Sync.Corpus.Laws.{
  Valid, listed_name-claimed, record_renamed-Valid, record_rewritten-Valid,
}
use nauro.Sync.Names.Laws.{PlainDigits, extract-padded_number}
use nauro.Sync.Headings.{heading_number, rewrite_decision_heading}
use nauro.Sync.Corpus.{
  Readers, find_entry, Directory, DirEntry, regular, read_bytes, DecisionCorpus, claimed_numbers,
  has_name,
}
use nauro.Sync.Collisions.Apply.{
  Store, destination_occupied_error, heading_rewrite_error, RenumberResult, apply_renumber,
  fresh_number, maximum, renumber_text, renumber_writes, renumbered_name, read_text_lenient,
  is_number, rename_entry, write_entry, without_entry, rename_decision, rewrite_decision,
  retarget_store,
}

All-map {ℓ κ} :
    {A : Type ℓ} {P Q : A → Type κ} → ((a : A) → P a → Q a) → (xs : List A) → All P xs → All Q xs
All-map f [] h = tt
All-map f (x ∷ xs) h = (f x h.0, All-map f xs h.1)

maximum-above : (ns : List ℕ) → All (λ n. n ≤ maximum ns) ns
unfolding maximum
maximum-above [] = tt
maximum-above (n ∷ ns) = (ground arith, All-map (λ m h. ground arith) ns (maximum-above ns))

is_number_iff : (n : ℕ) (o : Option ℕ) → is_number n o ≡ true → o ≡ some n
is_number_iff n none h = cc
is_number_iff n (some m) h = ap some ((nat_beq_iff m n).0 h)

find_entry-without :
    (dir : Directory) (gone name : Text)
    → find_entry (without_entry dir gone) name
      ≡ (if gone == name then none else find_entry dir name)
unfolding find_entry without_entry
find_entry-without [] gone name = ground arith
find_entry-without ((listed, entry) ∷ dir) gone name = ground (
  arith,
  find_entry-without dir gone name,
  text_eq.beq_iff listed gone,
  text_eq.beq_iff gone name,
  text_eq.beq_iff listed name,
)

find_entry-cons :
    (dir : Directory) (listed name : Text) (entry : DirEntry)
    → find_entry ((listed, entry) ∷ dir) name
      ≡ (if listed == name then some entry else find_entry dir name)
unfolding find_entry
find_entry-cons dir listed name entry = refl

pub find_entry-rename_entry :
    (dir : Directory) (old new name : Text) (entry : DirEntry)
    → find_entry dir old ≡ some entry
    → find_entry (rename_entry dir old new) name
      ≡ (if new == name then some entry else if old == name then none else find_entry dir name)
unfolding rename_entry
find_entry-rename_entry dir old new name entry h =
    let moved = without_entry (without_entry dir old) new in
    rw h (
      find_entry-cons moved new name entry
      ∙ ground (
        arith,
        find_entry-without (without_entry dir old) new name,
        find_entry-without dir old name,
      ))

pub find_entry-write_entry :
    (dir : Directory) (written name bytes : Text)
    → find_entry (write_entry dir written bytes) name
      ≡ (if written == name then some (regular (some bytes)) else find_entry dir name)
unfolding write_entry
find_entry-write_entry dir written name bytes =
    find_entry-cons (without_entry dir written) written name (regular (some bytes))
    ∙ ground (arith, find_entry-without dir written name)

pub ok_inj {ℓ κ} : {E : Type κ} {A : Type ℓ} {a b : A} → ◌≡◌ {A = Result E A} (ok a) (ok b) → a ≡ b
ok_inj h = cc

if_ok {ℓ κ} :
    {A : Type ℓ} {E : Type κ} (b : Bool) {a r : A} (e : E)
    → b ≡ true
    → (if b then ok a else err e) ≡ ok r
    → r ≡ a
if_ok true e h k = let q = ok_inj k in sym q
if_ok false e h k = cc

module _ (readers : Readers) (s : Store) (collider : Text) (number : ℕ) (reserved : List ℕ) where
  abbrev pub new_num : ℕ
  new_num = fresh_number s.corpus reserved

  abbrev pub destination : Text
  destination = renumbered_name readers new_num collider

  -- inversion of a renumbering that is done
  pub renumbered :
      (r : RenumberResult)
      → apply_renumber readers s collider number reserved ≡ ok r
      → (has_name s.corpus destination ≡ false)
        × ((current : Text) × ((read_text_lenient readers s.directory collider ≡ ok current)
              × (heading_number (rewrite_decision_heading current number new_num) ≡ some new_num)
              × (r
                  ≡ renumber_writes readers s collider destination new_num current
                      (rewrite_decision_heading current number new_num))))
  unfolding apply_renumber
  renumbered r h = elim (Bool-cases (has_name s.corpus destination)) [
    | inl e ↦ ground arith
    | inr e ↦
        let k : (read_text_lenient readers s.directory collider
              >>= renumber_text readers s collider number new_num destination)
            ≡ ok r =
          ground arith in
        let (current, q, k2) =
          >>=-eq-ok (read_text_lenient readers s.directory collider)
            (renumber_text readers s collider number new_num destination) k in
        elim (Bool-cases
          (is_number new_num (heading_number (rewrite_decision_heading current number new_num)))) [
            | inl e3 ↦
                (e, (current, (q, is_number_iff new_num _ e3, if_ok _ heading_rewrite_error e3 k2)))
            | inr e3 ↦ ground arith
          ]
  ]

-- A renumbering that is done has a number above every one that the view or the server's manifest
-- claims.
pub renumber_above :
    (readers : Readers) (s : Store) (collider : Text) (number : ℕ) (reserved : List ℕ)
    (r : RenumberResult)
    → apply_renumber readers s collider number reserved ≡ ok r
    → All (λ n. n < r.new_num) (claimed_numbers s.corpus ++ reserved)
unfolding fresh_number renumber_writes
renumber_above readers s collider number reserved r h =
    let (e, (current, (q, k, p))) = renumbered readers s collider number reserved r h in
    let numbers = claimed_numbers s.corpus ++ reserved in
    rw p (All-map (λ m k. omega arith) numbers (maximum-above numbers))

All-contains : (m : ℕ) (ns : List ℕ) → All (λ n. n < m) ns → contains ns m ≡ false
unfolding contains
All-contains m [] h = refl
All-contains m (n ∷ ns) h = ground (arith, All-contains m ns)

pub fresh_number-unclaimed :
    (corpus : DecisionCorpus) (reserved : List ℕ)
    → (contains (claimed_numbers corpus) (fresh_number corpus reserved) ≡ false)
      × (contains reserved (fresh_number corpus reserved) ≡ false)
unfolding fresh_number
fresh_number-unclaimed corpus reserved =
    let numbers = claimed_numbers corpus ++ reserved in
    let above =
      All-map {Q = λ n. n < suc (maximum numbers)} (λ n k. omega arith) numbers
        (maximum-above numbers) in
    let absent = All-contains (suc (maximum numbers)) numbers above in
    let split = contains-append (claimed_numbers corpus) reserved (suc (maximum numbers)) in
    (ground arith, ground arith)

renumber_not_occupied :
    (readers : Readers) (s : Store) (collider : Text) (number : ℕ) (reserved : List ℕ)
    → has_name s.corpus (renumbered_name readers (fresh_number s.corpus reserved) collider) ≡ false
    → apply_renumber readers s collider number reserved ≢ err destination_occupied_error
unfolding apply_renumber read_text_lenient
renumber_not_occupied readers s collider number reserved e h =
    elim (Option-cases (read_bytes s.directory collider)) [
      | inl q ↦ ground arith
      | inr (bytes, q) ↦ ground arith
    ]

-- The name that a renumbering moves the file to is free, if the view is valid: every listed name with a
-- number stands for a claim on it, and the new number is above every claim. So a renumbering is
-- never refused because its destination is taken.
pub renumber_destination_free :
    (readers : Readers) (s : Store) (collider : Text) (number : ℕ) (reserved : List ℕ)
    → PlainDigits readers.unicode
    → Valid readers s.corpus
    → (has_name s.corpus (renumbered_name readers (fresh_number s.corpus reserved) collider)
        ≡ false)
      × (apply_renumber readers s collider number reserved ≢ err destination_occupied_error)
unfolding apply_renumber renumbered_name fresh_number read_text_lenient
renumber_destination_free readers s collider number reserved plain v =
    let n = fresh_number s.corpus reserved in
    let name = renumbered_name readers n collider in
    let fresh = fresh_number-unclaimed s.corpus reserved in
    let e : has_name s.corpus name ≡ false = elim (Bool-cases (has_name s.corpus name)) [
      | inl e ↦
          let c =
            listed_name-claimed readers s.corpus name n v e
              (extract-padded_number readers.unicode plain n _) in
          ground (arith, fresh.0)
      | inr e ↦ e
    ] in
    (e, λ h. renumber_not_occupied readers s collider number reserved e h)

-- A view that is valid stays so through every write of a renumbering.
pub renumber-Valid :
    (readers : Readers) (s : Store) (collider : Text) (number : ℕ) (reserved : List ℕ)
    (r : RenumberResult)
    → Valid readers s.corpus
    → apply_renumber readers s collider number reserved ≡ ok r
    → Valid readers r.renamed.corpus
      × Valid readers r.rewritten.corpus
      × Valid readers r.finished.corpus
unfolding renumber_writes retarget_store rewrite_decision rename_decision
renumber-Valid readers s collider number reserved r v h =
    let (e, (current, (q, k, p))) = renumbered readers s collider number reserved r h in
    let moved =
      record_renamed-Valid readers s.corpus collider
        (renumbered_name readers (fresh_number s.corpus reserved) collider) current v in
    let rewritten =
      record_rewritten-Valid readers _
        (renumbered_name readers (fresh_number s.corpus reserved) collider)
        (rewrite_decision_heading current number (fresh_number s.corpus reserved)) moved in
    rw p (moved, rewritten, rewritten)
