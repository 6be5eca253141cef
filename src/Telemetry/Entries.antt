-- ===== src/Telemetry/Entries.antt =====
-- How the operations on the table of pending admissions change what is counted and found in it.
use teaql_python.Base.{
  ℕ, ◌+◌, ◌≤◌, ◌≡◌, refl, Bool, not, Option, none, some, List, [], ◌∷◌, ◌++◌, arith, eqb,
  if◌then◌else◌, length, contains, nat_eq, is_some, count,
}
use teaql_python.Telemetry.Queue.{exporting, Admission, find, remove, number, mark_exporting}

abbrev pub numbered : Admission → Bool
numbered a = is_some a.sequence

abbrev pub unnumbered : Admission → Bool
unnumbered a = not (is_some a.sequence)

-- No two entries under one key: what a `dict` gives.
abbrev pub DistinctRecords : List Admission → Type 0
DistinctRecords [] = Unit
DistinctRecords (a ∷ l) = (find a.record_id l ≡ none) × DistinctRecords l

abbrev pub one_if : Bool → ℕ
one_if b = if b then 1 else 0

module _ (r : ℕ) where
  pub find-remove :
      (s : ℕ) (l : List Admission) → find r (remove s l) ≡ (if eqb r s then none else find r l)
  unfolding find remove
  find-remove s [] = ground arith
  find-remove s (a ∷ l) = ground (arith, find-remove s l)

  pub find-append :
      (l m : List Admission) → find r (l ++ m) ≡ (if is_some (find r l) then find r l else find r m)
  unfolding find
  find-append [] m = refl
  find-append (a ∷ l) m = ground (arith, find-append l m)

  pub find-record_id : (l : List Admission) (a : Admission) → find r l ≡ some a → a.record_id ≡ r
  unfolding find
  find-record_id [] a h = cc
  find-record_id (b ∷ l) a h = ground (arith, find-record_id l a)

  pub remove_of_absent : (l : List Admission) → find r l ≡ none → remove r l ≡ l
  unfolding find remove
  remove_of_absent [] h = refl
  remove_of_absent (a ∷ l) h = ground (arith, remove_of_absent l)

  pub remove-append : (l m : List Admission) → remove r (l ++ m) ≡ remove r l ++ remove r m
  unfolding remove
  remove-append [] m = refl
  remove-append (a ∷ l) m = ground (arith, remove-append l m)

module _ (p : Admission → Bool) (r : ℕ) where
  -- Taking the one entry of a key out lowers a count by what that entry counts.
  pub count-remove :
      (l : List Admission) (a : Admission)
      → DistinctRecords l
      → find r l ≡ some a
      → count p l ≡ count p (remove r l) + one_if (p a)
  unfolding find remove count
  count-remove [] a d h = cc
  count-remove (b ∷ l) a d h = ground (arith, count-remove l a d.1, remove_of_absent r l, d.0)

pub length-remove : (r : ℕ) (l : List Admission) → length (remove r l) ≤ length l
unfolding remove
length-remove r [] = omega arith
length-remove r (a ∷ l) = ground (arith, length-remove r l)

pub remove-DistinctRecords :
    (r : ℕ) (l : List Admission) → DistinctRecords l → DistinctRecords (remove r l)
unfolding remove
remove-DistinctRecords r [] d = tt
remove-DistinctRecords r (a ∷ l) d =
    ground (arith, remove-DistinctRecords r l d.1, find-remove a.record_id r l)

pub append-DistinctRecords :
    (l : List Admission) (a : Admission)
    → DistinctRecords l
    → find a.record_id l ≡ none
    → DistinctRecords (l ++ a ∷ [])
unfolding find
append-DistinctRecords [] a d h = (refl, tt)
append-DistinctRecords (b ∷ l) a d h =
    ground (arith, append-DistinctRecords l a d.1, find-append b.record_id l (a ∷ []))

pub count-append :
    (p : Admission → Bool) (l m : List Admission) → count p (l ++ m) ≡ count p l + count p m
unfolding count
count-append p [] m = omega arith
count-append p (a ∷ l) m = omega (arith, count-append p l m)

pub count-numbered : (l : List Admission) → count numbered l + count unnumbered l ≡ length l
unfolding count
count-numbered [] = refl
count-numbered (a ∷ l) = ground (arith, count-numbered l)

-- `mark_exporting` changes states only.
module _ (records : List ℕ) where
  unfoldable pub marked : Option Admission → Option Admission
  marked none = none
  marked (some a) =
      if contains records a.record_id then some (record a { phase = exporting }) else some a

  pub find-mark_exporting :
      (r : ℕ) (l : List Admission) → find r (mark_exporting records l) ≡ marked (find r l)
  unfolding find mark_exporting marked
  find-mark_exporting r [] = refl
  find-mark_exporting r (a ∷ l) = ground (arith, find-mark_exporting r l)

  pub count-mark_exporting :
      (p : Option ℕ → Bool) (l : List Admission)
      → count (λ a. p a.sequence) (mark_exporting records l) ≡ count (λ a. p a.sequence) l
  unfolding count mark_exporting
  count-mark_exporting p [] = refl
  count-mark_exporting p (a ∷ l) = ground (arith, count-mark_exporting p l)

  pub mark_exporting-DistinctRecords :
      (l : List Admission) → DistinctRecords l → DistinctRecords (mark_exporting records l)
  unfolding mark_exporting marked
  mark_exporting-DistinctRecords [] d = tt
  mark_exporting-DistinctRecords (a ∷ l) d =
      ground (arith, mark_exporting-DistinctRecords l d.1, find-mark_exporting a.record_id l)

  pub length-mark_exporting : (l : List Admission) → length (mark_exporting records l) ≡ length l
  unfolding mark_exporting
  length-mark_exporting [] = refl
  length-mark_exporting (a ∷ l) = ground (arith, length-mark_exporting l)

-- `number` writes one sequence number and moves nothing.
module _ (s n : ℕ) where
  unfoldable pub numbered_at : Admission → Admission
  numbered_at a = if eqb a.serial s then record a { sequence = some n } else a

  pub find-number :
      (r : ℕ) (l : List Admission)
      → find r (number s n l) ≡ elim (find r l) [ none ↦ none | some a ↦ some (numbered_at a) ]
  unfolding find number numbered_at
  find-number r [] = refl
  find-number r (a ∷ l) = ground (arith, find-number r l)

  pub number-DistinctRecords :
      (l : List Admission) → DistinctRecords l → DistinctRecords (number s n l)
  unfolding number
  number-DistinctRecords [] d = tt
  number-DistinctRecords (a ∷ l) d =
      ground (arith, number-DistinctRecords l d.1, find-number a.record_id l)

  pub length-number : (l : List Admission) → length (number s n l) ≡ length l
  unfolding number
  length-number [] = refl
  length-number (a ∷ l) = ground (arith, length-number l)

  -- An unnumbered entry of that serial that is found is one of the unnumbered ones that get one.
  pub count-number :
      (l : List Admission) (r : ℕ) (a : Admission)
      → find r l ≡ some a
      → a.serial ≡ s
      → a.sequence ≡ none
      → count unnumbered (number s n l) + 1 ≤ count unnumbered l
  unfolding find number count
  count-number [] r a f e h = cc
  count-number (b ∷ l) r a f e h = ground (arith, count-number l r a, count-number_le l)
    where
      count-number_le : (m : List Admission) → count unnumbered (number s n m) ≤ count unnumbered m
      count-number_le [] = omega arith
      count-number_le (b ∷ m) = ground (arith, count-number_le m)
