-- ===== src/Telemetry/Phases.antt =====
-- The states of admissions, found by their serial in the table and outside it.
use teaql_python.Base.{
  ℕ, ◌≡◌, ◌≢◌, refl, Bool, true, false, ◌||◌, none, some, List, [], ◌∷◌, ◌++◌, arith, if◌then◌else◌,
  is_some, select, map, All,
}
use teaql_python.Telemetry.Queue.{
  retired, is_queued, is_exporting, is_complete, Admission, find, remove, phase_of, number,
  mark_exporting,
}

-- What is in the table waits for an export or is in one.
abbrev pub IsLive : Admission → Type 0
IsLive a = (is_queued a.phase || is_exporting a.phase) ≡ true

module _ (s : ℕ) where
  pub phase_of-append :
      (l m : List Admission)
      → phase_of s (l ++ m) ≡ (if is_some (phase_of s l) then phase_of s l else phase_of s m)
  unfolding phase_of
  phase_of-append [] m = refl
  phase_of-append (a ∷ l) m = ground (arith, phase_of-append l m)

  pub phase_of-remove-none :
      (r : ℕ) (l : List Admission) → phase_of s l ≡ none → phase_of s (remove r l) ≡ none
  unfolding phase_of remove
  phase_of-remove-none r [] h = refl
  phase_of-remove-none r (a ∷ l) h = ground (arith, phase_of-remove-none r l)

  pub phase_of-mark_none :
      (records : List ℕ) (l : List Admission)
      → phase_of s l ≡ none
      → phase_of s (mark_exporting records l) ≡ none
  unfolding phase_of mark_exporting
  phase_of-mark_none records [] h = refl
  phase_of-mark_none records (a ∷ l) h = ground (arith, phase_of-mark_none records l)

  pub phase_of-number : (t n : ℕ) (l : List Admission) → phase_of s (number t n l) ≡ phase_of s l
  unfolding phase_of number
  phase_of-number t n [] = refl
  phase_of-number t n (a ∷ l) = ground (arith, phase_of-number t n l)

  pub number_of_absent : (n : ℕ) (l : List Admission) → phase_of s l ≡ none → number s n l ≡ l
  unfolding phase_of number
  number_of_absent n [] h = refl
  number_of_absent n (a ∷ l) h = ground (arith, number_of_absent n l)

  pub phase_of-live : (l : List Admission) → All IsLive l → is_complete (phase_of s l) ≡ false
  unfolding phase_of
  phase_of-live [] h = refl
  phase_of-live (a ∷ l) h = ground (arith, phase_of-live l h.1)

  pub phase_of-select :
      (p : Admission → Bool) (l : List Admission)
      → phase_of s l ≡ none
      → phase_of s (select p l) ≡ none
  unfolding phase_of
  phase_of-select p [] h = refl
  phase_of-select p (a ∷ l) h = ground (arith, phase_of-select p l)

  pub phase_of-retire :
      (l : List Admission)
      → phase_of s l ≡ none
      → phase_of s (map (λ (a : Admission). record a { phase = retired }) l) ≡ none
  unfolding phase_of
  phase_of-retire [] h = refl
  phase_of-retire (a ∷ l) h = ground (arith, phase_of-retire l)

pub phase_of_found :
    (r : ℕ) (l : List Admission) (a : Admission) → find r l ≡ some a → phase_of a.serial l ≢ none
unfolding find phase_of
phase_of_found r [] a h = cc
phase_of_found r (b ∷ l) a h = ground (arith, phase_of_found r l a)

pub found-IsLive :
    (r : ℕ) (l : List Admission) (a : Admission) → All IsLive l → find r l ≡ some a → IsLive a
unfolding find
found-IsLive r [] a h f = cc
found-IsLive r (b ∷ l) a h f = ground (arith, found-IsLive r l a h.1)

pub remove-IsLive : (r : ℕ) (l : List Admission) → All IsLive l → All IsLive (remove r l)
unfolding remove
remove-IsLive r [] h = tt
remove-IsLive r (a ∷ l) h = ground (arith, remove-IsLive r l h.1)

pub mark_exporting-IsLive :
    (records : List ℕ) (l : List Admission) → All IsLive l → All IsLive (mark_exporting records l)
unfolding mark_exporting
mark_exporting-IsLive records [] h = tt
mark_exporting-IsLive records (a ∷ l) h = ground (arith, mark_exporting-IsLive records l h.1)

pub number-IsLive : (s n : ℕ) (l : List Admission) → All IsLive l → All IsLive (number s n l)
unfolding number
number-IsLive s n [] h = tt
number-IsLive s n (a ∷ l) h = ground (arith, number-IsLive s n l h.1)

pub select-IsLive :
    (p : Admission → Bool) (l : List Admission) → All IsLive l → All IsLive (select p l)
select-IsLive p [] h = tt
select-IsLive p (a ∷ l) h = ground (arith, select-IsLive p l h.1)

pub append-IsLive : (l m : List Admission) → All IsLive l → All IsLive m → All IsLive (l ++ m)
append-IsLive [] m h k = k
append-IsLive (a ∷ l) m h k = (h.0, append-IsLive l m h.1 k)

pub remove_comm : (r r' : ℕ) (l : List Admission) → remove r (remove r' l) ≡ remove r' (remove r l)
unfolding remove
remove_comm r r' [] = refl
remove_comm r r' (a ∷ l) = ground (arith, remove_comm r r' l)

pub remove-mark_exporting :
    (r : ℕ) (records : List ℕ) (l : List Admission)
    → remove r (mark_exporting records l) ≡ mark_exporting records (remove r l)
unfolding remove mark_exporting
remove-mark_exporting r records [] = refl
remove-mark_exporting r records (a ∷ l) = ground (arith, remove-mark_exporting r records l)
