-- ===== src/BusinessId/Store/Samples.antt =====
-- src/teaql/sql/business_id.py: two calls on one table, which is a dictionary here.
use teaql_python.Base.{
  ℕ, zero, suc, ◌+◌, ◌≡◌, ◌≢◌, refl, ◌∙◌, ap, Bool, true, false, ◌&&◌, inl, inr, Option, none, some,
  List, [], ◌∷◌, arith, eqb, eqb_iff, if◌then◌else◌, All, list_eq, nat_eq, Bool-cases, get_elem?,
}
use teaql_python.Base.Dict.{Dict, lookup, insert, lookup-insert, lookup-nil}
use teaql_python.Base.Integers.{ℤ, pos, negsuc}
use teaql_python.Base.Text.{Text, text}
use teaql_python.BusinessId.Core.{Scope, canonical_key, Definition, Plan}
use teaql_python.BusinessId.Allocations.{issue}
use teaql_python.BusinessId.Store.Table.{Row, row, Table}
use teaql_python.BusinessId.Store.Allocator.{
  selecting, more_attempts, works, fails, Event, begin, proceed, happen, run, is_over, Call,
  advance,
}
use teaql_python.BusinessId.Store.Unique.{AllApart, run-AllApart}
use teaql_python.BusinessId.Store.Bounds.{IsBounded, InRange, EventInRange, run-IsBounded}
use teaql_python.BusinessId.Store.Refinement.{allocations_of, plans_of, IsPunctual, run_refines}
use teaql_python.BusinessId.Store.Progress.{run-IsOver}
use teaql_python.BusinessId.Store.Solo.{seen, serve, twice, twice-serve}

abbrev matches : Option Row → ℕ → ℕ → Bool
matches none v c = false
matches (some r) v c = elim r.version [
  | negsuc _ ↦ false
  | pos w ↦ elim r.current_value [ negsuc _ ↦ false | pos d ↦ eqb w v && eqb d c ]
]

abbrev put : Text → ℕ → Option Row → Dict Text Row → Dict Text Row × Option ℕ
put k n none s = (insert k (row n 1) s, some 1)
put k n (some _) s = (s, none)

abbrev move : Text → (version current next : ℕ) → Dict Text Row → Dict Text Row × ℕ
move k v c n s = if matches (lookup k s) v c then (insert k (row n (v + 1)) s, 1) else (s, 0)

matches-row : (c v : ℕ) → matches (some (row c v)) v c ≡ true
matches-row c v = ground (arith, eqb_iff v v, eqb_iff c c)

move-hit :
    (k : Text) (v c n : ℕ) (s : Dict Text Row)
    → lookup k s ≡ some (row c v)
    → move k v c n s ≡ (insert k (row n (v + 1)) s, 1)
move-hit k v c n s h =
    let e : matches (lookup k s) v c ≡ true = ap (λ o. matches o v c) h ∙ matches-row c v in
    rw e refl

matches-integers :
    (a b : ℤ) (v c : ℕ)
    → matches (some (record { current_value = a; version = b })) v c ≡ true
    → some (record { current_value = a; version = b }) ≡ some (row c v)
matches-integers a (negsuc n) v c h = cc
matches-integers (negsuc n) (pos w) v c h = cc
matches-integers (pos d) (pos w) v c h = ground (arith, h, eqb_iff w v, eqb_iff d c)

row-matches : (o : Option Row) (v c : ℕ) → matches o v c ≡ true → o ≡ some (row c v)
row-matches none v c h = cc
row-matches (some r) v c h = matches-integers r.current_value r.version v c h

move-miss :
    (k : Text) (v c n : ℕ) (s : Dict Text Row)
    → lookup k s ≢ some (row c v)
    → move k v c n s ≡ (s, 0)
move-miss k v c n s h = elim (Bool-cases (matches (lookup k s) v c)) [
  | inl same ↦ absurd (h (row-matches (lookup k s) v c same))
  | inr differ ↦ rw differ refl
]

abbrev dict_table : Table (Dict Text Row)
dict_table = record {
  find = lookup;
  insert = λ k n s. put k n (lookup k s) s;
  update = move;
  insert_new = λ k n s h. (
    ap (λ o. (put k n o s).1) h,
    λ j. ap (λ o. lookup j (put k n o s).0) h ∙ lookup-insert j k (row n 1) s,
  );
  insert_taken = λ k n s r h. ap (λ o. put k n o s) h;
  update_hit = λ k v c n s h. (
    ap (λ x. x.1) (move-hit k v c n s h),
    λ j.
        ap (λ (x : Dict Text Row × ℕ). lookup j x.0) (move-hit k v c n s h)
        ∙ lookup-insert j k (row n (v + 1)) s,
  );
  update_miss = move-miss;
}

abbrev order : Definition
order = record {
  field_name = text "number";
  profile = text "daily-permuted-v1";
  prefix = text "SO";
  date_format = text "%Y%m%d";
  reset = text "daily";
  digits = 6;
  separator = text "-";
  namespace = text "sales";
  policy_version = 1;
}

abbrev shop : Scope
shop = record {
  domain_root_key = text "shop";
  aggregate_type = text "Order";
  namespace = text "sales";
  period_key = text "20260801";
}

abbrev order_plan : Plan
order_plan = record {
  definition = order;
  scope = shop;
  business_date = record { year = 2026; month = 8; day = 1 };
  date_text = text "20260801";
  initial_sequence = 5;
  maximum_sequence = 9;
}

-- Two calls find no row, the second insert fails, and its call takes the next number after the failure of one
-- statement.
abbrev race : List Event
race =
    begin order_plan
    ∷ begin order_plan
    ∷ proceed 0 works
    ∷ proceed 1 works
    ∷ proceed 1 fails
    ∷ proceed 0 works
    ∷ proceed 1 works
    ∷ proceed 1 works
    ∷ proceed 1 works
    ∷ []

race-issued :
    allocations_of (run dict_table race (record { store = []; calls = []; issued = [] })).issued
    ≡ record { scope = shop; sequence = 5 } ∷ record { scope = shop; sequence = 6 } ∷ []
unfolding run happen advance lookup insert list_eq canonical_key
race-issued = refl

room : InRange order_plan
room = omega arith

race-EventInRange : All EventInRange race
race-EventInRange = (room, (room, (tt, (tt, (tt, (tt, (tt, (tt, (tt, tt)))))))))

race-IsPunctual : All IsPunctual race
race-IsPunctual = (tt, (tt, (refl, (refl, (refl, (refl, (refl, (refl, (refl, tt)))))))))

run-AllApart_example :
    AllApart (run dict_table race (record { store = []; calls = []; issued = [] })).issued
run-AllApart_example = run-AllApart dict_table race []

run-IsBounded_example :
    All IsBounded (run dict_table race (record { store = []; calls = []; issued = [] })).issued
run-IsBounded_example = run-IsBounded dict_table race [] race-EventInRange

run_refines_example :
    let issued = (run dict_table race (record { store = []; calls = []; issued = [] })).issued in
    allocations_of issued ≡ issue (plans_of issued) []
run_refines_example =
    run_refines dict_table race [] race-EventInRange race-IsPunctual (λ k. lookup-nil k)

-- a statement of the first call, many times
abbrev often : ℕ → List Event
often zero = []
often (suc n) = proceed 0 works ∷ often n

run-IsOver_example :
    (call : Call) × (get_elem?
        (run dict_table (often 300) (record {
          store = [];
          calls = (order_plan, selecting more_attempts) ∷ [];
          issued = [];
        })).calls
        0
      ≡ some (order_plan, call))
    × (is_over call ≡ true)
run-IsOver_example =
    run-IsOver dict_table (often 300) 0 order_plan
      (record { store = []; calls = (order_plan, selecting more_attempts) ∷ []; issued = [] }) refl
      (omega arith)

twice-serve_example :
    seen dict_table order_plan
      (twice dict_table order_plan (selecting more_attempts) ((canonical_key shop, row 5 1) ∷ []))
    ≡ serve order_plan (lookup (canonical_key shop) ((canonical_key shop, row 5 1) ∷ []))
twice-serve_example =
    twice-serve dict_table order_plan more_attempts ((canonical_key shop, row 5 1) ∷ [])
