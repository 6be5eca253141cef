-- ===== src/BusinessId/Store/Returns.antt =====
-- src/teaql/sql/business_id.py: the statements after which a call returns no number.
use teaql_python.Base.{ℕ, zero, suc, ◌≡◌, refl, Option, none, some, [], leb, if-keeps}
use teaql_python.BusinessId.Core.{range_exhausted, business_id, Plan}
use teaql_python.BusinessId.Store.Table.{Row}
use teaql_python.BusinessId.Store.Allocator.{
  updating, raised, again, examined, after_select, after_observe, numbers, returns,
}

pub returns-again : (plan : Plan) (n : ℕ) → returns plan (again n) ≡ []
returns-again plan zero = refl
returns-again plan (suc n) = refl

returns-examined :
    (plan : Plan) (n : ℕ) (o : Option (ℕ × ℕ)) → returns plan (examined plan n o) ≡ []
returns-examined plan n none = refl
returns-examined plan n (some (c, v)) =
    if-keeps (λ call. returns plan call ≡ []) (leb plan.maximum_sequence c)
      {x = raised (business_id range_exhausted)} {y = updating n c v} (λ _. refl) (λ _. refl)

pub returns-selected :
    (plan : Plan) (n : ℕ) (o : Option Row) → returns plan (after_select plan n o) ≡ []
returns-selected plan n none = refl
returns-selected plan n (some r) = returns-examined plan n (numbers r)

pub returns-observed :
    (plan : Plan) (n : ℕ) (o : Option Row) → returns plan (after_observe n o) ≡ []
returns-observed plan n none = refl
returns-observed plan n (some r) = returns-again plan n
