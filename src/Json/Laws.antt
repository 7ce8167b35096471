-- ===== src/Json/Laws.antt =====
-- On the look-up in decoded JSON objects, whose order of fields the Go maps do not keep.
use on_demand_service_broker.Prelude.{
  ◌≡◌, refl, false, Bool-cases, inl, inr, ◌==◌, String, eq_iff, arith,
}
use on_demand_service_broker.Json.{Value, Object, end, field, get, set}

-- What a key reads after an assignment to another.
pub get-set :
    (key other : String) (value : Value) (o : Object)
    → key == other ≡ false
    → get other (set key value o) ≡ get other o
unfolding get set
get-set key other value end h = rw h refl
get-set key other value (field name old rest) h =
    let later = get-set key other value rest h in
    elim (Bool-cases (name == key)) [
      | inl hit ↦ rw hit (let same = (eq_iff name key).0 hit in ground (arith, hit, same, h))
      | inr miss ↦ rw miss (ground (arith, miss, later))
    ]
