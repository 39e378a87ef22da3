-- ===== src/Json/Laws.antt =====
-- What a lookup finds in an object that was built by insertions and removals.
use text.Mathlib.TextPositions.{eq_refl}
use kaiion.Prelude.{String, ◌≡◌, refl, false, some, List, ◌∷◌, str_eq, str_eq_iff, arith}
use kaiion.Json.{
  Value, Fields, object, end, field, get_field, insert_field, remove_field, get, fields,
}

pub get_field-insert_field :
    (k : String) (v : Value) (fs : Fields) → get_field k (insert_field k v fs) ≡ some v
unfolding get_field insert_field
get_field-insert_field k v end = simp eq_refl
get_field-insert_field k v (field j w fs) = ground (arith, eq_refl k, get_field-insert_field k v fs)

pub get_field-insert_other :
    (j k : String) (v : Value) (fs : Fields)
    → str_eq k j ≡ false
    → get_field j (insert_field k v fs) ≡ get_field j fs
unfolding get_field insert_field
get_field-insert_other j k v end h = ground arith
get_field-insert_other j k v (field i w fs) h =
    ground
      (arith, str_eq_iff i k, str_eq_iff i j, str_eq_iff k j, get_field-insert_other j k v fs h)

-- The value of an object's first pair, and a lookup that passes it by.
pub get-fields_head :
    (k : String) (v : Value) (kvs : List (String × Value))
    → get k (object (fields ((k, v) ∷ kvs))) ≡ some v
unfolding get fields
get-fields_head k v kvs = get_field-insert_field k v (fields kvs)

pub get-fields_tail :
    (j k : String) (v : Value) (kvs : List (String × Value))
    → str_eq k j ≡ false
    → get j (object (fields ((k, v) ∷ kvs))) ≡ get j (object (fields kvs))
unfolding get fields
get-fields_tail j k v kvs h = get_field-insert_other j k v (fields kvs) h

pub get_field-remove_other :
    (j k : String) (fs : Fields)
    → str_eq k j ≡ false
    → get_field j (remove_field k fs) ≡ get_field j fs
unfolding get_field remove_field
get_field-remove_other j k end h = refl
get_field-remove_other j k (field i w fs) h =
    ground (arith, str_eq_iff i k, str_eq_iff i j, str_eq_iff k j, get_field-remove_other j k fs h)
