-- ===== src/Json.antt =====
-- serde_json's `Value`, as far as the sources use it. An object's fields stand in a list in the
-- order of their keys, as in the BTreeMap behind serde_json's `Map`; the texts that a value is read from and written to are the business of a `Codec`, since serde_json,
-- SQLite's json_valid and Rust's `{:?}` are not sources of this repository.
pub mod Laws
use Prim.Native.String.{compare}
use text.Mathlib.Text.{is_lt}
use native.Mathlib.Decide.{ℕ_discrete}
use kaiion.Prelude.{
  ℕ, String, ◌≡◌, Bool, true, false, Option, none, some, List, [], ◌∷◌, Result, ok, str_eq,
  String-discrete, if◌then◌else◌, and_then,
}

-- A number as serde_json stores it: a u64, a negative i64, or the bits of an f64.
pub data Number : Type 0 where
  pos_int neg_int float : ℕ → Number

mutual
  pub data Value : Type 0 where
    null : Value
    boolean : Bool → Value
    number : Number → Value
    string : String → Value
    array : Items → Value
    object : Fields → Value

  pub data Items : Type 0 where
    nil : Items
    cons : Value → Items → Items

  pub data Fields : Type 0 where
    end : Fields
    field : String → Value → Fields → Fields

-- What the code asks of serde_json, of SQLite's json_valid and of `{:?}` on a `str`.
pub record Codec : Type 0 where
  pub parse : String → Result String Value
  pub print : Value → String
  pub json_valid : String → Bool
  pub debug : String → String

-- A value is read back as it was written, and SQLite takes its text for JSON.
pub record RoundTrips (c : Codec) (v : Value) : Type 0 where
  pub reads_back : c.parse (c.print v) ≡ ok v
  pub is_valid : c.json_valid (c.print v) ≡ true

-- `Map::get`
unfoldable pub get_field : String → Fields → Option Value
get_field k end = none
get_field k (field j v fs) = if str_eq j k then some v else get_field k fs

-- `Map::insert`. The map keeps its keys in the order of their bytes.
unfoldable pub insert_field : String → Value → Fields → Fields
insert_field k v end = field k v end
insert_field k v (field j w fs) =
    if str_eq j k
    then field k v fs
    else if is_lt (compare k j)
    then field k v (field j w fs)
    else field j w (insert_field k v fs)

-- `Map::remove`
unfoldable pub remove_field : String → Fields → Fields
remove_field k end = end
remove_field k (field j w fs) = if str_eq j k then fs else field j w (remove_field k fs)

-- `Value::get` with a text
unfoldable pub get : String → Value → Option Value
unfolding get_field
get k (object fs) = get_field k fs
get k _ = none

-- `Value::as_str`
abbrev pub as_str : Value → Option String
as_str (string s) = some s
as_str _ = none

-- `Value::as_u64`
abbrev pub as_u64 : Value → Option ℕ
as_u64 (number (pos_int n)) = some n
as_u64 _ = none

-- `Value::as_array`
abbrev pub as_array : Value → Option Items
as_array (array vs) = some vs
as_array _ = none

-- `Value::as_object`
abbrev pub as_object : Value → Option Fields
as_object (object fs) = some fs
as_object _ = none

-- `Value::is_null`
abbrev pub is_null : Value → Bool
is_null null = true
is_null _ = false

-- `Value::is_object`
abbrev pub is_object : Value → Bool
is_object (object fs) = true
is_object _ = false

-- `value.get(key).and_then(Value::as_str)`
abbrev pub get_str : String → Value → Option String
get_str k v = and_then (get k v) as_str

-- `json!` of an array
abbrev pub items : List Value → Items
items [] = nil
items (v ∷ vs) = cons v (items vs)

-- The entries of an array.
abbrev pub entries : Items → List Value
entries nil = []
entries (cons v vs) = v ∷ entries vs

-- `json!` of an object
unfoldable pub fields : List (String × Value) → Fields
unfolding insert_field
fields [] = end
fields ((k, v) ∷ kvs) = insert_field k v (fields kvs)

unfoldable pub Value-discrete : Discrete Value
Value-discrete = hlevel (ℕ_discrete, String-discrete)
