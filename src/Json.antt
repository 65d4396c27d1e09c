-- ===== src/Json.antt =====
-- Go's `map[string]interface{}` and the values that `encoding/json` puts in it. Numbers are the 64
-- bits of a float64. A map may be nil: it reads as empty, and a write to it panics.
use sumologic_lambda_extensi.Base.{
  ℕ, ◌≡◌, refl, Bool, false, Option, none, some, String, key_eq, key_eq_iff, if◌then◌else◌, arith,
  is_none, not,
}
use sumologic_lambda_extensi.Base.Text.{Text}

mutual
  pub data Value : Type 0 where
    null : Value
    bool : Bool → Value
    num : ℕ → Value
    str : Text → Value
    arr : Values → Value
    obj : JsonMap → Value

  pub data Values : Type 0 where
    nil : Values
    cons : Value → Values → Values

  pub data JsonMap : Type 0 where
    nil_map : JsonMap
    entries : Fields → JsonMap

  pub data Fields : Type 0 where
    end : Fields
    field : String → Value → Fields → Fields

unfoldable pub lookup : String → Fields → Option Value
lookup k end = none
lookup k (field j v fs) = if key_eq j k then some v else lookup k fs

-- `m[k] = v`
unfoldable pub set : String → Value → Fields → Fields
set k v end = field k v end
set k v (field j w fs) = if key_eq j k then field j v fs else field j w (set k v fs)

-- `delete(m, k)`
unfoldable pub delete : String → Fields → Fields
delete k end = end
delete k (field j w fs) = let rest = delete k fs in if key_eq j k then rest else field j w rest

-- `m[k]` of a map that may be nil: a missing key reads as the nil interface.
abbrev pub or_null : Option Value → Value
or_null none = null
or_null (some v) = v

unfoldable pub get : String → JsonMap → Value
get k nil_map = null
get k (entries fs) = or_null (lookup k fs)

-- `_, ok := m[k]`
unfoldable pub has_key : String → JsonMap → Bool
has_key k nil_map = false
has_key k (entries fs) = not (is_none (lookup k fs))

-- `delete` on a map that may be nil.
unfoldable pub delete_key : String → JsonMap → JsonMap
delete_key k nil_map = nil_map
delete_key k (entries fs) = entries (delete k fs)

pub lookup-set :
    (j k : String) (v : Value) (fs : Fields)
    → lookup j (set k v fs) ≡ (if key_eq k j then some v else lookup j fs)
unfolding lookup set
lookup-set j k v end = refl
lookup-set j k v (field i w fs) =
    ground (arith, key_eq_iff k j, key_eq_iff i k, key_eq_iff i j, lookup-set j k v fs)

pub lookup-delete :
    (j k : String) (fs : Fields)
    → lookup j (delete k fs) ≡ (if key_eq k j then none else lookup j fs)
unfolding lookup delete
lookup-delete j k end = ground arith
lookup-delete j k (field i w fs) =
    ground (arith, key_eq_iff k j, key_eq_iff i k, key_eq_iff i j, lookup-delete j k fs)

pub ruleset map_laws = (lookup-set, lookup-delete)
