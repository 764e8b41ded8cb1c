-- ===== src/Http/Json.antt =====
-- JSON values, as the code meets them in bodies of requests and answers. A number is kept by its
-- literal.
use mock_pontes.Base.{String, ◌==◌, Bool, true, false, Option, none, some, if◌then◌else◌}

mutual
  pub data Value : Type 0 where
    null : Value
    bool : Bool → Value
    num : String → Value
    text : String → Value
    array : Items → Value
    object : Fields → Value

  pub data Fields : Type 0 where
    no_fields : Fields
    entry : String → Value → Fields → Fields

  pub data Items : Type 0 where
    no_items : Items
    item : Value → Items → Items

-- `v.k`, where nothing stands for `undefined`. Only names that no built-in object has are read.
unfoldable get_field : String → Fields → Option Value
get_field k no_fields = none
get_field k (entry j v fs) = if j == k then some v else get_field k fs

unfoldable pub prop : String → Value → Option Value
unfolding get_field
prop k (object fs) = get_field k fs
prop k _ = none

-- `k in v`, for an object `v`
abbrev pub is_in : String → Value → Bool
is_in k v = elim (prop k v) [ none ↦ false | some x ↦ true ]

-- `v && typeof v === "object"`
abbrev pub is_object : Value → Bool
is_object (array xs) = true
is_object (object fs) = true
is_object _ = false

-- `typeof v === "string"`, and the text
abbrev pub as_text : Option Value → Option String
as_text (some (text s)) = some s
as_text _ = none

-- `typeof v === "number"`
abbrev pub is_num : Option Value → Bool
is_num (some (num s)) = true
is_num _ = false
