-- ===== src/Values.antt =====
-- The values of a `JSONField`: attachment descriptors are stored as whatever the sender sent.
use stapel_chat.Base.{Bool, Text, false, if◌then◌else◌, is_empty, ltb, not, text_eq, true, ℕ}

mutual
  pub data Json : Type 0 where
    null : Json
    bool : Bool → Json
    num : ℕ → Json
    -- any other number, negative or fractional: whether it is true, which 0.0 is not, and its literal
    other_number : Bool → Text → Json
    str : Text → Json
    arr : Items → Json
    obj : Fields → Json

  pub data Items : Type 0 where
    nil : Items
    cons : Json → Items → Items

  pub data Fields : Type 0 where
    end : Fields
    field : Text → Json → Fields → Fields

-- `d.get(name)`, where a missing key and `None` read alike
unfoldable pub get_field : Text → Fields → Json
unfolding text_eq
get_field k end = null
get_field k (field j v d) = if text_eq j k then v else get_field k d

-- `d[name] = value`
unfoldable pub set_field : Text → Json → Fields → Fields
unfolding text_eq
set_field k v end = field k v end
set_field k v (field j w d) = if text_eq j k then field k v d else field j w (set_field k v d)

-- The truth value of a JSON value, as `x or default` reads it.
unfoldable pub truthy : Json → Bool
truthy null = false
truthy (bool b) = b
truthy (num n) = ltb 0 n
truthy (other_number b literal) = b
truthy (str s) = not (is_empty s)
truthy (arr nil) = false
truthy (arr (cons j js)) = true
truthy (obj end) = false
truthy (obj (field k v d)) = true

abbrev pub is_null : Json → Bool
is_null null = true
is_null (bool b) = false
is_null (num n) = false
is_null (other_number b literal) = false
is_null (str s) = false
is_null (arr js) = false
is_null (obj d) = false
