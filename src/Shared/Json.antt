-- ===== src/Shared/Json.antt =====
-- The values that JSON.parse makes, and what shared/messages.ts and shared/transfer.ts read of them.
-- Such a value has data properties only, and the prototype of a plain object or of an array, so the
-- tests on prototypes and on property descriptors hold of it.
use p2p_transfer.Base.{
  Bool, true, false, ◌&&◌, ◌||◌, Option, none, some, List, [], ◌∷◌, Text, Number, same_text,
  if◌then◌else◌,
}

mutual
  pub data Json : Type 0 where
    null : Json
    boolean : Bool → Json
    number : Number → Json
    string : Text → Json
    array : Items → Json
    object : Fields → Json

  pub data Items : Type 0 where
    no_items : Items
    item : Json → Items → Items

  -- The properties in their order; no key stands twice.
  pub data Fields : Type 0 where
    no_fields : Fields
    field : Text → Json → Fields → Fields

-- A value of the type `unknown`; `none` is `undefined`.
abbrev pub Value : Type 0
Value = Option Json

abbrev pub values : Items → List Json
values no_items = []
values (item v vs) = v ∷ values vs

abbrev pub field_value : Text → Fields → Value
field_value key no_fields = none
field_value key (field k v fs) = if same_text k key then some v else field_value key fs

-- `isObject`
abbrev pub is_object : Value → Bool
is_object (some (object fs)) = true
is_object _ = false

-- `ownDataValue` with a key that is no index
abbrev pub own_data_value : Value → Text → Value
own_data_value (some (object fs)) key = field_value key fs
own_data_value _ key = none

abbrev pub is_among : Text → List Text → Bool
is_among key [] = false
is_among key (k ∷ ks) = same_text k key || is_among key ks

abbrev pub fields_among : List Text → Fields → Bool
fields_among allowed no_fields = true
fields_among allowed (field k v fs) = is_among k allowed && fields_among allowed fs

-- `hasOnlyKeys`, of an object
abbrev pub has_only_keys : Value → List Text → Bool
has_only_keys (some (object fs)) allowed = fields_among allowed fs
has_only_keys _ allowed = false

-- The elements of an array, `none` for any other value.
abbrev pub elements : Value → Option (List Json)
elements (some (array vs)) = some (values vs)
elements _ = none

-- `typeof value === "string"`, with the text
abbrev pub text_of : Value → Option Text
text_of (some (string s)) = some s
text_of _ = none

abbrev pub number_of : Value → Option Number
number_of (some (number n)) = some n
number_of _ = none

abbrev pub is_undefined : Value → Bool
is_undefined none = true
is_undefined (some v) = false

-- `value === text`
abbrev pub is_text : Value → Text → Bool
is_text (some (string s)) t = same_text s t
is_text _ t = false
