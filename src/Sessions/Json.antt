-- ===== src/Sessions/Json.antt =====
-- Values of `encoding/json`, as `map[string]any` holds them, and the type assertions on them.
use pican.Base.{ℕ, Bool, String, if◌then◌else◌, str_eq}

mutual
  pub data Json : Type 0 where
    null : Json
    bool : Bool → Json
    number : ℕ → Json
    text : String → Json
    array : Items → Json
    object : Fields → Json

  pub data Items : Type 0 where
    end : Items
    item : Json → Items → Items

  pub data Fields : Type 0 where
    empty : Fields
    field : String → Json → Fields → Fields

-- `m[key]`
abbrev pub get : String → Fields → Json
get key Fields.empty = Json.null
get key (Fields.field k v fs) = if str_eq k key then v else get key fs

-- `s, _ := v.(string)`
abbrev pub as_text : Json → String
as_text (Json.text s) = s
as_text Json.null = ""
as_text (Json.bool b) = ""
as_text (Json.number n) = ""
as_text (Json.array js) = ""
as_text (Json.object fs) = ""

abbrev pub text_of : String → Fields → String
text_of key fs = as_text (get key fs)
