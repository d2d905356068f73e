-- ===== src/Json.antt =====
-- JSON values as encoding/json reads and writes them, for the payloads that the storage keeps.
-- Marshalling is kept apart from the text: a stored payload is the value that it encodes.
pub mod Reread
use romancy.Base.{String, ℕ, Bool, Option, none, some, ite, same}

mutual
  pub data Json : Type 0 where
    null : Json
    bool : Bool → Json
    num : ℕ → Json
    str : String → Json
    arr : Items → Json
    obj : Fields → Json

  pub data Items : Type 0 where
    nil : Items
    cons : Json → Items → Items

  pub data Fields : Type 0 where
    end : Fields
    field : String → Json → Fields → Fields

-- `m[key]` on a decoded `map[string]any`.
unfoldable pub get_field : String → Fields → Option Json
get_field key end = none
get_field key (field k v rest) = ite (same key k) (some v) (get_field key rest)

-- What a Go `any` holds where it is passed to `json.Marshal`: a value that has an encoding, or
-- one that has none (a channel, a function).
pub data Value : Type 0 where
  encodable : Json → Value
  unencodable : Value

-- `json.Marshal`
abbrev pub marshal : Value → Option Json
marshal (encodable j) = some j
marshal unencodable = none

-- The type assertion `x.(float64)` after a decode into `any`.
abbrev pub as_number : Option Json → Option ℕ
as_number (some (num n)) = some n
as_number _ = none

-- `json.Unmarshal(data, &m)` for `var m map[string]any`, then `m[key]`.
abbrev pub member : String → Json → Option Json
member key (obj fields) = get_field key fields
member key _ = none

-- `json.Unmarshal(data, &s)` for `var s string`: the text stays empty where the data is no text.
abbrev pub text_of : Json → String
text_of (str s) = s
text_of _ = ""
