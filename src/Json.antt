-- ===== src/Json.antt =====
-- The payload of an operation: `Record<string, unknown>` after JSON.parse. A number is an integer;
-- payload numbers with a fractional part are not modelled. `undefined` is a missing field.
use nftlox.Prelude.{ℕ, suc, String, Bool, true, false, ◌==◌, if◌then◌else◌}

pub data ℤ : Type 0 where
  pos : ℕ → ℤ
  negsuc : ℕ → ℤ

mutual
  pub data Value : Type 0 where
    undefined null : Value
    bool : Bool → Value
    num : ℤ → Value
    str : String → Value
    array : Items → Value
    object : Fields → Value

  pub data Fields : Type 0 where
    no_properties : Fields
    property : String → Value → Fields → Fields

  pub data Items : Type 0 where
    no_items : Items
    item : Value → Items → Items

-- `data.name`. JSON.parse keeps the last of two equal names, so a parsed object has each once.
unfoldable pub member : Fields → String → Value
member no_properties name = undefined
member (property k v fs) name = if k == name then v else member fs name

-- `Object.prototype.hasOwnProperty.call(data, name)`
unfoldable pub has_own : Fields → String → Bool
has_own no_properties name = false
has_own (property k v fs) name = if k == name then true else has_own fs name

unfoldable pub item_count : Items → ℕ
item_count no_items = 0
item_count (item v vs) = suc (item_count vs)
