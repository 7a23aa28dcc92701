-- ===== src/Json.antt =====
-- Values that `json` decodes. A dictionary keeps its entries in order, and `get` takes the first
-- of a key; the services only ask by key.
use ai_infra_console.Prelude.{ℕ, Text, text_eq, Bool, if◌then◌else◌}

-- `negsuc n` is -(n + 1).
pub data ℤ : Type 0 where
  pos : ℕ → ℤ
  negsuc : ℕ → ℤ

mutual
  pub data Json : Type 0 where
    null : Json
    bool : Bool → Json
    int : ℤ → Json
    float : ℕ → Json
    str : Text → Json
    arr : Items → Json
    obj : Fields → Json

  pub data Items : Type 0 where
    nil : Items
    cons : Json → Items → Items

  pub data Fields : Type 0 where
    end : Fields
    field : Text → Json → Fields → Fields

-- `d.get(key)`; `None` is both a missing key and `null`
unfoldable pub get_field : Text → Fields → Json
get_field key end = null
get_field key (field k v fs) = if text_eq k key then v else get_field key fs

-- `value.get(key) if isinstance(value, dict) else None`
unfoldable pub get : Text → Json → Json
unfolding get_field
get key (obj fs) = get_field key fs
get key _ = null
