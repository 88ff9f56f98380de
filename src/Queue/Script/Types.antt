-- ===== src/Queue/Script/Types.antt =====
-- The replies that the scripts share, and the key under which an item is indexed.
use ms_integracion_smartsupe.Prelude.{Bool, true, false, not, str_eq}
use ms_integracion_smartsupe.Item.{Item, operacion_sufijo}
use ms_integracion_smartsupe.Redis.{Key, index_key}

-- `{success = true}`, `{success = false, reason = …}`, or an error of `cjson.decode`.
pub data Outcome : Type 0 where
  success not_owner item_not_found version_mismatch script_error : Outcome

abbrev pub is_success : Outcome → Bool
is_success success = true
is_success _ = false

-- `{sfc:queue}:index:<smart_code>:<operacion or LEGACY>`
abbrev pub slot_of : Item → Key
slot_of it = index_key it.smart_code (operacion_sufijo it)

-- `data["smart_code"] and data["smart_code"] ~= ""`
abbrev pub has_smart_code : Item → Bool
has_smart_code it = not (str_eq it.smart_code "")
