-- ===== src/Item.antt =====
-- The table that the Lua scripts of app/services/queue_service.py store for one queue item.
-- A field that an item stored by an older release may lack is an option. An absent `smart_code`
-- or `operacion` is "": the scripts treat both alike. Times are milliseconds.
use ms_integracion_smartsupe.Prelude.{ℕ, String, Bool, Option, none, some, str_eq, if◌then◌else◌}
use ms_integracion_smartsupe.Status.{SmartStatus}

pub record Item : Type 0 where
  pub id : ℕ
  pub smart_code : String
  pub tipo_operacion : String
  pub payload_json : String
  pub payload_hash : Option String
  pub operacion : String
  pub estado : SmartStatus
  pub sfc_completado : Bool
  pub sfc_response : Option String
  pub intentos : Option ℕ
  pub max_intentos : ℕ
  pub ultimo_error : String
  pub proximo_reintento_at : ℕ
  pub created_at : ℕ
  pub updated_at : ℕ
  pub correlation_id : String
  pub es_duplicado : Bool
  pub version : Option ℕ

-- `tonumber(data["version"] or 1)`
abbrev pub version_or_one : Option ℕ → ℕ
version_or_one none = 1
version_or_one (some v) = v

-- `tonumber(data["intentos"]) or 0`
abbrev pub intentos_or_zero : Option ℕ → ℕ
intentos_or_zero none = 0
intentos_or_zero (some n) = n

-- The suffix of the index key: the operation, or LEGACY where the item has none.
unfoldable pub operacion_sufijo : Item → String
operacion_sufijo it = if str_eq it.operacion "" then "LEGACY" else it.operacion
