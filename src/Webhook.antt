-- ===== src/Webhook.antt =====
-- app/services/crm_webhook_service.py: when the CRM counts as told. The HTTP client is a parameter
-- by what it answers, and so is `json.loads` of its body.
pub mod Contract
mod Examples
use ms_integracion_smartsupe.Prelude.{
  ℕ, String, Bool, true, false, not, ◌&&◌, ◌||◌, Option, none, some, str_eq, ◌==◌, if◌then◌else◌,
}
use ms_integracion_smartsupe.Text.{codes}
use ms_integracion_smartsupe.Text.Search.{contains}
use ms_integracion_smartsupe.Errors.Extract.{
  JsonValue, json_null, json_text, json_scalar, json_object, Fields, get_field,
}

-- What `client.post` gives: an exception, or a response with its content type in lower case and
-- its body read as JSON, `none` where that fails.
pub record Response : Type 0 where
  pub status_code : ℕ
  pub content_type : String
  pub cuerpo : Option JsonValue

-- Why the CRM does not count as told.
pub data Detalle : Type 0 where
  sin_url : Detalle
  error_http : ℕ → Detalle
  content_type_inesperado : Detalle
  json_ilegible : Detalle
  no_es_objeto : Detalle
  sin_exito_explicito : Detalle
  otro_caso : Detalle
  fallo_de_red : Detalle

-- `raw_json.get("success") is True`: `true` is the scalar that is written so.
abbrev pub es_true : Option JsonValue → Bool
es_true (some (json_scalar s)) = str_eq s "True"
es_true _ = false

abbrev pub es_el_caso : Option JsonValue → String → Bool
es_el_caso (some (json_text s)) caso = str_eq s caso
es_el_caso _ caso = false

-- `not case_id_crm or crm_case_number != case_id_crm`
abbrev pub correlaciona : String → Fields → Bool
correlaciona case_id_crm cs =
    not (str_eq case_id_crm "") && es_el_caso (get_field "case_number" cs) case_id_crm

-- The end of `_validar_respuesta_exitosa`: `none` is success.
abbrev pub validar_contrato : String → JsonValue → Option Detalle
validar_contrato case_id_crm (json_object cs) =
    if es_true (get_field "success" cs)
    then if correlaciona case_id_crm cs then none else some otro_caso
    else some sin_exito_explicito
validar_contrato case_id_crm _ = some no_es_objeto

abbrev pub con_cuerpo : String → Option JsonValue → Option Detalle
con_cuerpo case_id_crm none = some json_ilegible
con_cuerpo case_id_crm (some json_null) = some no_es_objeto
con_cuerpo case_id_crm (some v) = validar_contrato case_id_crm v

abbrev pub es_json : Response → Bool
es_json r = contains (codes "application/json") (codes r.content_type)

-- `_validar_respuesta_exitosa`
unfoldable pub validar_respuesta_exitosa : Response → String → Option Detalle
validar_respuesta_exitosa r case_id_crm =
    if es_json r then con_cuerpo case_id_crm r.cuerpo else some content_type_inesperado

abbrev pub aceptado : ℕ → Bool
aceptado s = s == 200 || (s == 201 || s == 202)

abbrev pub tras_respuesta : Option Response → String → Option Detalle
tras_respuesta none case_id_crm = some fallo_de_red
tras_respuesta (some r) case_id_crm =
    if aceptado r.status_code
    then validar_respuesta_exitosa r case_id_crm
    else some (error_http r.status_code)

-- `notificar_resolucion_contingencia`, with whether the URL is configured.
unfoldable pub notificar_resolucion : Bool → Option Response → String → Option Detalle
notificar_resolucion con_url r case_id_crm =
    if con_url then tras_respuesta r case_id_crm else some sin_url
