-- ===== src/Webhook/Examples.antt =====
-- Answers of the CRM, and an instance of the theorem about them.
use ms_integracion_smartsupe.Prelude.{◌≡◌, ◌↔◌, refl, String, Bool, true, none, some}
use ms_integracion_smartsupe.Text.Search.{contains, after_prefix}
use ms_integracion_smartsupe.Errors.Extract.{
  json_text, json_scalar, json_object, field, no_fields, get_field,
}
use ms_integracion_smartsupe.Webhook.{
  Response, otro_caso, validar_respuesta_exitosa, notificar_resolucion,
}
use ms_integracion_smartsupe.Webhook.Contract.{Confirms, notificar_resolucion_iff}

abbrev confirmation : String → Response
confirmation c = record {
  status_code = 201;
  content_type = "application/json; charset=utf-8";
  cuerpo = some (
      json_object
        (field "success" (json_scalar "True") (field "case_number" (json_text c) no_fields)));
}

told : notificar_resolucion true (some (confirmation "500")) "500" ≡ none
unfolding notificar_resolucion validar_respuesta_exitosa contains after_prefix get_field
told = refl

other_case : notificar_resolucion true (some (confirmation "501")) "500" ≡ some otro_caso
unfolding notificar_resolucion validar_respuesta_exitosa contains after_prefix get_field
other_case = refl

notificar_resolucion_iff_example :
    (notificar_resolucion true (some (confirmation "500")) "500" ≡ none) ↔ (
      (◌≡◌ {A = Bool} true true)
      × ((r : Response) × (some (confirmation "500") ≡ some r) × Confirms r "500"))
notificar_resolucion_iff_example = notificar_resolucion_iff true (some (confirmation "500")) "500"
