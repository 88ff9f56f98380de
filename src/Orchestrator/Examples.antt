-- ===== src/Orchestrator/Examples.antt =====
-- Dispatches of complaints, and instances of the theorems about them.
use ms_integracion_smartsupe.Prelude.{
  ◌+◌, ◌≤◌, ◌<◌, ◌↔◌, String, ◌≡◌, refl, true, some, none, List, [], ◌∷◌, str_eq, if◌then◌else◌,
}
use ms_integracion_smartsupe.Text.Search.{contains, after_prefix}
use ms_integracion_smartsupe.Classification.{
  text, Payload, es_estado_cierre, es_cierre, es_fraude, es_nueva,
}
use ms_integracion_smartsupe.Errors.{SfcException}
use ms_integracion_smartsupe.Orchestrator.{
  Queja, Resultado, Respuesta, resultado, rechazo, Llamada, actualizacion_tramite, Listado, listado,
  es_m2_puro, exito_si_ya_cerrado, paso_tramite, pasos_momento_3, limpiar_si_cierre, momento_3,
  tras_creacion, recuperar, intento, despachar,
}
use ms_integracion_smartsupe.Orchestrator.Bounds.{creaciones, LooksMissing, creation_iff_not_found}

-- An update of a complaint in progress.
abbrev update : Payload
update k =
    if str_eq k "Status"
    then some (text "Working")
    else if str_eq k "admision_col__c"
    then some (text "No Aplica")
    else none

abbrev queja : Queja
queja = record {
  smart_code = "1423";
  case_id = none;
  directorio_s3 = none;
  archivos_s3 = "caso/1423/a.pdf" ∷ [];
  fields = update;
}

abbrev same : String → String
same s = s

abbrev nothing_listed : String → String → Listado
nothing_listed d c = listado []

abbrev success : Resultado
success = record { status = "success"; message = "ok" }

abbrev not_found : SfcException
not_found = record {
  status_code = 404;
  error_type = "NOT_FOUND_ERROR";
  sfc_field = none;
  raw_message = "no existe";
  crm_action = "";
}

abbrev already_closed : SfcException
already_closed = record not_found {
  status_code = 400;
  error_type = "VALIDATION_ERROR";
  raw_message = "already closed";
}

-- The SFC does not have the case until Momento 2 creates it.
abbrev creating : List Llamada → Llamada → Respuesta
creating [] (actualizacion_tramite q) = rechazo not_found
creating h c = resultado success

-- The SFC has closed the case.
abbrev closed : List Llamada → Llamada → Respuesta
closed h c = rechazo already_closed

-- A file of the complaint that S3 does not have, and a case that the SFC has.
abbrev missing_file : SfcException
missing_file = record not_found { error_type = "S3_FILE_NOT_FOUND" }

abbrev without_file : List Llamada → Llamada → Respuesta
without_file [] (actualizacion_tramite q) = rechazo missing_file
without_file h c = resultado success

creation_iff_not_found_example :
    ((creaciones [] < creaciones (despachar same without_file nothing_listed queja true []).1) ↔ (
      (exc : SfcException) × ((momento_3 same without_file nothing_listed queja true []).0
        ≡ rechazo exc)
      × LooksMissing exc))
    × (creaciones (despachar same without_file nothing_listed queja true []).1 ≤ creaciones [] + 1)
unfolding es_m2_puro es_nueva es_cierre es_estado_cierre es_fraude
creation_iff_not_found_example =
    creation_iff_not_found same without_file nothing_listed queja true [] refl refl

-- The missing file starts the creation.
file_creates : creaciones (despachar same without_file nothing_listed queja true []).1 ≡ 1
unfolding despachar intento momento_3 pasos_momento_3 paso_tramite exito_si_ya_cerrado
    limpiar_si_cierre recuperar tras_creacion es_m2_puro es_nueva es_cierre es_estado_cierre
    es_fraude contains after_prefix
file_creates = refl
