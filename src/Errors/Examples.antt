-- ===== src/Errors/Examples.antt =====
-- Errors of the SFC, and instances of the theorems about them.
use ms_integracion_smartsupe.Prelude.{String, ◌≡◌, refl, false, Option, some, none, [], ◌∷◌}
use ms_integracion_smartsupe.Text.{codes}
use ms_integracion_smartsupe.Text.Search.{contains, after_prefix, search_token, coincide}
use ms_integracion_smartsupe.Errors.{Rule, rule_matches}
use ms_integracion_smartsupe.Errors.Extract.{
  JsonValue, json_text, json_list, json_object, no_elements, element, Fields, no_fields, field,
  get_field, listed, extraer_informacion_error,
}
use ms_integracion_smartsupe.Errors.MissingCase.{procesar_y_lanzar, procesar_y_lanzar_missing}

-- A code that a case code has inside it is not found, on its own it is.
embedded_code : coincide (codes "556240") (codes "SC-556240-01") ≡ false
unfolding coincide contains after_prefix search_token
embedded_code = refl

-- The lower case of texts that are in it already.
abbrev same : String → String
same s = s

abbrev exists_rule : Rule
exists_rule = record {
  subcadena = some "codigo_queja";
  tipo = some "ALREADY_EXISTS";
  accion = some "Ya existe.";
}

abbrev missing_rule : Rule
missing_rule = record {
  subcadena = some "does not exist";
  tipo = some "NOT_FOUND_ERROR";
  accion = none;
}

abbrev missing_text : String
missing_text = "codigo_queja: it does not exist"

-- The envelope of the SFC.
abbrev object : Fields
object =
    field "codigo_queja" (json_list (element (json_text "it does not exist") no_elements)) no_fields

abbrev envelope : Fields
envelope =
    field "messages" (json_object object)
      (field "detail" (json_text "Error APIException") no_fields)

abbrev text_of : JsonValue → String
text_of (json_text s) = s
text_of v = "{}"

abbrev loads : String → Option JsonValue
loads s = some (json_object envelope)

procesar_y_lanzar_missing_example :
    (procesar_y_lanzar text_of loads same (exists_rule ∷ missing_rule ∷ []) 400 "{}").0.error_type
    ≡ "NOT_FOUND_ERROR"
unfolding extraer_informacion_error get_field listed rule_matches coincide contains after_prefix
    search_token
procesar_y_lanzar_missing_example =
    procesar_y_lanzar_missing text_of loads same 400 "{}" envelope object (exists_rule ∷ []) []
      missing_rule (λ s h. h) refl refl refl refl refl
