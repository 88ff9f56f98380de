-- ===== src/Orchestrator.antt =====
-- app/services/despacho_queja_orchestrator.py: how a complaint is sent to the SFC, with the recovery
-- of a case that the SFC does not have. The services of Momento 2 and 3 and of S3 are outside: each
-- call of them is recorded, and what it answers may depend on every call before it.
pub mod Bounds
pub mod Recovery
pub mod Route
mod Examples
use Prim.Native.String.{◌++◌ as concat}
use ms_integracion_smartsupe.Prelude.{
  ℕ, String, ◌≡◌, Bool, true, false, not, ◌&&◌, ◌||◌, Option, none, some, List, [], ◌∷◌, ◌==◌,
  str_eq, ◌⊎◌, inl, inr, if◌then◌else◌,
}
use ms_integracion_smartsupe.Text.{codes}
use ms_integracion_smartsupe.Text.Search.{contains}
use ms_integracion_smartsupe.Classification.{
  Json, text, Payload, is_present, es_cierre, es_fraude, es_nueva,
}
use ms_integracion_smartsupe.Errors.{SfcException}

-- `QuejaUnificadaCrmInput`: the fields that the orchestrator names, and the others by name.
pub record Queja : Type 0 where
  pub smart_code : String
  pub case_id : Option String
  pub directorio_s3 : Option String
  pub archivos_s3 : List String
  pub fields : Payload

-- A result of a service: its status and its message.
pub record Resultado : Type 0 where
  pub status : String
  pub message : String

-- A result, or an exception: `SfcIntegrationException`, pydantic's `ValidationError` by its summary,
-- or another.
pub data Respuesta : Type 0 where
  resultado : Resultado → Respuesta
  rechazo : SfcException → Respuesta
  invalido : String → Respuesta
  excepcion : String → Respuesta

-- `ejecutar_envio_momento_2`, `ejecutar_gestion_fraude`, `ejecutar_cierre_definitivo`,
-- `ejecutar_actualizacion_tramite` and `limpiar_checkpoint_archivos`.
pub data Llamada : Type 0 where
  envio_m2 gestion_fraude cierre_definitivo actualizacion_tramite : Queja → Llamada
  limpieza : String → Llamada

-- `listar_archivos_en_directorio`, and the schema of each file.
pub data Listado : Type 0 where
  listado : List String → Listado
  falla : Respuesta → Listado

-- `_es_error_caso_ya_cerrado`: the phrases.
abbrev pub frases_ya_cerrada : List String
frases_ya_cerrada =
    "ya cuenta con un documento de respuesta final" ∷ "la queja se encuentra con estado cerrado"
    ∷ "no se puede actualizar el anexo debido a que la queja se encuentra cerrada"
    ∷ "queja ya esta cerrada" ∷ "already closed" ∷ []

abbrev pub any_phrase : List String → String → Bool
any_phrase [] s = false
any_phrase (f ∷ fs) s = contains (codes f) (codes s) || any_phrase fs s

-- `getattr(exc, "raw_message", "") or str(exc)`
abbrev pub exception_text : SfcException → String
exception_text exc =
    if str_eq exc.raw_message ""
    then concat "[" (concat exc.error_type (concat "] " exc.raw_message))
    else exc.raw_message

-- `_resultado_por_cierre_confirmado`
abbrev pub resultado_por_cierre_confirmado : String → Bool → Resultado
resultado_por_cierre_confirmado smart_code true = record {
  status = "success";
  message = concat "Caso " (concat smart_code " ya se encuentra cerrado en la SFC (Estado 4).");
}
resultado_por_cierre_confirmado smart_code false = record {
  status = "noop";
  message = concat "La actualización de trámite para el caso " (
      concat smart_code
        " no se aplicó: la SFC reporta que el caso ya se encuentra cerrado (Estado 4).");
}

-- `es_caso_no_encontrado`, which is also true of the 404 that `s3_service.py` raises for a file.
abbrev pub es_caso_no_encontrado : SfcException → Bool
es_caso_no_encontrado exc = exc.status_code == 404 || str_eq exc.error_type "NOT_FOUND_ERROR"

-- `payload.admision_col__c != "No Aplica"`
abbrev pub differs : Option Json → Bool
differs (some (text s)) = not (str_eq s "No Aplica")
differs o = true

-- `tiene_campos_m3` of the orchestrator.
unfoldable pub con_campos_m3 : Payload → Bool
con_campos_m3 p =
    is_present (p "sc_genero__c")
    || (is_present (p "sc_LGBTIQ__c")
        || (is_present (p "sc_Condicion_especial__c")
            || (is_present (p "producto_digital__c") || differs (p "admision_col__c"))))

unfoldable pub es_m2_puro : Payload → Bool
es_m2_puro p = es_nueva p && (not (con_campos_m3 p) && (not (es_fraude p) && not (es_cierre p)))

abbrev pub is_empty : List String → Bool
is_empty [] = true
is_empty (x ∷ xs) = false

-- The error of a fraud without documents.
abbrev pub sin_documentos : SfcException
sin_documentos = record {
  status_code = 400;
  error_type = "CRM_PAYLOAD_VALIDATION_ERROR";
  sfc_field = some "archivos_s3";
  raw_message = "No se encontraron documentos de investigación de fraude (INV_FRAUDE_SFC) en S3.";
  crm_action =
      "Asegúrese de cargar los documentos de soporte de la investigación de fraude en S3 antes de enviar el caso.";
}

-- The error of `procesar_despacho_raw_json` for a payload of the queue that is not valid.
abbrev pub payload_invalido : String → SfcException
payload_invalido resumen = record {
  status_code = 500;
  error_type = "REDIS_PAYLOAD_INVALIDO";
  sfc_field = none;
  raw_message = concat "Estructura inválida en el payload rehidratado de Redis: " resumen;
  crm_action =
      "Contactar al equipo de infraestructura: un ítem de la cola quedó con datos corruptos/incompletos.";
}

-- `payload.Case_id or smart_code`
abbrev pub case_of : Queja → String
case_of q = elim q.case_id [
  | none ↦ q.smart_code
  | some c ↦ if str_eq c "" then q.smart_code else c
]

-- The copy that the recovery sends first.
abbrev pub sin_adjuntos : Queja → Queja
sin_adjuntos q = record q { archivos_s3 = []; directorio_s3 = none }

abbrev pub vacio : Resultado
vacio = record { status = ""; message = "" }

-- `responde` is what the services answer after the calls before, newest first; `lower` is
-- `str.lower`; `validar` is the schema, `none` with the summary of its errors.
module _ (lower : String → String) (responde : List Llamada → Llamada → Respuesta)
    (listar : String → String → Listado) where
  abbrev pub Traza : Type 0
  Traza = List Llamada

  abbrev pub llama : Llamada → Traza → Respuesta × Traza
  llama c h = (responde h c, c ∷ h)

  abbrev pub ya_cerrado : SfcException → Bool
  ya_cerrado exc = any_phrase frases_ya_cerrada (lower (exception_text exc))

  -- `_ejecutar_paso_o_exito_si_ya_cerrado`
  unfoldable pub exito_si_ya_cerrado : String → Bool → Respuesta × Traza → Respuesta × Traza
  exito_si_ya_cerrado smart_code cierre (rechazo exc, h) =
      if ya_cerrado exc
      then (resultado (resultado_por_cierre_confirmado smart_code cierre), h)
      else (rechazo exc, h)
  exito_si_ya_cerrado smart_code cierre (resultado r, h) = (resultado r, h)
  exito_si_ya_cerrado smart_code cierre (invalido m, h) = (invalido m, h)
  exito_si_ya_cerrado smart_code cierre (excepcion m, h) = (excepcion m, h)

  unfoldable pub paso_cierre : Queja → Traza → Respuesta × Traza
  paso_cierre q h = exito_si_ya_cerrado q.smart_code true (llama (cierre_definitivo q) h)

  unfoldable pub paso_tramite : Queja → Traza → Respuesta × Traza
  paso_tramite q h = exito_si_ya_cerrado q.smart_code false (llama (actualizacion_tramite q) h)

  -- What follows the step of a fraud; `cierre` is `es_cierre`.
  unfoldable pub tras_fraude : Queja → Bool → Respuesta × Traza → Respuesta × Traza
  tras_fraude q cierre (resultado r, h) =
      if str_eq r.status "error"
      then (resultado r, h)
      else if cierre
      then paso_cierre q h
      else (resultado r, h)
  tras_fraude q cierre (rechazo exc, h) =
      if cierre && ya_cerrado exc then paso_cierre q h else (rechazo exc, h)
  tras_fraude q cierre (invalido m, h) = (invalido m, h)
  tras_fraude q cierre (excepcion m, h) = (excepcion m, h)

  -- `_ejecutar_pasos_momento_3`
  unfoldable pub pasos_momento_3 : Queja → Bool → Bool → Traza → Respuesta × Traza
  pasos_momento_3 q fraude cierre h =
      if fraude
      then tras_fraude q cierre (llama (gestion_fraude q) h)
      else if cierre
      then paso_cierre q h
      else paso_tramite q h

  -- `limpiar_checkpoint_si_cierre_exitoso`
  unfoldable pub limpiar_si_cierre : String → Bool → Bool → Respuesta × Traza → Respuesta × Traza
  limpiar_si_cierre smart_code cierre limpiar (resultado r, h) =
      if limpiar && (cierre && str_eq r.status "success")
      then (resultado r, limpieza smart_code ∷ h)
      else (resultado r, h)
  limpiar_si_cierre smart_code cierre limpiar (rechazo exc, h) = (rechazo exc, h)
  limpiar_si_cierre smart_code cierre limpiar (invalido m, h) = (invalido m, h)
  limpiar_si_cierre smart_code cierre limpiar (excepcion m, h) = (excepcion m, h)

  -- The branch of Momento 3, in both places.
  unfoldable pub momento_3 : Queja → Bool → Traza → Respuesta × Traza
  momento_3 q limpiar h =
      limpiar_si_cierre q.smart_code (es_cierre q.fields) limpiar
        (pasos_momento_3 q (es_fraude q.fields) (es_cierre q.fields) h)

  -- What follows the Momento 2 of the recovery.
  unfoldable pub tras_creacion : Queja → Bool → Respuesta × Traza → Respuesta × Traza
  tras_creacion q limpiar (resultado r, h) =
      if str_eq r.status "success" then momento_3 q limpiar h else (resultado r, h)
  tras_creacion q limpiar (rechazo exc, h) = (rechazo exc, h)
  tras_creacion q limpiar (invalido m, h) = (invalido m, h)
  tras_creacion q limpiar (excepcion m, h) = (excepcion m, h)

  -- `except SfcIntegrationException`: the recovery of a case that the SFC does not have.
  unfoldable pub recuperar : Queja → Bool → Respuesta × Traza → Respuesta × Traza
  recuperar q limpiar (rechazo exc, h) =
      if es_caso_no_encontrado exc
      then tras_creacion q limpiar (llama (envio_m2 (sin_adjuntos q)) h)
      else (rechazo exc, h)
  recuperar q limpiar (resultado r, h) = (resultado r, h)
  recuperar q limpiar (invalido m, h) = (invalido m, h)
  recuperar q limpiar (excepcion m, h) = (excepcion m, h)

  -- The `try` block.
  unfoldable pub intento : Queja → Bool → Traza → Respuesta × Traza
  intento q limpiar h = if es_m2_puro q.fields then llama (envio_m2 q) h else momento_3 q limpiar h

  unfoldable pub despachar : Queja → Bool → Traza → Respuesta × Traza
  despachar q limpiar h =
      if es_fraude q.fields && is_empty q.archivos_s3
      then (rechazo sin_documentos, h)
      else recuperar q limpiar (intento q limpiar h)

  -- `payload.directorio_s3 and not payload.archivos_s3`: the directory to list.
  abbrev pub por_listar : Queja → Option String
  por_listar q = elim q.directorio_s3 [
    | none ↦ none
    | some d ↦ if not (str_eq d "") && is_empty q.archivos_s3 then some d else none
  ]

  abbrev pub con_listado : Queja → Bool → Traza → Listado → Respuesta × Traza
  con_listado q limpiar h (falla r) = (r, h)
  con_listado q limpiar h (listado archivos) =
      despachar (record q { archivos_s3 = archivos }) limpiar h

  unfoldable pub procesar_despacho : Queja → Bool → Traza → Respuesta × Traza
  procesar_despacho q limpiar h = elim (por_listar q) [
    | none ↦ despachar q limpiar h
    | some d ↦ con_listado q limpiar h (listar d (case_of q))
  ]

  abbrev pub sin_invalido : Respuesta × Traza → Respuesta × Traza
  sin_invalido (invalido resumen, h) = (rechazo (payload_invalido resumen), h)
  sin_invalido (r, h) = (r, h)

  unfoldable pub procesar_despacho_raw_json :
      (Payload → Queja ⊎ String) → Payload → Bool → Traza → Respuesta × Traza
  procesar_despacho_raw_json validar payload limpiar h = sin_invalido (elim (validar payload) [
    | inl q ↦ procesar_despacho q limpiar h
    | inr resumen ↦ (invalido resumen, h)
  ])
