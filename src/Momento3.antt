-- ===== src/Momento3.antt =====
-- app/services/momento_3_sync.py: the update of a case, the report of a fraud and the final closing,
-- whose answer goes to the SFC as a PDF before the case is closed. The mapper, the schema, the
-- PDF, the SFC client and S3 are parameters by what they answer; what is sent is recorded.
pub mod Closing
pub mod Defaults
mod Examples
use ms_integracion_smartsupe.Prelude.{
  ℕ, String, Bool, true, false, not, ◌&&◌, ◌||◌, Option, none, some, List, [], ◌∷◌, ◌++◌, str_eq,
  if◌then◌else◌,
}
use ms_integracion_smartsupe.Classification.{Json, null, text, other, Payload, is_present}
use ms_integracion_smartsupe.Errors.{SfcException}
use ms_integracion_smartsupe.Momento2.{Desenlace, hecho, rechazo, invalido, excepcion}
use ms_integracion_smartsupe.Momento4.{is_nil}
use ms_integracion_smartsupe.Storage.{Adjunto}

-- `payload[key] = value`
abbrev pub pon : String → Json → Payload → Payload
pon k v p = λ q. if str_eq q k then some v else p q

abbrev pub si : Json
si = other "True"

abbrev pub no_si : Json
no_si = other "False"

abbrev pub bool_json : Bool → Json
bool_json true = si
bool_json false = no_si

-- `not sfc_raw_payload.get(key)` of a text field
abbrev pub es_falsy : Option Json → Bool
es_falsy none = true
es_falsy (some null) = true
es_falsy (some (text s)) = str_eq s ""
es_falsy (some (other s)) = false

-- What the three operations pass to the pipeline: the closing, the suffix for the files, and
-- whether it goes on all of them.
pub record Operacion : Type 0 where
  pub generar_pdf_cierre : Bool
  pub afijo_regulatorio : Option String
  pub afijo_masivo : Bool

unfoldable pub actualizacion_tramite : Operacion
actualizacion_tramite = record {
  generar_pdf_cierre = false;
  afijo_regulatorio = none;
  afijo_masivo = false;
}

unfoldable pub gestion_fraude : Operacion
gestion_fraude = record {
  generar_pdf_cierre = false;
  afijo_regulatorio = some "INV_FRAUDE_SFC";
  afijo_masivo = true;
}

unfoldable pub cierre_definitivo : Operacion
cierre_definitivo = record {
  generar_pdf_cierre = true;
  afijo_regulatorio = some "RESP_FINAL_SFC";
  afijo_masivo = false;
}

-- `_extraer_datos_payload`, with `none` where a text is falsy.
pub record Peticion : Type 0 where
  pub crm : Payload
  pub smart_code : String
  pub archivos_s3 : List Adjunto
  pub cuerpo_respuesta_final : Option String

-- `fecha_cierre`, where the payload has none.
abbrev pub con_fecha : String → Payload → Payload
con_fecha ahora p = if es_falsy (p "fecha_cierre") then pon "fecha_cierre" (text ahora) p else p

-- `_aplicar_estado_inicial_sfc`
unfoldable pub estado_inicial : String → Bool → Payload → Payload
estado_inicial ahora cierre p =
    if cierre
    then con_fecha ahora (pon "documentacion_rta_final" no_si (pon "estado_cod" (other "4") p))
    else pon "aceptacion_queja" null (
        pon "a_favor_de" null (
          pon "documentacion_rta_final" no_si
            (pon "fecha_cierre" null (pon "estado_cod" (other "2") p))))

abbrev pub es_afijo_fraude : Option String → Bool
es_afijo_fraude none = false
es_afijo_fraude (some a) = str_eq a "INV_FRAUDE_SFC"

abbrev pub es_pipeline_fraude : Option String → Payload → Bool
es_pipeline_fraude afijo crm =
    es_afijo_fraude afijo
    || (is_present (crm "tipo_fraude__c") || is_present (crm "modalidad_fraude__c"))

abbrev pub sin_fraude : Payload → Payload
sin_fraude p =
    pon "monto_reconocido" null
      (pon "monto_reclamado" null (pon "modalidad_fraude" null (pon "tipo_fraude" null p)))

abbrev pub sfc_defaults : List (String × String)
sfc_defaults =
    ("condicion_especial", "98")
    ∷ ("queja_expres", "2")
    ∷ ("tutela", "2")
    ∷ ("ente_control", "99")
    ∷ ("producto_digital", "1")
    ∷ ("admision", "1")
    ∷ ("desistimiento_queja", "2")
    ∷ []

-- The loop over `sfc_defaults`.
unfoldable pub con_defaults : List (String × String) → Payload → Payload
con_defaults [] p = p
con_defaults ((campo, v) ∷ ds) p =
    con_defaults ds (if is_present (p campo) then p else pon campo (other v) p)

-- `_aplicar_defaults_finales_sfc`
unfoldable pub defaults_finales : Option String → Payload → Payload → Payload
defaults_finales afijo crm p =
    con_defaults sfc_defaults (if es_pipeline_fraude afijo crm then p else sin_fraude p)

-- What leaves the pipeline: the PDF's batch and the batch of the CRM's files, each with whether it
-- returned, and the update with the payload that the schema was given; it is sent without its
-- nulls.
pub data Salida : Type 0 where
  pdf_enviado : String → Bool → Salida
  lote_enviado : List Adjunto → Option String → Bool → Bool → Salida
  put : String → Payload → Salida

-- The services, each after what was sent before it.
pub record Servicios : Type 0 where
  pub mapear : Payload → Desenlace Payload
  pub pdf : List Salida → String → Desenlace (Unit {0})
  pub lote : List Salida → List Adjunto → Desenlace (Unit {0})
  pub validar : Payload → Desenlace (Unit {0})
  pub actualizar : List Salida → Payload → Desenlace (Unit {0})

abbrev pub es_hecho : Desenlace (Unit {0}) → Bool
es_hecho (hecho _) = true
es_hecho _ = false

-- A run: how it ended, and what was sent, the last first.
abbrev pub Corrida : Type 0
Corrida = Desenlace (Unit {0}) × List Salida

module _ (s : Servicios) (ahora : String) where
  -- A step, and the rest of the `try` where it did not raise.
  abbrev pub y_luego : Desenlace (Unit {0}) → List Salida → (List Salida → Corrida) → Corrida
  y_luego (hecho _) h resto = resto h
  y_luego (rechazo e) h resto = (rechazo e, h)
  y_luego (invalido e) h resto = (invalido e, h)
  y_luego (excepcion e) h resto = (excepcion e, h)

  -- The payload before the schema.
  unfoldable pub payload_final : Operacion → Peticion → Bool → Payload → Payload
  payload_final o q pdf p =
      let p1 = pon "codigo_queja" (text q.smart_code) p in
      let p2 = pon "anexo_queja" (bool_json (pdf || not (is_nil q.archivos_s3))) p1 in
      let p3 = pon "fecha_actualizacion" (text ahora) p2 in
      let p4 = if pdf then pon "documentacion_rta_final" si p3 else p3 in
      defaults_finales o.afijo_regulatorio q.crm p4

  unfoldable pub actualizar_queja : Operacion → Peticion → Bool → Payload → List Salida → Corrida
  actualizar_queja o q pdf p h =
      let final = payload_final o q pdf p in
      y_luego (s.validar final) h (λ h. (s.actualizar h final, put q.smart_code final ∷ h))

  unfoldable pub enviar_lote : Operacion → Peticion → Bool → Payload → List Salida → Corrida
  enviar_lote o q pdf p h =
      if is_nil q.archivos_s3
      then actualizar_queja o q pdf p h
      else y_luego (s.lote h q.archivos_s3)
          (lote_enviado q.archivos_s3 o.afijo_regulatorio o.afijo_masivo
              (es_hecho (s.lote h q.archivos_s3))
            ∷ h)
          (actualizar_queja o q pdf p)

  -- `if generar_pdf_cierre and cuerpo_correo`
  abbrev pub con_cuerpo : Operacion → Peticion → Payload → Option String → Corrida
  con_cuerpo o q p none = enviar_lote o q false p []
  con_cuerpo o q p (some cuerpo) =
      y_luego (s.pdf [] cuerpo) (pdf_enviado cuerpo (es_hecho (s.pdf [] cuerpo)) ∷ [])
        (enviar_lote o q true p)

  unfoldable pub enviar_pdf : Operacion → Peticion → Payload → Corrida
  enviar_pdf o q p =
      if o.generar_pdf_cierre
      then con_cuerpo o q p q.cuerpo_respuesta_final
      else enviar_lote o q false p []

  abbrev pub tras_mapeo : Operacion → Peticion → Desenlace Payload → Corrida
  tras_mapeo o q (hecho p) = enviar_pdf o q (estado_inicial ahora o.generar_pdf_cierre p)
  tras_mapeo o q (rechazo e) = (rechazo e, [])
  tras_mapeo o q (invalido e) = (invalido e, [])
  tras_mapeo o q (excepcion e) = (excepcion e, [])

  -- `_orquestar_pipeline_momento_3`
  unfoldable pub pipeline : Operacion → Peticion → Corrida
  pipeline o q = tras_mapeo o q (s.mapear q.crm)
