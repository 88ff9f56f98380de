-- ===== src/Sanitizer.antt =====
-- app/core/security/sanitizer.py: what the audit logs show of headers and of JSON bodies. A text is
-- its list of code points; Python's `str.lower` is a parameter, since its table of Unicode is not
-- here.
pub mod Masking
pub mod Nested
mod Examples
use ms_integracion_smartsupe.Prelude.{
  ℕ, zero, suc, ◌+◌, ◌-◌, String, Bool, true, false, ◌||◌, List, [], ◌∷◌, ◌++◌, map, length, leb,
  if◌then◌else◌,
}
use ms_integracion_smartsupe.Text.{codes, strip, same_text}

abbrev pub Texto : Type 0
Texto = List ℕ

mutual
  -- A JSON value; a number or a Boolean is a scalar by its text.
  pub data Valor : Type 0 where
    nulo : Valor
    texto : Texto → Valor
    escalar : Texto → Valor
    lista : Elementos → Valor
    objeto : Campos → Valor

  pub data Elementos : Type 0 where
    sin_elementos : Elementos
    elemento : Valor → Elementos → Elementos

  pub data Campos : Type 0 where
    sin_campos : Campos
    campo : Texto → Valor → Campos → Campos

abbrev pub member : Texto → List String → Bool
member k [] = false
member k (s ∷ ss) = same_text k (codes s) || member k ss

-- `CAMPOS_LOGGEABLES`
unfoldable pub campos_loggeables : List String
campos_loggeables =
    "case_id" ∷ "smart_code__c" ∷ "smart_code" ∷ "codigo_queja" ∷ "correlation_id"
    ∷ "tipo_operacion" ∷ "operation" ∷ "registro_id" ∷ "queue_item_id" ∷ "worker_id" ∷ "event_id"
    ∷ "id" ∷ "source" ∷ "status_code" ∷ "error_type" ∷ "sfc_field" ∷ "status" ∷ "estado"
    ∷ "estado_cod" ∷ "canal__c" ∷ "punto_recepcion" ∷ "instancia_de_recepcion__c" ∷ "product__c"
    ∷ "smart_producto_nombre__c" ∷ "categorias_col__c" ∷ "tutela__c" ∷ "ente_de_control__c"
    ∷ "admision_col__c" ∷ "sc_id_type__c" ∷ "sc_genero__c" ∷ "tipo_de_persona__c" ∷ "sc_lgbtiq__c"
    ∷ "sc_condicion_especial__c" ∷ "smart_escalamiento_dcf__c" ∷ "smart_anexo_queja__c"
    ∷ "quejas_express__c" ∷ "producto_digital__c" ∷ "departamento__c" ∷ "sc_municipio__c"
    ∷ "codigo_pais__c" ∷ "tipo_fraude__c" ∷ "modalidad_fraude__c" ∷ "favorabilidad__c"
    ∷ "aceptacion__c" ∷ "rectificacion__c" ∷ "prorroga__c" ∷ "a_favor_de__c"
    ∷ "desistimiento_queja__c" ∷ "marcacion__c" ∷ "card_amount__c"
    ∷ "total_devuelto_por_desconocimiento__c" ∷ "createddate" ∷ "closeddate" ∷ "lastmodifieddate"
    ∷ "fecha_creacion" ∷ "fecha_cierre" ∷ "fecha_actualizacion" ∷ "created_at" ∷ "updated_at"
    ∷ "completed_at" ∷ "archivos_s3" ∷ "s3_key" ∷ "nombre_archivo" ∷ "bucket"
    ∷ "nombre_archivo_fraude" ∷ "directorio_s3" ∷ []

-- `IGNORED_LOG_HEADERS` and `SENSITIVE_HEADERS`
unfoldable pub ignored_log_headers : List String
ignored_log_headers =
    "host" ∷ "accept" ∷ "accept-encoding" ∷ "connection" ∷ "user-agent" ∷ "content-length" ∷ "via"
    ∷ "server" ∷ "alt-svc" ∷ "referrer-policy" ∷ "x-content-type-options" ∷ "x-frame-options"
    ∷ "permissions-policy" ∷ "content-security-policy" ∷ []

unfoldable pub sensitive_headers : List String
sensitive_headers = "authorization" ∷ "x-sfc-signature" ∷ "x-api-key" ∷ "cookie" ∷ "set-cookie" ∷ []

abbrev pub asterisco : ℕ
asterisco = 42

-- `s[:n]` and `s[len(s) - n:]`
abbrev pub take : ℕ → Texto → Texto
take zero s = []
take (suc n) [] = []
take (suc n) (c ∷ s) = c ∷ take n s

abbrev pub drop : ℕ → Texto → Texto
drop zero s = s
drop (suc n) [] = []
drop (suc n) (c ∷ s) = drop n s

-- `"*" * len(s)`
abbrev pub asteriscos : Texto → Texto
asteriscos [] = []
asteriscos (c ∷ s) = asterisco ∷ asteriscos s

abbrev pub tres_asteriscos : Texto
tres_asteriscos = asterisco ∷ asterisco ∷ asterisco ∷ []

abbrev pub mask_clean : ℕ → Texto → Texto
mask_clean visibles s =
    if leb (length s) (visibles + visibles)
    then asteriscos s
    else take visibles s ++ (tres_asteriscos ++ drop (length s - visibles) s)

-- `mask_value` of a text
unfoldable pub mask_value : ℕ → Texto → Texto
mask_value visibles [] = tres_asteriscos
mask_value visibles (c ∷ s) = mask_clean visibles (strip (c ∷ s))

-- `REDACTED_PLACEHOLDER`
abbrev pub redacted : Valor
redacted = texto (codes "[REDACTED]")

module _ (lower : Texto → Texto) where
  -- `sanitizar_headers`
  abbrev pub con_header : Texto → Texto → List (Texto × Texto) → List (Texto × Texto)
  con_header k v hs =
      if member (lower k) ignored_log_headers
      then hs
      else if member (lower k) sensitive_headers
      then (k, mask_value 4 v) ∷ hs
      else (k, v) ∷ hs

  unfoldable pub sanitizar_headers : List (Texto × Texto) → List (Texto × Texto)
  sanitizar_headers [] = []
  sanitizar_headers ((k, v) ∷ hs) = con_header k v (sanitizar_headers hs)

  unfoldable pub loggeable : Texto → Bool
  loggeable k = member (lower k) campos_loggeables

  -- A field whose value is no container.
  abbrev pub enmascarado : Bool → Valor → Valor
  enmascarado true v = v
  enmascarado false (texto s) = texto (mask_value 2 s)
  enmascarado false nulo = nulo
  enmascarado false v = redacted

  unfoldable mutual
    -- `sanitizar_payload`
    pub sanitizar_payload : Valor → Valor
    sanitizar_payload (objeto cs) = objeto (sanitizar_campos cs)
    sanitizar_payload (lista es) = lista (sanitizar_elementos es)
    sanitizar_payload nulo = nulo
    sanitizar_payload (texto s) = texto s
    sanitizar_payload (escalar s) = escalar s

    pub sanitizar_elementos : Elementos → Elementos
    sanitizar_elementos sin_elementos = sin_elementos
    sanitizar_elementos (elemento v es) = elemento (sanitizar_payload v) (sanitizar_elementos es)

    pub sanitizar_campos : Campos → Campos
    sanitizar_campos sin_campos = sin_campos
    sanitizar_campos (campo k v cs) = campo k (sanitizar_campo k v) (sanitizar_campos cs)

    -- The branches for one field of a dict.
    pub sanitizar_campo : Texto → Valor → Valor
    sanitizar_campo k (objeto cs) = objeto (sanitizar_campos cs)
    sanitizar_campo k (lista es) = lista (sanitizar_elementos es)
    sanitizar_campo k nulo = enmascarado (loggeable k) nulo
    sanitizar_campo k (texto s) = enmascarado (loggeable k) (texto s)
    sanitizar_campo k (escalar s) = enmascarado (loggeable k) (escalar s)
