-- ===== src/Momento2.antt =====
-- app/services/momento_2_sync.py: the creation of a complaint at the SFC, which tolerates that an
-- earlier try created it, and then its files. Python's `str.lower`, the mapper, the schema, the SFC
-- client and S3 are parameters by what they answer.
pub mod Delivered
mod Examples
use ms_integracion_smartsupe.Prelude.{
  String, Bool, true, false, ◌||◌, Option, none, some, List, [], ◌∷◌, str_eq, if◌then◌else◌,
}
use ms_integracion_smartsupe.Text.{codes}
use ms_integracion_smartsupe.Text.Search.{contains}
use ms_integracion_smartsupe.Errors.{SfcException}
use ms_integracion_smartsupe.Momento4.{is_nil}
use ms_integracion_smartsupe.Storage.{Key, Adjunto, Envio}

abbrev pub any_in : List String → Key → Bool
any_in [] msg = false
any_in (f ∷ fs) msg = contains (codes f) msg || any_in fs msg

abbrev pub frases_colision_funcional : List String
frases_colision_funcional =
    "mismo motivo" ∷ "mismo producto" ∷ "verifique el motivo" ∷ "already_exist" ∷ []

abbrev pub frases_ya_existe : List String
frases_ya_existe = "ya existe" ∷ "already exists" ∷ "registrado en la sfc" ∷ []

-- What a call gives: its result, `SfcIntegrationException`, pydantic's `ValidationError`, or
-- another exception.
pub data Desenlace (A : Type 0) : Type 0 where
  hecho : A → Desenlace A
  rechazo : SfcException → Desenlace A
  invalido : String → Desenlace A
  excepcion : String → Desenlace A

infixl 5 ◌>>=◌
abbrev pub ◌>>=◌ : {A B : Type 0} → Desenlace A → (A → Desenlace B) → Desenlace B
hecho a >>= f = f a
rechazo e >>= f = rechazo e
invalido e >>= f = invalido e
excepcion e >>= f = excepcion e

-- `_es_error_queja_ya_existe_m2`. The matrix of errors gives the type ALREADY_EXISTS to other errors
-- too.
module _ (lower : Key → Key) where
  unfoldable pub es_error_queja_ya_existe : SfcException → Bool
  es_error_queja_ya_existe exc =
      let msg = lower (codes exc.raw_message) in
      if str_eq exc.error_type "ALREADY_EXISTS"
      then true
      else if any_in frases_colision_funcional msg
      then false
      else any_in frases_ya_existe msg

  -- `_crear_queja_o_tolerar_duplicado`, after the post.
  unfoldable pub tolerar_duplicado : Desenlace (Unit {0}) → Desenlace (Unit {0})
  tolerar_duplicado (rechazo exc) = if es_error_queja_ya_existe exc then hecho tt else rechazo exc
  tolerar_duplicado d = d

-- What the method takes of the payload, `none` where a text is falsy.
pub record Peticion (P : Type 0) : Type 0 where
  pub crm : P
  pub smart_code : Option String
  pub case_id : Option String
  pub archivos_s3 : List Adjunto
  pub directorio_s3 : Option String

abbrev pub faltan_smart_code : SfcException
faltan_smart_code = record {
  status_code = 400;
  error_type = "CRM_PAYLOAD_VALIDATION_ERROR";
  sfc_field = some "Smart_Code__c";
  raw_message = "Falta el campo obligatorio 'Smart_Code__c' en el payload de la petición.";
  crm_action = "Verifique que el caso contenga un 'Smart_Code__c' válido antes de despachar.";
}

abbrev pub or_text : Option String → String → Option String
or_text none d = some d
or_text (some s) d = some s

-- The services: the mapper, the listing of S3, the schema, the post, and the batch of files.
pub record Servicios (P S V : Type 0) : Type 0 where
  pub mapear : P → Desenlace S
  pub listar : String → Option String → Desenlace (List Adjunto)
  pub validar : String → S → Desenlace V
  pub post_nueva_queja : V → Desenlace (Unit {0})
  pub transferir : String → List Adjunto → Option String → Desenlace (List Envio)

module _ {P S V : Type 0} (lower : Key → Key) (s : Servicios P S V) where
  -- The files: those of the payload, or else those of its folder.
  abbrev pub archivos_de : Peticion P → String → Option String → Desenlace (List Adjunto)
  archivos_de q smart_code none = hecho q.archivos_s3
  archivos_de q smart_code (some d) =
      if is_nil q.archivos_s3
      then s.listar d (or_text q.case_id smart_code)
      else hecho q.archivos_s3

  abbrev pub enviar_archivos : Peticion P → String → List Adjunto → Desenlace (List Envio)
  enviar_archivos q smart_code archivos =
      if is_nil archivos
      then hecho []
      else s.transferir smart_code archivos (or_text q.case_id smart_code)

  abbrev pub con_payload : Peticion P → String → List Adjunto → V → Desenlace (List Envio)
  con_payload q smart_code archivos payload =
      tolerar_duplicado lower (s.post_nueva_queja payload) >>= λ _.
      enviar_archivos q smart_code archivos

  abbrev pub con_archivos : Peticion P → String → S → List Adjunto → Desenlace (List Envio)
  con_archivos q smart_code crudo archivos =
      s.validar smart_code crudo >>= con_payload q smart_code archivos

  abbrev pub con_crudo : Peticion P → String → S → Desenlace (List Envio)
  con_crudo q smart_code crudo =
      archivos_de q smart_code q.directorio_s3 >>= con_archivos q smart_code crudo

  -- The `try` of `ejecutar_envio_momento_2`, which gives the results of the files. A step that
  -- fails ends it, and its exception is raised again.
  unfoldable pub enviar : Peticion P → String → Desenlace (List Envio)
  enviar q smart_code = s.mapear q.crm >>= con_crudo q smart_code

  abbrev pub con_codigo : Peticion P → Option String → Desenlace (List Envio)
  con_codigo q none = rechazo faltan_smart_code
  con_codigo q (some smart_code) = enviar q smart_code

  -- `ejecutar_envio_momento_2`
  unfoldable pub ejecutar_envio_momento_2 : Peticion P → Desenlace (List Envio)
  ejecutar_envio_momento_2 q = con_codigo q q.smart_code

-- Whether the developers are told. No exception has an `is_unmapped`, so the type decides.
unfoldable pub notifica_error_no_mapeado : {A : Type 0} → Desenlace A → Bool
notifica_error_no_mapeado (rechazo exc) = str_eq exc.error_type "UNKNOWN_SFC_ERROR"
notifica_error_no_mapeado _ = false
