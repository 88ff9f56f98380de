-- ===== src/Momento2/Examples.antt =====
-- A complaint that the SFC has already, with one file, and an instance of the theorem about it.
use ms_integracion_smartsupe.Prelude.{◌≡◌, refl, String, true, false, none, some, List, [], ◌∷◌}
use ms_integracion_smartsupe.Text.{codes}
use ms_integracion_smartsupe.Text.Search.{contains, after_prefix}
use ms_integracion_smartsupe.Errors.{SfcException}
use ms_integracion_smartsupe.Storage.{
  Key, Adjunto, Envio, aceptado, enviado, Respuesta, enviar_todos, reunir, procesar_envio,
  original_name, identificador_archivo,
}
use ms_integracion_smartsupe.Momento2.{
  Desenlace, hecho, rechazo, excepcion, es_error_queja_ya_existe, tolerar_duplicado, Peticion,
  Servicios, enviar, ejecutar_envio_momento_2,
}
use ms_integracion_smartsupe.Momento2.Delivered.{de_lote, HasCase, envio_delivers}

abbrev same : Key → Key
same s = s

abbrev rejection : String → String → SfcException
rejection kind message = record {
  status_code = 400;
  error_type = kind;
  sfc_field = none;
  raw_message = message;
  crm_action = "";
}

-- The type decides before the phrases, and another complaint of the same product is no success.
typed : es_error_queja_ya_existe same (rejection "ALREADY_EXISTS" "already_exist") ≡ true
unfolding es_error_queja_ya_existe
typed = refl

collision :
    es_error_queja_ya_existe same (rejection "OTHER" "ya existe una con el mismo producto") ≡ false
unfolding es_error_queja_ya_existe contains after_prefix
collision = refl

abbrev letter : Adjunto
letter = record {
  s3_key = some (codes "caso/500/a.pdf");
  nombre_archivo = none;
  contenido_hash = none;
}

abbrev accepts : Adjunto → Respuesta
accepts a = aceptado

abbrev failure : Desenlace (List Envio)
failure = excepcion "S3"

abbrev services : Servicios String String String
services = record {
  mapear = λ p. hecho p;
  listar = λ d k. hecho [];
  validar = λ c s. hecho s;
  post_nueva_queja = λ v. rechazo (rejection "ALREADY_EXISTS" "");
  transferir = λ c adjuntos k. de_lote failure (reunir (enviar_todos accepts [] adjuntos));
}

abbrev complaint : Peticion String
complaint = record {
  crm = "{}";
  smart_code = some "1286";
  case_id = none;
  archivos_s3 = letter ∷ [];
  directorio_s3 = none;
}

envio_delivers_example :
    (code : String) × (complaint.smart_code ≡ some code)
    × HasCase same services accepts [] complaint code
unfolding ejecutar_envio_momento_2 enviar tolerar_duplicado es_error_queja_ya_existe reunir
    enviar_todos procesar_envio original_name identificador_archivo
envio_delivers_example =
    envio_delivers same services accepts [] failure (λ xs e. cc) (λ c adjuntos k. refl) complaint
      (enviado (codes "caso/500/a.pdf") ∷ []) refl
