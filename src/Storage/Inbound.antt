-- ===== src/Storage/Inbound.antt =====
-- app/services/s3_service.py, from the SFC to S3: which host a file may come from, how much of it
-- is read, what its content must be, and the batch of a complaint. A byte is a number. The host of
-- a URL (`urlparse`), `str.lower`, the HTTP client and the upload of S3 are parameters.
pub mod Checks
pub mod Safe
mod Examples
use ms_integracion_smartsupe.Prelude.{
  ℕ, zero, suc, ◌+◌, ◌*◌, ◌-◌, String, Bool, true, false, not, ◌&&◌, ◌||◌, Option, none, some, List,
  [], ◌∷◌, ◌++◌, length, leb, ltb, ◌==◌, str_eq, if◌then◌else◌,
}
use ms_integracion_smartsupe.Text.{codes, strip, same_text}
use ms_integracion_smartsupe.Text.Search.{after_prefix, is_some}
use ms_integracion_smartsupe.Momento4.{is_nil}
use ms_integracion_smartsupe.Sanitizer.{take}
use ms_integracion_smartsupe.Storage.{Key, slash, limpiar_key}
use ms_integracion_smartsupe.Storage.FileType.{punto, tras_punto, tiene, normalizar_tipo_archivo}

abbrev pub Bytes : Type 0
Bytes = List ℕ

-- `host.endswith(d)`, and `host == d or host.endswith("." + d)`
abbrev pub endswith : Key → Key → Bool
endswith [] d = is_nil d
endswith (c ∷ cs) d = same_text (c ∷ cs) d || endswith cs d

abbrev pub en_dominio : Key → Key → Bool
en_dominio h d = same_text h d || endswith h (punto ∷ d)

abbrev pub allowed_domains : List String
allowed_domains = "superfinanciera.gov.co" ∷ "storage.googleapis.com" ∷ []

abbrev pub en_alguno : Key → List String → Bool
en_alguno h [] = false
en_alguno h (d ∷ ds) = en_dominio h (codes d) || en_alguno h ds

abbrev pub es_uno_de : Key → List String → Bool
es_uno_de h [] = false
es_uno_de h (d ∷ ds) = same_text h (codes d) || es_uno_de h ds

abbrev pub hosts_locales : List String
hosts_locales = "localhost" ∷ "127.0.0.1" ∷ "minio" ∷ "mock-sfc" ∷ "unscanned" ∷ []

-- `self.is_local or settings.ENVIRONMENT in ("local", "development", "qa")`
abbrev pub admite_locales : Bool → String → Bool
admite_locales is_local entorno =
    is_local || (str_eq entorno "local" || (str_eq entorno "development" || str_eq entorno "qa"))

-- The tests on a host in lower case; `base` is the host of `SFC_URL_BASE`, in lower case.
abbrev pub host_permitido : Key → Bool → Key → Bool
host_permitido base locales h =
    not (is_nil h)
    && ((not (is_nil base) && en_dominio h base)
        || (en_alguno h allowed_domains || (locales && es_uno_de h hosts_locales)))

-- What the stream gives: its end, an exception, or a chunk.
pub data Flujo : Type 0 where
  fin : Flujo
  corte : Flujo
  trozo : Bytes → Flujo → Flujo

-- What the request gives: an exception or an error status, or the length that it declares, where
-- that is digits, and the stream.
pub data Descarga : Type 0 where
  sin_respuesta : Descarga
  respuesta : Option ℕ → Flujo → Descarga

-- A step: a result, `SfcIntegrationException` with its type, or another exception.
pub data Paso (A : Type 0) : Type 0 where
  listo : A → Paso A
  rechazado : String → Paso A
  roto : Paso A

abbrev pub max_bytes : ℕ
max_bytes = 30 * (1024 * 1024)

abbrev pub antepuesto : Bytes → Paso Bytes → Paso Bytes
antepuesto t (listo b) = listo (t ++ b)
antepuesto t p = p

-- The loop of `_descargar_adjunto_streaming`, with what was read before.
unfoldable pub recorrer : ℕ → Flujo → Paso Bytes
recorrer n fin = listo []
recorrer n corte = roto
recorrer n (trozo t f) =
    let resto = recorrer (n + length t) f in
    if ltb max_bytes (n + length t) then rechazado "FILE_SIZE_EXCEEDED" else antepuesto t resto

abbrev pub declara_mas : Option ℕ → Bool
declara_mas none = false
declara_mas (some n) = ltb max_bytes n

-- `_descargar_adjunto_streaming`
unfoldable pub descargar_streaming : Descarga → Paso Bytes
descargar_streaming sin_respuesta = roto
descargar_streaming (respuesta n f) =
    if declara_mas n then rechazado "FILE_SIZE_EXCEEDED" else recorrer 0 f

abbrev pub magic_headers : List (String × Bytes)
magic_headers =
    ("pdf", codes "%PDF-")
    ∷ ("png", 137 ∷ 80 ∷ 78 ∷ 71 ∷ 13 ∷ 10 ∷ 26 ∷ 10 ∷ [])
    ∷ ("jpg", 255 ∷ 216 ∷ 255 ∷ [])
    ∷ ("jpeg", 255 ∷ 216 ∷ 255 ∷ [])
    ∷ ("zip", 80 ∷ 75 ∷ 3 ∷ 4 ∷ [])
    ∷ []

abbrev pub firma_de : Key → List (String × Bytes) → Option Bytes
firma_de ext [] = none
firma_de ext ((e, b) ∷ ms) = if same_text ext (codes e) then some b else firma_de ext ms

abbrev pub empieza_con : Option Bytes → Bytes → Bool
empieza_con none header = true
empieza_con (some firma) header = is_some (after_prefix firma header)

module _ (lower : Key → Key) where
  unfoldable pub extension_de : Key → Key
  extension_de nombre = if tiene punto nombre then strip (lower (tras_punto [] nombre)) else []

  -- `validar_integridad_archivo` of a stream; `none` is no exception.
  unfoldable pub validar_integridad : Bytes → Key → Option String
  validar_integridad [] nombre = some "FILE_EMPTY_ERROR"
  validar_integridad (b ∷ bs) nombre =
      if empieza_con (firma_de (extension_de nombre) magic_headers) (take 1024 (b ∷ bs))
      then none
      else some "CORRUPTED_OR_INVALID_FILE"

-- A file of the SFC: its URL and its id, `none` where they are falsy, and its type, empty where it
-- is falsy.
pub record AdjuntoSfc : Type 0 where
  pub url : Option Key
  pub id : Option Key
  pub raw_type : Key

pub record Archivo : Type 0 where
  pub nombre_archivo : Key
  pub s3_key : Key

-- A call of S3: the URL it comes from, the key and the bytes, and whether it returned.
pub record Subida : Type 0 where
  pub url : Key
  pub archivo : Archivo
  pub clave : Key
  pub contenido : Bytes
  pub guardado : Bool

abbrev pub Proceso : Type 0
Proceso = List Archivo × List Subida

module _ (lower : Key → Key) (hostname : Key → Option Key) (base : Key) (is_local : Bool)
    (entorno : String) (pedir : Key → Descarga) (upload : Key → Bytes → Key → Bool)
    (codigo_queja : Key) where
  abbrev pub con_hostname : Option Key → Bool
  con_hostname none = false
  con_hostname (some h) = host_permitido base (admite_locales is_local entorno) (lower h)

  -- `_es_host_permitido_sfc`; an exception of `urlparse` is `none`.
  unfoldable pub es_host_permitido : Key → Bool
  es_host_permitido url = con_hostname (hostname url)

  abbrev pub url_o_vacia : Option Key → Key
  url_o_vacia none = []
  url_o_vacia (some u) = u

  abbrev pub tipo_of : AdjuntoSfc → Key × Key
  tipo_of a = normalizar_tipo_archivo lower a.raw_type (url_o_vacia a.url)

  abbrev pub filename_of : Key → Option Key → Key
  filename_of ext none = codes "adjunto_" ++ (codigo_queja ++ (punto ∷ ext))
  filename_of ext (some i) = i ++ (punto ∷ ext)

  abbrev pub archivo_of : AdjuntoSfc → Archivo
  archivo_of a =
      let nombre = filename_of (tipo_of a).0 a.id in
      record {
        nombre_archivo = nombre;
        s3_key = codes "quejas/" ++ (codigo_queja ++ (slash ∷ nombre));
      }

  -- `subir_stream_archivo`: a failure is an exception that leaves the file out.
  unfoldable pub subir_stream : AdjuntoSfc → Key → Bytes → Proceso
  subir_stream a url b =
      let clave = limpiar_key (archivo_of a).s3_key in
      let guardado = upload clave b (tipo_of a).1 in
      (
        if guardado then archivo_of a ∷ [] else [],
        record {
          url = url;
          archivo = archivo_of a;
          clave = clave;
          contenido = b;
          guardado = guardado;
        }
            ∷ [],
      )

  abbrev pub tras_integridad : AdjuntoSfc → Key → Bytes → Option String → Proceso
  tras_integridad a url b (some e) = ([], [])
  tras_integridad a url b none = subir_stream a url b

  -- Another exception counts as done in a local run.
  abbrev pub tras_descarga : AdjuntoSfc → Key → Paso Bytes → Proceso
  tras_descarga a url (rechazado e) = ([], [])
  tras_descarga a url roto = (if is_local then archivo_of a ∷ [] else [], [])
  tras_descarga a url (listo b) =
      tras_integridad a url b (validar_integridad lower b (archivo_of a).nombre_archivo)

  abbrev pub con_url : AdjuntoSfc → Option Key → Proceso
  con_url a none = ([], [])
  con_url a (some url) =
      if es_host_permitido url
      then tras_descarga a url (descargar_streaming (pedir url))
      else ([], [])

  -- `_procesar_adjunto_sfc_a_s3`
  unfoldable pub procesar_adjunto : AdjuntoSfc → Proceso
  procesar_adjunto a = con_url a a.url

  -- `transferir_lote_sfc_a_s3`: the results in their order, without the exceptions.
  unfoldable pub transferir_lote_sfc : List AdjuntoSfc → Proceso
  transferir_lote_sfc [] = ([], [])
  transferir_lote_sfc (a ∷ resto) =
      let (archivos, subidas) = transferir_lote_sfc resto in
      ((procesar_adjunto a).0 ++ archivos, (procesar_adjunto a).1 ++ subidas)
