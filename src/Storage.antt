-- ===== src/Storage.antt =====
-- app/services/s3_service.py, with an S3 client: the keys of a case's files, the listing of its
-- folder, and the batch that goes from S3 to the SFC with a checkpoint per file. A key is its list
-- of code points.
pub mod Ownership
pub mod Retry
pub mod Listing
pub mod FileType
pub mod Inbound
mod Examples
use ms_integracion_smartsupe.Prelude.{
  ℕ, Bool, true, false, not, ◌&&◌, Option, none, some, List, [], ◌∷◌, ◌++◌, length, ltb, ◌==◌,
  if◌then◌else◌,
}
use ms_integracion_smartsupe.Text.{strip, same_text}
use ms_integracion_smartsupe.Momento4.{member, is_nil}

abbrev pub Key : Type 0
Key = List ℕ

abbrev pub slash : ℕ
slash = 47

-- `str.lstrip("/")`
abbrev pub sin_barras : Key → Key
sin_barras [] = []
sin_barras (c ∷ cs) = if c == slash then sin_barras cs else c ∷ cs

-- `_limpiar_key`
unfoldable pub limpiar_key : Key → Key
limpiar_key k = sin_barras (strip k)

-- A segment before the others, where it is not empty.
abbrev pub cerrar : Key → List Key → List Key
cerrar [] segs = segs
cerrar (c ∷ cs) segs = (c ∷ cs) ∷ segs

-- `[seg for seg in key.split("/") if seg]`, the segment so far first.
abbrev pub segmentos_desde : Key → Key → List Key
segmentos_desde acc [] = cerrar acc []
segmentos_desde acc (c ∷ cs) =
    if c == slash then cerrar acc (segmentos_desde [] cs) else segmentos_desde (acc ++ (c ∷ [])) cs

abbrev pub penultimo : List Key → Option Key
penultimo [] = none
penultimo (x ∷ []) = none
penultimo (x ∷ y ∷ []) = some x
penultimo (x ∷ y ∷ z ∷ r) = penultimo (y ∷ z ∷ r)

abbrev pub ultimo : List Key → Option Key
ultimo [] = none
ultimo (x ∷ []) = some x
ultimo (x ∷ y ∷ r) = ultimo (y ∷ r)

abbrev pub es_caso : Option Key → Key → Bool
es_caso none d = false
es_caso (some c) d = same_text c d

-- Whether `_validar_ownership_key` lets a key of a file pass.
unfoldable pub validar_ownership_key : Key → Option Key → Bool
validar_ownership_key k none = true
validar_ownership_key k (some []) = true
validar_ownership_key k (some (d ∷ ds)) = es_caso (penultimo (segmentos_desde [] k)) (d ∷ ds)

-- Whether `_validar_prefijo_pertenece_al_caso` lets a folder pass.
unfoldable pub validar_prefijo : Key → Option Key → Bool
validar_prefijo k none = true
validar_prefijo k (some []) = true
validar_prefijo k (some (d ∷ ds)) = es_caso (ultimo (segmentos_desde [] k)) (d ∷ ds)

-- `MAX_ARCHIVOS_DIRECTORIO_S3`
abbrev pub max_archivos : ℕ
max_archivos = 50

abbrev pub termina_en_barra : Key → Bool
termina_en_barra [] = false
termina_en_barra (c ∷ []) = c == slash
termina_en_barra (c ∷ d ∷ r) = termina_en_barra (d ∷ r)

-- The objects of the pages in order, with the keys so far; `none` is the exception of
-- `_verificar_cap_directorio`.
unfoldable pub listar_objetos : List Key → List Key → Option (List Key)
listar_objetos [] archivos = some archivos
listar_objetos (k ∷ ks) archivos =
    if termina_en_barra k
    then listar_objetos ks archivos
    else if ltb (length archivos) max_archivos
    then listar_objetos ks (archivos ++ (k ∷ []))
    else none

-- What S3 answers to a listing.
pub data Listado : Type 0 where
  objetos : List Key → Listado
  no_existe : Listado
  sin_acceso : Listado

abbrev pub con_listado : Listado → Option (List Key)
con_listado (objetos ks) = listar_objetos ks []
con_listado no_existe = some []
con_listado sin_acceso = none

abbrev pub con_barra : Key → Key
con_barra k = if termina_en_barra k then k else k ++ (slash ∷ [])

-- `listar_archivos_en_directorio`; `listar` is the paginator with its prefix.
unfoldable pub listar_archivos_en_directorio :
    (Key → Listado) → Key → Option Key → Option (List Key)
listar_archivos_en_directorio listar prefix caso =
    if is_nil (limpiar_key prefix)
    then none
    else if validar_prefijo (limpiar_key prefix) caso
    then con_listado (listar (con_barra (limpiar_key prefix)))
    else none

-- A file to send: `s3_key` and `nombre_archivo`, `none` where falsy, and the sixteen digits of the
-- SHA-256 of its bytes where it carries them.
pub record Adjunto : Type 0 where
  pub s3_key : Option Key
  pub nombre_archivo : Option Key
  pub contenido_hash : Option Key

-- `key.split("/")[-1]`
abbrev pub tras_barra : Key → Key → Key
tras_barra acc [] = acc
tras_barra acc (c ∷ cs) = if c == slash then tras_barra [] cs else tras_barra (acc ++ (c ∷ [])) cs

abbrev pub no_vacio : Key → Option Key
no_vacio [] = none
no_vacio (c ∷ cs) = some (c ∷ cs)

-- The name in `_resolver_identidad_adjunto`.
unfoldable pub original_name : Adjunto → Option Key
original_name a = elim a.nombre_archivo [
  | some n ↦ some n
  | none ↦ elim a.s3_key [ none ↦ none | some k ↦ no_vacio (tras_barra [] k) ]
]

abbrev pub con_hash : Key → Option Key → Key
con_hash base none = base
con_hash base (some h) = base ++ (58 ∷ h)

-- `identificador_archivo`, of a file with this name.
unfoldable pub identificador_archivo : Adjunto → Key → Key
identificador_archivo a nombre =
    con_hash (elim a.s3_key [ none ↦ nombre | some k ↦ k ]) a.contenido_hash

-- How the reading of a file and its post end: accepted, `DUPLICATE_FILE`, or an exception.
pub data Respuesta : Type 0 where
  aceptado : Respuesta
  duplicado : Respuesta
  excepcion : Respuesta

-- How `_procesar_envio_s3_a_sfc` ends for a file; `sin_identidad` is its `None`.
pub data Envio : Type 0 where
  sin_identidad : Envio
  already_confirmed : Envio
  enviado : Key → Envio
  duplicate_omitted : Key → Envio
  fallido : Envio

abbrev pub tras_respuesta : Key → Respuesta → Envio
tras_respuesta i aceptado = enviado i
tras_respuesta i duplicado = duplicate_omitted i
tras_respuesta i excepcion = fallido

abbrev pub con_identidad : List Key → Key → Respuesta → Envio
con_identidad completados i r =
    if member i completados then already_confirmed else tras_respuesta i r

abbrev pub con_nombre : List Key → Adjunto → Respuesta → Option Key → Envio
con_nombre completados a r none = sin_identidad
con_nombre completados a r (some n) = con_identidad completados (identificador_archivo a n) r

module _ (responder : Adjunto → Respuesta) where
  unfoldable pub procesar_envio : List Key → Adjunto → Envio
  procesar_envio completados a = con_nombre completados a (responder a) (original_name a)

  unfoldable pub enviar_todos : List Key → List Adjunto → List Envio
  enviar_todos completados [] = []
  enviar_todos completados (a ∷ resto) =
      procesar_envio completados a ∷ enviar_todos completados resto

abbrev pub add_envio : Envio → Option (List Envio) → Option (List Envio)
add_envio e none = none
add_envio e (some es) = some (e ∷ es)

-- The results that `transferir_lote_s3_a_sfc` keeps; `none` is the first exception raised again.
unfoldable pub reunir : List Envio → Option (List Envio)
reunir [] = some []
reunir (sin_identidad ∷ es) = reunir es
reunir (fallido ∷ es) = none
reunir (already_confirmed ∷ es) = add_envio already_confirmed (reunir es)
reunir (enviado i ∷ es) = add_envio (enviado i) (reunir es)
reunir (duplicate_omitted i ∷ es) = add_envio (duplicate_omitted i) (reunir es)

-- `marcar_archivo_completado` of a result, with whether Redis stores it.
abbrev pub marcar : (Key → Bool) → Envio → List Key → List Key
marcar guarda (enviado i) c = if guarda i then i ∷ c else c
marcar guarda (duplicate_omitted i) c = if guarda i then i ∷ c else c
marcar guarda _ c = c

unfoldable pub marcar_todos : (Key → Bool) → List Envio → List Key → List Key
marcar_todos guarda [] c = c
marcar_todos guarda (e ∷ es) c = marcar guarda e (marcar_todos guarda es c)

-- `transferir_lote_s3_a_sfc`: its result and the checkpoints of the case after it. `leido` is what
-- `obtener_archivos_completados` reads.
unfoldable pub transferir_lote :
    (Adjunto → Respuesta)
    → (Key → Bool)
    → List Key
    → List Key
    → List Adjunto
    → Option (List Envio) × List Key
transferir_lote responder guarda leido c adjuntos = (
  reunir (enviar_todos responder leido adjuntos),
  marcar_todos guarda (enviar_todos responder leido adjuntos) c,
)
