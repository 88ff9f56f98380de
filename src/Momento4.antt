-- ===== src/Momento4.antt =====
-- app/services/momento_4_sync.py: the users that the SFC has changed, page by page, and the
-- acknowledgement of those that the CRM has stored. An id is its list of code points.
pub mod Batches
pub mod Pages
mod Examples
use ms_integracion_smartsupe.Prelude.{
  ℕ, zero, suc, ◌+◌, String, Bool, true, false, not, ◌&&◌, ◌||◌, Option, none, some, List, [], ◌∷◌,
  ◌++◌, map, length, str_eq, if◌then◌else◌,
}
use ms_integracion_smartsupe.Text.{codes, strip, same_text}

abbrev pub ItemId : Type 0
ItemId = List ℕ

abbrev pub member : ItemId → List ItemId → Bool
member x [] = false
member x (y ∷ ys) = same_text x y || member x ys

abbrev pub is_nil {ℓ} : {A : Type ℓ} → List A → Bool
is_nil [] = true
is_nil (x ∷ xs) = false

-- `str(x).strip() for x in numeros_id_cf if str(x).strip()`
unfoldable pub limpios : List ItemId → List ItemId
limpios [] = []
limpios (x ∷ xs) = if is_nil (strip x) then limpios xs else strip x ∷ limpios xs

-- `dict.fromkeys`: the first of each, in order.
unfoldable pub sin_repetir : List ItemId → List ItemId → List ItemId
sin_repetir vistos [] = []
sin_repetir vistos (x ∷ xs) =
    if member x vistos then sin_repetir vistos xs else x ∷ sin_repetir (x ∷ vistos) xs

abbrev pub ids_unicos : List ItemId → List ItemId
ids_unicos xs = sin_repetir [] (limpios xs)

-- `TAMANO_LOTE`
abbrev pub tamano_lote : ℕ
tamano_lote = 100

abbrev pub take_n {ℓ} : {A : Type ℓ} → ℕ → List A → List A
take_n zero xs = []
take_n (suc n) [] = []
take_n (suc n) (x ∷ xs) = x ∷ take_n n xs

abbrev pub drop_n {ℓ} : {A : Type ℓ} → ℕ → List A → List A
drop_n zero xs = xs
drop_n (suc n) [] = []
drop_n (suc n) (x ∷ xs) = drop_n n xs

-- The slices of `range(0, len(ids_unicos), TAMANO_LOTE)`; each takes one id at least, so the
-- length is fuel enough.
unfoldable pub cortar : ℕ → List ItemId → List (List ItemId)
cortar zero xs = []
cortar (suc n) [] = []
cortar (suc n) (x ∷ xs) = take_n tamano_lote (x ∷ xs) ∷ cortar n (drop_n tamano_lote (x ∷ xs))

abbrev pub lotes : List ItemId → List (List ItemId)
lotes xs = cortar (length xs) xs

-- The ids that went through and those with an error.
unfoldable pub repartir :
    List ItemId → List ItemId → List ItemId × List ItemId → List ItemId × List ItemId
repartir errores [] acc = acc
repartir errores (u ∷ us) (exitosos, con_error) =
    if member (strip u) errores
    then repartir errores us (exitosos, con_error ++ (strip u ∷ []))
    else repartir errores us (exitosos ++ (strip u ∷ []), con_error)

-- `none` is an exception: the whole batch counts as an error.
abbrev pub con_lote :
    Option (List ItemId) → List ItemId → List ItemId × List ItemId → List ItemId × List ItemId
con_lote none lote (exitosos, con_error) = (exitosos, con_error ++ map strip lote)
con_lote (some errores) lote acc = repartir (map strip errores) lote acc

abbrev pub status_of : Bool → Bool → String
status_of sin_errores sin_exitos =
    if sin_errores then "success" else if sin_exitos then "error" else "partial"

-- The answer of the acknowledgement; `confirmados` is the number of `ids_procesados`.
pub record Ack : Type 0 where
  pub status : String
  pub ids_procesados : List ItemId
  pub ids_error : List ItemId

abbrev pub warning : Ack
warning = record { status = "warning"; ids_procesados = []; ids_error = [] }

abbrev pub ack_of : List ItemId × List ItemId → Ack
ack_of (exitosos, con_error) = record {
  status = status_of (is_nil con_error) (is_nil exitosos);
  ids_procesados = exitosos;
  ids_error = con_error;
}

-- `enviar` is `send_user_ack_batch` for a batch and its index: the ids that the answer names as
-- errors, or an exception.
module _ (enviar : ℕ → List ItemId → Option (List ItemId)) where
  unfoldable pub enviar_lotes :
      ℕ → List (List ItemId) → List ItemId × List ItemId → List ItemId × List ItemId
  enviar_lotes index [] acc = acc
  enviar_lotes index (lote ∷ ls) acc =
      enviar_lotes (index + 1) ls (con_lote (enviar index lote) lote acc)

  unfoldable pub confirmar_recepcion : List ItemId → Ack
  confirmar_recepcion numeros =
      if is_nil (ids_unicos numeros)
      then warning
      else ack_of (enviar_lotes 0 (lotes (ids_unicos numeros)) ([], []))

-- A user of a page: whether it is a dict, its two ids, `none` where they are missing or falsy, and
-- what the mapper makes of it with its `id_number__c`, `none` for an error.
pub record Usuario (T : Type 0) : Type 0 where
  pub es_dict : Bool
  pub numero_id_cf : Option ItemId
  pub numero_id : Option ItemId
  pub traducido : Option T

pub record Pagina (T : Type 0) : Type 0 where
  pub usuarios : List (Usuario T)
  pub siguiente : Option String

abbrev pub desconocido : ItemId
desconocido = codes "DESCONOCIDO"

abbrev first_id : Option ItemId → Option ItemId → ItemId
first_id (some x) o = x
first_id none (some x) = x
first_id none none = desconocido

unfoldable pub num_id : {T : Type 0} → Usuario T → ItemId
num_id u = if u.es_dict then strip (first_id u.numero_id_cf u.numero_id) else desconocido

-- `vistos_ids`, the users for the CRM, the ids of the failures, and how many were seen.
pub record Acumulado (T : Type 0) : Type 0 where
  pub vistos : List ItemId
  pub exitosos : List T
  pub fallidos : List ItemId
  pub total : ℕ

-- `if not url_actual`
abbrev pub next_url : Option String → Option String
next_url none = none
next_url (some u) = if str_eq u "" then none else some u

module _ {T : Type 0} where
  abbrev pub inicial : Acumulado T
  inicial = record { vistos = []; exitosos = []; fallidos = []; total = 0 }

  abbrev con_traduccion : ItemId → Option T → Acumulado T → Acumulado T
  con_traduccion id none acc = record acc { fallidos = acc.fallidos ++ (id ∷ []) }
  con_traduccion id (some t) acc = record acc {
    vistos = if same_text id desconocido then acc.vistos else id ∷ acc.vistos;
    exitosos = acc.exitosos ++ (t ∷ []);
  }

  -- `_procesar_usuario_sfc`
  unfoldable pub procesar_usuario : Usuario T → Acumulado T → Acumulado T
  procesar_usuario u acc =
      if not u.es_dict
      then record acc { fallidos = acc.fallidos ++ (num_id u ∷ []) }
      else if not (same_text (num_id u) desconocido) && member (num_id u) acc.vistos
      then acc
      else con_traduccion (num_id u) u.traducido acc

  -- The loop over a page.
  unfoldable pub procesar_pagina : List (Usuario T) → Acumulado T → Acumulado T
  procesar_pagina [] acc = acc
  procesar_pagina (u ∷ us) acc =
      procesar_pagina us (procesar_usuario u (record acc { total = acc.total + 1 }))

  -- What follows a page; `seguir` is the next turn of the loop.
  abbrev pub con_pagina :
      Option (Pagina T)
      → Acumulado T
      → (Option String → Acumulado T → Option (Acumulado T × Bool))
      → Option (Acumulado T × Bool)
  con_pagina none acc seguir = none
  con_pagina (some p) acc seguir =
      if is_nil p.usuarios then some (acc, false) else elim (next_url p.siguiente) [
        | none ↦ some (procesar_pagina p.usuarios acc, false)
        | some u ↦ seguir (some u) (procesar_pagina p.usuarios acc)
      ]

  -- `fetch` is `fetch_usuarios_pagina` for a page number and a URL, `none` for an exception;
  -- `en_tiempo` is the test of the clock before a page.
  module _ (fetch : ℕ → Option String → Option (Pagina T)) (en_tiempo : ℕ → Bool) where
    -- The loop with the number of pages that are left, the number of the page, and the URL; the
    -- Boolean is `paginacion_incompleta`.
    unfoldable pub paginar : ℕ → ℕ → Option String → Acumulado T → Option (Acumulado T × Bool)
    paginar zero pagina url acc = some (acc, true)
    paginar (suc n) pagina url acc =
        let seguir = paginar n (pagina + 1) in
        if en_tiempo pagina then con_pagina (fetch pagina url) acc seguir else some (acc, true)

    abbrev pub status_sync : Acumulado T × Bool → String
    status_sync (acc, incompleta) =
        if incompleta
        then "partial"
        else if is_nil acc.fallidos
        then "success"
        else if is_nil acc.exitosos
        then "error"
        else "partial"

    abbrev pub terminado : Option (Acumulado T × Bool) → Option (String × (Acumulado T × Bool))
    terminado none = none
    terminado (some r) = some (status_sync r, r)

    -- `sincronizar_usuarios`, with `settings.SFC_SYNC_MAX_PAGINAS`; `none` is an exception of a fetch.
    unfoldable pub sincronizar_usuarios : ℕ → Option (String × (Acumulado T × Bool))
    sincronizar_usuarios max_paginas = terminado (paginar max_paginas 1 none inicial)
