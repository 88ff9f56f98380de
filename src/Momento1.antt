-- ===== src/Momento1.antt =====
-- app/services/momento_1_sync.py: the complaints that wait at the SFC, page by page, with their
-- files, all of them or not at all. An id is its list of code points.
pub mod Once
pub mod Complete
pub mod Acknowledged
mod Examples
use ms_integracion_smartsupe.Prelude.{
  ℕ, zero, suc, ◌+◌, String, Bool, true, false, not, ◌&&◌, ◌||◌, Option, none, some, List, [], ◌∷◌,
  ◌++◌, length, ltb, if◌then◌else◌,
}
use ms_integracion_smartsupe.Momento4.{
  ItemId, member, is_nil, next_url, Ack, warning, ids_unicos, lotes, enviar_lotes,
}

-- A complaint of the SFC: whether it is a dict, its `codigo_queja`, `none` where it is falsy, and
-- whether it has files.
pub record Queja1 (Q : Type 0) : Type 0 where
  pub es_dict : Bool
  pub codigo_queja : Option ItemId
  pub anexo_queja : Bool
  pub contenido : Q

pub record PaginaQuejas (Q : Type 0) : Type 0 where
  pub quejas : List (Queja1 Q)
  pub siguiente : Option String

abbrev pub seen_before : Option ItemId → List ItemId → Bool
seen_before none vistos = false
seen_before (some c) vistos = member c vistos

abbrev pub now_seen : Option ItemId → List ItemId → List ItemId
now_seen none vistos = vistos
now_seen (some c) vistos = c ∷ vistos

module _ {Q : Type 0} where
  abbrev pub codigo_de : Queja1 Q → Option ItemId
  codigo_de q = if q.es_dict then q.codigo_queja else none

  abbrev pub add_first : Queja1 Q → List (Queja1 Q) × List ItemId → List (Queja1 Q) × List ItemId
  add_first q (qs, vistos) = (q ∷ qs, vistos)

  -- `_filtrar_duplicados_por_codigo_queja`: what is left, and the codes that were seen.
  unfoldable pub filtrar_duplicados : List (Queja1 Q) → List ItemId → List (Queja1 Q) × List ItemId
  filtrar_duplicados [] vistos = ([], vistos)
  filtrar_duplicados (q ∷ qs) vistos =
      if seen_before (codigo_de q) vistos
      then filtrar_duplicados qs vistos
      else add_first q (filtrar_duplicados qs (now_seen (codigo_de q) vistos))

-- `listar` is `get_adjuntos_list` with its `results`, `transferir` is `transferir_lote_sfc_a_s3`,
-- `traducir` is the mapper; `none` is an exception. A `B` is a file in S3, an `E` the entity of the
-- CRM.
module _ {Q A B E : Type 0} (listar : Option ItemId → Option (List A))
    (transferir : Option ItemId → List A → Option (List B)) (traducir : Queja1 Q → Option E) where
  -- The files of a complaint: `none` leaves the complaint out.
  abbrev pub transferidos : List A → Option (List B) → Option (List B)
  transferidos adjuntos none = none
  transferidos adjuntos (some procesados) =
      if ltb (length procesados) (length adjuntos) then none else some procesados

  abbrev pub tras_listar : Option ItemId → Option (List A) → Option (List B)
  tras_listar codigo none = none
  tras_listar codigo (some adjuntos) =
      if is_nil adjuntos then some [] else transferidos adjuntos (transferir codigo adjuntos)

  unfoldable pub archivos_de : Queja1 Q → Option (List B)
  archivos_de q =
      if q.anexo_queja then tras_listar q.codigo_queja (listar q.codigo_queja) else some []

  abbrev pub con_archivos : Option (List B) → Option E → Option (E × List B)
  con_archivos (some archivos) (some e) = some (e, archivos)
  con_archivos _ _ = none

  -- `_procesar_queja_individual`, with what `gather` makes of an exception: one that is no dict
  -- raises at its first `get`.
  unfoldable pub procesar_queja : Queja1 Q → Option (E × List B)
  procesar_queja q = if q.es_dict then con_archivos (archivos_de q) (traducir q) else none

  abbrev pub add_result : Option (E × List B) → List (E × List B) → List (E × List B)
  add_result none rs = rs
  add_result (some r) rs = r ∷ rs

  -- The results of `_procesar_pagina_quejas`; the chunks of ten run at a time, and `gather` keeps
  -- the order.
  unfoldable pub procesar_todas : List (Queja1 Q) → List (E × List B)
  procesar_todas [] = []
  procesar_todas (q ∷ qs) = add_result (procesar_queja q) (procesar_todas qs)

  -- What follows a page; `seguir` is the next turn of the loop.
  abbrev pub con_pagina_quejas :
      Option (PaginaQuejas Q)
      → List ItemId
      → List (E × List B)
      → (Option String → List ItemId → List (E × List B) → Option (List (E × List B)))
      → Option (List (E × List B))
  con_pagina_quejas none vistos acc seguir = none
  con_pagina_quejas (some p) vistos acc seguir =
      if is_nil p.quejas
      then some acc
      else let (unicas, vistos') = filtrar_duplicados p.quejas vistos in
        let acc' = acc ++ procesar_todas unicas in
        elim (next_url p.siguiente) [ none ↦ some acc' | some u ↦ seguir (some u) vistos' acc' ]

  module _ (fetch : ℕ → Option String → Option (PaginaQuejas Q)) (en_tiempo : ℕ → Bool) where
    -- The loop of `ejecutar_flujo_completo_momento_1` with the number of pages that are left.
    unfoldable pub recorrer :
        ℕ → ℕ → Option String → List ItemId → List (E × List B) → Option (List (E × List B))
    recorrer zero pagina url vistos acc = some acc
    recorrer (suc n) pagina url vistos acc =
        let seguir = recorrer n (pagina + 1) in
        if en_tiempo pagina
        then con_pagina_quejas (fetch pagina url) vistos acc seguir
        else some acc

    -- `ejecutar_flujo_completo_momento_1`, with `settings.SFC_SYNC_MAX_PAGINAS`.
    unfoldable pub momento_1 : ℕ → Option (List (E × List B))
    momento_1 max_paginas = recorrer max_paginas 1 none [] []

abbrev ack_of_quejas : List ItemId × List ItemId → Ack
ack_of_quejas (exitosos, con_error) = record {
  status = if is_nil con_error then "success" else "partial";
  ids_procesados = exitosos;
  ids_error = con_error;
}

-- `confirmar_recepcion_ack`: the loop over the batches is that of Momento 4, with
-- `send_ack_batch` as `enviar`.
unfoldable pub confirmar_recepcion_ack :
    (ℕ → List ItemId → Option (List ItemId)) → List ItemId → Ack
confirmar_recepcion_ack enviar ids_quejas =
    if is_nil (ids_unicos ids_quejas)
    then warning
    else ack_of_quejas (enviar_lotes enviar 0 (lotes (ids_unicos ids_quejas)) ([], []))
