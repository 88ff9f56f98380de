-- ===== src/Momento1/Acknowledged.antt =====
-- The acknowledgement of complaints.
use ms_integracion_smartsupe.Prelude.{
  ℕ, ◌+◌, ◌≡◌, refl, Option, List, Bool-cases, inl, inr, if◌then◌else◌,
}
use ms_integracion_smartsupe.Momento4.{
  ItemId, member, is_nil, limpios, ids_unicos, confirmar_recepcion,
}
use ms_integracion_smartsupe.Momento4.Batches.{times, confirmar_recepcion_reports_once}
use ms_integracion_smartsupe.Momento1.{confirmar_recepcion_ack}

same_ids :
    (enviar : ℕ → List ItemId → Option (List ItemId)) (ids : List ItemId)
    → ((confirmar_recepcion_ack enviar ids).ids_procesados
        ≡ (confirmar_recepcion enviar ids).ids_procesados)
      × ((confirmar_recepcion_ack enviar ids).ids_error
          ≡ (confirmar_recepcion enviar ids).ids_error)
unfolding confirmar_recepcion_ack confirmar_recepcion
same_ids enviar ids = elim (Bool-cases (is_nil (ids_unicos ids))) [
  | inl y ↦ simp y (refl, refl)
  | inr n ↦ simp n (refl, refl)
]

-- The acknowledgement of complaints reports each code that was given, trimmed, exactly once, as
-- processed or as an error, and no other, whatever the SFC answers and whichever calls fail.
pub confirmar_recepcion_ack_reports_once :
    (enviar : ℕ → List ItemId → Option (List ItemId)) (ids : List ItemId) (t : ItemId)
    → times t (confirmar_recepcion_ack enviar ids).ids_procesados
        + times t (confirmar_recepcion_ack enviar ids).ids_error
      ≡ (if member t (limpios ids) then 1 else 0)
confirmar_recepcion_ack_reports_once enviar ids t =
    let (ok, wrong) = same_ids enviar ids in
    rw (ok, wrong) (confirmar_recepcion_reports_once enviar ids t)
