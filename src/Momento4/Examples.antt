-- ===== src/Momento4/Examples.antt =====
-- An acknowledgement of users, and an instance of the theorem about it.
use ms_integracion_smartsupe.Prelude.{ℕ, ◌+◌, ◌≡◌, Option, some, List, [], ◌∷◌, if◌then◌else◌}
use ms_integracion_smartsupe.Text.{codes}
use ms_integracion_smartsupe.Momento4.{ItemId, member, limpios, confirmar_recepcion}
use ms_integracion_smartsupe.Momento4.Batches.{times, confirmar_recepcion_reports_once}

-- Two spellings of one id, an empty one, and another.
abbrev given : List ItemId
given = codes " 10 " ∷ codes "10" ∷ codes "" ∷ codes "20" ∷ []

-- The SFC names one id as an error.
abbrev answer : ℕ → List ItemId → Option (List ItemId)
answer n lote = some (codes "20 " ∷ [])

confirmar_recepcion_reports_once_example :
    times (codes "20") (confirmar_recepcion answer given).ids_procesados
      + times (codes "20") (confirmar_recepcion answer given).ids_error
    ≡ (if member (codes "20") (limpios given) then 1 else 0)
confirmar_recepcion_reports_once_example =
    confirmar_recepcion_reports_once answer given (codes "20")
