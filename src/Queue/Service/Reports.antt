-- ===== src/Queue/Service/Reports.antt =====
-- What `QueueService` reads for monitoring: `contar_pendientes`,
-- `obtener_edad_item_mas_antiguo_pendiente` and `obtener_casos_vencidos_sla`. The ids, with their
-- scores where the code asks for them, are those that ZRANGEBYSCORE gave.
use ms_integracion_smartsupe.Prelude.{
  ℕ, ◌-◌, ◌≡◌, refl, ap, String, Bool, true, false, Option, none, some, List, [], ◌∷◌, ◌++◌, str_eq,
  if◌then◌else◌,
}
use ms_integracion_smartsupe.Item.{Item, intentos_or_zero}
use ms_integracion_smartsupe.Redis.{
  Redis, pending_set, item_key, missing, undecodable, decoded, read_item,
}
use ms_integracion_smartsupe.Remote.{Link, up, request_lost, reply_lost, call}

-- One entry of `casos_vencidos`; `en_cola` is the time in the queue.
pub record OverdueCase : Type 0 where
  pub smart_code : String
  pub correlation_id : String
  pub fecha_encolado : ℕ
  pub en_cola : ℕ
  pub reintentos : ℕ
  pub ultimo_error : String

abbrev pub overdue_case : ℕ → Item → OverdueCase
overdue_case now it = record {
  smart_code = it.smart_code;
  correlation_id = it.correlation_id;
  fecha_encolado = it.created_at;
  en_cola = now - it.created_at;
  reintentos = intentos_or_zero it.intentos;
  ultimo_error = if str_eq it.ultimo_error "" then "Sin detalle de error" else it.ultimo_error;
}

module _ (R : Redis) where
  open R use {Db, get, sismember, scard}

  -- An exception is not caught.
  unfoldable pub contar_pendientes : Link → Db → Option ℕ × Db
  contar_pendientes link db = call R link db (some (scard db pending_set), [])

  -- The loop of `obtener_casos_vencidos_sla`; `none` is an exception of `json.loads`.
  unfoldable pub casos_vencidos : Db → ℕ → List ℕ → Option (List OverdueCase)
  casos_vencidos db now [] = some []
  casos_vencidos db now (id ∷ ids) =
      let rest = casos_vencidos db now ids in
      if sismember db pending_set id
      then elim (read_item (get db (item_key id))) [
        | missing ↦ rest
        | undecodable ↦ none
        | decoded it ↦ elim rest [ none ↦ none | some cs ↦ some (overdue_case now it ∷ cs) ]
      ]
      else rest

  -- What one candidate comes to: its age, the next one, or an exception.
  age_of : Link → Bool → ℕ → Option ℕ → Option ℕ
  age_of up true age rest = some age
  age_of up false age rest = rest
  age_of request_lost b age rest = none
  age_of reply_lost b age rest = none

  -- The loop over `candidatos`; a lost call is logged and gives None.
  unfoldable pub edad_mas_antiguo : (ℕ → Link) → Db → ℕ → List (ℕ × ℕ) → Option ℕ
  unfolding age_of
  edad_mas_antiguo links db now [] = none
  edad_mas_antiguo links db now ((id, created) ∷ candidatos) =
      let rest = edad_mas_antiguo links db now candidatos in
      age_of (links id) (sismember db pending_set id) (now - created) rest

  abbrev pub NonePending : Db → List (ℕ × ℕ) → Type 0
  NonePending db [] = Unit
  NonePending db ((id, created) ∷ cs) = (sismember db pending_set id ≡ false) × NonePending db cs

  -- `age` is that of the first pending candidate of `cs`.
  abbrev pub FirstPending : Db → ℕ → ℕ → List (ℕ × ℕ) → Type 0
  FirstPending db now age cs =
      (before : List (ℕ × ℕ)) × (id : ℕ) × (created : ℕ) × (after : List (ℕ × ℕ)) × (cs
        ≡ before ++ ((id, created) ∷ after))
      × NonePending db before
      × (sismember db pending_set id ≡ true)
      × (age ≡ now - created)

  age_of-FirstPending :
      (db : Db) (now age id created : ℕ) (cs : List (ℕ × ℕ)) (rest : Option ℕ) (l : Link) (b : Bool)
      → sismember db pending_set id ≡ b
      → age_of l b (now - created) rest ≡ some age
      → (rest ≡ some age → FirstPending db now age cs)
      → FirstPending db now age ((id, created) ∷ cs)
  unfolding age_of
  age_of-FirstPending db now age id created cs rest up true q e k =
      ([], id, created, cs, refl, tt, q, cc)
  age_of-FirstPending db now age id created cs rest up false q e k =
      let (before, i, c, after, split, none_before, pending, same) = k e in
      (
        (id, created) ∷ before,
        i,
        c,
        after,
        ap (λ r. (id, created) ∷ r) split,
        (q, none_before),
        pending,
        same,
      )
  age_of-FirstPending db now age id created cs rest request_lost b q e k = cc
  age_of-FirstPending db now age id created cs rest reply_lost b q e k = cc

  -- An age that is reported is that of a pending candidate, and no candidate before it is pending:
  -- as the candidates come in the order of their creation, it is the oldest one that waits.
  pub edad_mas_antiguo_first :
      (links : ℕ → Link) (db : Db) (now age : ℕ) (cs : List (ℕ × ℕ))
      → edad_mas_antiguo links db now cs ≡ some age
      → FirstPending db now age cs
  unfolding edad_mas_antiguo
  edad_mas_antiguo_first links db now age [] h = cc
  edad_mas_antiguo_first links db now age ((id, created) ∷ cs) h =
      age_of-FirstPending db now age id created cs (edad_mas_antiguo links db now cs) (links id) _
        refl h (edad_mas_antiguo_first links db now age cs)
