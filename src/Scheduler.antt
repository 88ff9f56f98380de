-- ===== src/Scheduler.antt =====
-- app/workers/scheduler.py: the cycle that takes the items of the queue, sends each to the SFC,
-- tells the CRM and completes it. The orchestrator's dispatch and the CRM's webhook are outside;
-- what they answer in the turn of an item is data of that turn, and so are the calls that the
-- connection loses and what other clients, and the heartbeats of this worker, do meanwhile.
pub mod Steps
pub mod Cycle
pub mod Contacts
pub mod Recorded
pub mod Outage
pub mod Completion
mod Examples
use ms_integracion_smartsupe.Prelude.{
  ℕ, String, Bool, true, false, not, ◌||◌, Option, none, some, List, [], ◌∷◌, ◌++◌, str_eq,
  if◌then◌else◌,
}
use ms_integracion_smartsupe.Item.{Item, version_or_one}
use ms_integracion_smartsupe.Classification.{Payload, infer_operation_type}
use ms_integracion_smartsupe.Redis.{Redis}
use ms_integracion_smartsupe.Remote.{Link}
use ms_integracion_smartsupe.Queue.Script.Types.{Outcome, success, is_success}
use ms_integracion_smartsupe.Queue.History.{Event, play}
use ms_integracion_smartsupe.Queue.Service.{
  Settings, Notice, marcar_sfc_completado, marcar_exitoso, registrar_fallo,
}

-- An exception: its text, and what `_es_falla_infraestructura` says of it.
pub record Failure : Type 0 where
  pub message : String
  pub es_transitoria : Bool

-- `procesar_despacho_raw_json`: a result with the status "error" and its message, any other result
-- with its JSON text, or an exception.
pub data SfcReply : Type 0 where
  sfc_result sfc_error : String → SfcReply
  sfc_raises : Failure → SfcReply

-- `notificar_resolucion_contingencia`: `(True, …)`, `(False, detail)` with the message that the turn
-- makes of the detail and of the response of the SFC, or an exception.
pub data CrmReply : Type 0 where
  crm_notified : CrmReply
  crm_refused : String → String → CrmReply
  crm_raises : Failure → CrmReply

-- What the turn of an item meets. Other clients act before the claim, while the SFC works, and
-- while the CRM is told.
pub record Turn : Type 0 where
  pub lock_link : Link
  pub claim_link : Link
  pub persist_links : ℕ → Link
  pub mark_link : Link
  pub fail_link : Link
  pub release_link : Link
  pub unlock_link : Link
  pub sfc : SfcReply
  pub crm : CrmReply
  pub before_claim : List Event
  pub during_sfc : List Event
  pub during_crm : List Event
  pub now : ℕ

-- What the worker does outside Redis.
pub data Effect : Type 0 where
  sends_to_sfc : Item → Effect
  tells_crm : Item → Effect
  cleans_checkpoint : String → Effect
  alerts_duplicate_risk : String → Effect
  notifies : Notice → Effect
  announces_recovery : ℕ → Effect

abbrev pub notifications : List Notice → List Effect
notifications [] = []
notifications (n ∷ ns) = notifies n ∷ notifications ns

-- `_ResultadoItemReintento`
pub record ItemResult : Type 0 where
  pub despachado_exito : Bool
  pub fallido : Bool
  pub es_falla_infraestructura : Bool

abbrev pub nothing_done : ItemResult
nothing_done = record {
  despachado_exito = false;
  fallido = false;
  es_falla_infraestructura = false;
}

-- `item.payload_json`, `{}` where it is empty.
abbrev pub payload_or_empty : Option Payload → Payload
payload_or_empty none = λ k. none
payload_or_empty (some p) = p

-- `load` is `json.loads` of a stored payload, `none` where it is empty; `es_falla_texto` is
-- `_es_falla_infraestructura` of a text; `is_success_text` tests a result's status for "success".
module _ (R : Redis) (sha dump : Payload → String) (settings : Settings)
    (load : String → Option Payload) (es_falla_texto is_success_text : String → Bool) where
  open R use {Db}

  -- What a step leaves: whether the turn goes on, the effects, the result and Redis.
  pub record Step : Type 0 where
    pub continuar : Bool
    pub result : ItemResult
    pub effects : List Effect
    pub db : Db

  -- `registrar_fallo` and what the turn makes of its answer.
  abbrev failed_with : Bool → Outcome × List Notice × Db → Step
  failed_with infra (o, notices, db) = record {
    continuar = false;
    result = record {
      despachado_exito = false;
      fallido = is_success o;
      es_falla_infraestructura = infra;
    };
    effects = notifications notices;
    db = db;
  }

  unfoldable pub fail_turn : Turn → Db → Item → String → String → Bool → Bool → Step
  fail_turn t db it w message consumir_intento infra = failed_with infra (
      registrar_fallo R sha dump settings t.fail_link t.release_link db it (load it.payload_json)
        message w consumir_intento t.now)

  abbrev stopped : List Effect → Db → Step
  stopped effects db = record {
    continuar = false;
    result = nothing_done;
    effects = effects;
    db = db;
  }

  abbrev continues : List Effect → Db → Step
  continues effects db = record {
    continuar = true;
    result = nothing_done;
    effects = effects;
    db = db;
  }

  abbrev pub es_cierre_operation : String → Bool
  es_cierre_operation o = str_eq o "M3_CLOSE" || str_eq o "M3_FRAUD_AND_CLOSE"

  -- `_limpiar_checkpoint_tras_persistencia_durable`
  abbrev cleaning : Item → String → List Effect
  cleaning it response =
      if es_cierre_operation (infer_operation_type (payload_or_empty (load it.payload_json)))
      then if is_success_text response then cleans_checkpoint it.smart_code ∷ [] else []
      else []

  -- What follows `marcar_sfc_completado`.
  abbrev after_persist : Item → String → Option Outcome × Db → Step
  after_persist it response (none, db) = stopped (alerts_duplicate_risk it.smart_code ∷ []) db
  after_persist it response (some success, db) = continues (cleaning it response) db
  after_persist it response (some _, db) = stopped [] db

  after_sfc : Turn → Db → Item → String → SfcReply → Step
  after_sfc t db it w (sfc_raises f) = fail_turn t db it w f.message true f.es_transitoria
  after_sfc t db it w (sfc_error message) =
      fail_turn t db it w message true (es_falla_texto message)
  after_sfc t db it w (sfc_result response) = after_persist it response (
      marcar_sfc_completado R sha dump settings 3 t.persist_links db it.id w
        (version_or_one it.version) it.smart_code (payload_or_empty (load it.payload_json))
        (some response) it.payload_hash t.now)

  abbrev with_effect : Effect → Step → Step
  with_effect e s = record s { effects = e ∷ s.effects }

  -- `_ejecutar_paso_sfc`, with the exception that `_procesar_item_reclamado` catches.
  unfoldable pub paso_sfc : Turn → Db → Item → String → Step
  unfolding after_sfc
  paso_sfc t db it w =
      if it.sfc_completado
      then continues [] db
      else with_effect (sends_to_sfc it) (after_sfc t (play R db t.during_sfc) it w t.sfc)

  -- What follows `marcar_exitoso`.
  abbrev after_mark : Item → Option Outcome × Db → Step
  after_mark it (none, db) = stopped (alerts_duplicate_risk it.smart_code ∷ []) db
  after_mark it (some o, db) = record {
    continuar = false;
    result = record nothing_done { despachado_exito = is_success o };
    effects = [];
    db = db;
  }

  after_crm : Turn → Db → Item → String → CrmReply → Step
  after_crm t db it w (crm_raises f) = fail_turn t db it w f.message true f.es_transitoria
  after_crm t db it w (crm_refused detail error_msg) =
      fail_turn t db it w error_msg (not (es_falla_texto detail)) false
  after_crm t db it w crm_notified =
      after_mark it (
        marcar_exitoso R sha dump settings t.mark_link db it.id w (version_or_one it.version) t.now)

  -- `_ejecutar_paso_notificacion_crm`
  unfoldable pub paso_crm : Turn → Db → Item → String → Step
  unfolding after_crm
  paso_crm t db it w = with_effect (tells_crm it) (after_crm t (play R db t.during_crm) it w t.crm)

  abbrev then_crm : Turn → Item → String → Step → Step
  then_crm t it w s =
      if s.continuar
      then record (paso_crm t s.db it w) { effects = s.effects ++ (paso_crm t s.db it w).effects }
      else s

  -- `_procesar_item_reclamado`
  unfoldable pub procesar_item : Turn → Db → Item → String → Step
  procesar_item t db it w = then_crm t it w (paso_sfc t db it w)
