-- ===== src/Queue/Service.antt =====
-- The methods of `QueueService` in app/services/queue_service.py: they prepare the arguments of a
-- script, call it over a connection that may fail, and act on its reply. A time is an argument; an
-- e-mail is a notice in the result. Redis is there: without a client each method raises or
-- returns its empty value before anything else.
pub mod Retries
pub mod Newest
pub mod Queued
pub mod Persist
pub mod Purge
pub mod Replayed
pub mod Reports
pub mod Reach
use ms_integracion_smartsupe.Prelude.{
  ℕ, ◌+◌, ◌*◌, ◌%◌, ◌≡◌, String, Bool, true, false, not, Option, none, some, List, [], ◌∷◌, ◌++◌,
  ◌==◌, leb, ltb, str_eq, if◌then◌else◌,
}
use ms_integracion_smartsupe.Classification.{Payload, infer_operation_type}
use ms_integracion_smartsupe.Item.{Item, version_or_one, intentos_or_zero}
use ms_integracion_smartsupe.IdempotencyRecord.{IdempotencyKey, IdempotencyRecord}
use ms_integracion_smartsupe.Redis.{
  Redis, Command, idempotency_key, pending_set, del, run, Decoded, missing, undecodable, decoded,
  item_key, read_item,
}
use ms_integracion_smartsupe.Remote.{Link, call, retry}
use ms_integracion_smartsupe.Idempotency.Records.{ttl_ms_default, liberar}
use ms_integracion_smartsupe.Idempotency.Payload.{
  compute_payload_hash, completed_key, completed_record, key_of,
}
use ms_integracion_smartsupe.Queue.Script.Types.{
  Outcome, success, not_owner, item_not_found, version_mismatch, script_error, is_success,
}
use ms_integracion_smartsupe.Queue.Script.Enqueue.{
  EnqueueArgs, EnqueueReply, enqueued, enqueue_error, enqueue,
}
use ms_integracion_smartsupe.Queue.Script.Claim.{ClaimReply, claimed, claim_item, extend_lease}
use ms_integracion_smartsupe.Queue.Script.Finish.{mark_success, mark_sfc_done}
use ms_integracion_smartsupe.Queue.Script.Fail.{FailArgs, register_failure}
use ms_integracion_smartsupe.Queue.Script.Defer.{defer_item}
use ms_integracion_smartsupe.Queue.Script.Cancel.{
  CancelReply, cancelled, kept, cancel_error, cancel_pending, read_pending,
}

-- `settings.QUEUE_RETRY_INTERVAL_MINUTES`, in milliseconds, and `settings.QUEUE_MAX_RETRIES`.
pub record Settings : Type 0 where
  pub retry_interval_ms : ℕ
  pub max_retries : ℕ

-- The e-mails of `EmailAlertService` that the methods send.
pub data Notice : Type 0 where
  infrastructure_down : String → Notice
  queue_threshold : ℕ → Notice
  failed_for_good : String → ℕ → Notice

-- The reply of a script as `eval` gives it: an error of the script is an exception.
abbrev pub enqueue_answer : EnqueueReply × List Command → Option (Bool × Item × ℕ) × List Command
enqueue_answer (enqueued is_new it pendientes, cs) = (some (is_new, it, pendientes), cs)
enqueue_answer (enqueue_error, cs) = (none, cs)

abbrev pub outcome_answer : Outcome × List Command → Option Outcome × List Command
outcome_answer (script_error, cs) = (none, cs)
outcome_answer (o, cs) = (some o, cs)

abbrev pub claim_answer : ClaimReply × List Command → Option ClaimReply × List Command
claim_answer (r, cs) = (some r, cs)

abbrev pub cancel_answer : CancelReply × List Command → Option CancelReply × List Command
cancel_answer (cancel_error, cs) = (none, cs)
cancel_answer (r, cs) = (some r, cs)

-- What `encolar_despacho` announces for a new item.
abbrev pub enqueue_notices : String → Bool × Item × ℕ → List Notice
enqueue_notices smart_code (false, it, previous) = []
enqueue_notices smart_code (true, it, previous) =
    (if previous == 0 then infrastructure_down smart_code ∷ [] else [])
    ++ (if (previous + 1) % 100 == 0 then queue_threshold (previous + 1) ∷ [] else [])

module _ (R : Redis) (sha dump : Payload → String) (settings : Settings) where
  open R use {Db, get}

  -- The arguments of ENQUEUE; `dump` is `json.dumps`.
  unfoldable pub enqueue_args : String → String → Payload → String → String → ℕ → EnqueueArgs
  enqueue_args smart_code tipo_operacion payload error_inicial correlation_id now = record {
    smart_code = smart_code;
    tipo_operacion = tipo_operacion;
    payload_json = dump payload;
    error_inicial = error_inicial;
    max_intentos = settings.max_retries;
    now = now;
    proximo_reintento = now + settings.retry_interval_ms;
    correlation_id = correlation_id;
    payload_hash = compute_payload_hash sha payload;
    operacion = infer_operation_type payload;
  }

  -- The item, or `none` for an exception, with the notices and the keyspace.
  pub announce : String → Option (Bool × Item × ℕ) × Db → Option Item × List Notice × Db
  announce smart_code (none, db) = (none, [], db)
  announce smart_code (some (is_new, it, previous), db) =
      (some it, enqueue_notices smart_code (is_new, it, previous), db)

  unfoldable pub encolar_despacho :
      Link → Db → String → String → Payload → String → String → ℕ → Option Item × List Notice × Db
  unfolding announce
  encolar_despacho link db smart_code tipo_operacion payload error_inicial correlation_id now =
      announce smart_code (
        call R link db (
          enqueue_answer (
            enqueue R db
              (enqueue_args smart_code tipo_operacion payload error_inicial correlation_id now))))

  -- `none` is an exception, else "completed", "not_owner", "version_mismatch" or "not_found".
  unfoldable pub marcar_exitoso : Link → Db → ℕ → String → ℕ → ℕ → Option Outcome × Db
  marcar_exitoso link db registro_id worker_id expected_version now =
      call R link db (outcome_answer (mark_success R db registro_id worker_id expected_version now))

  -- The loop of `marcar_sfc_completado` over `max_intentos_persistencia` attempts; key and record
  -- are computed once, before the loop.
  unfoldable pub marcar_sfc_completado :
      ℕ
      → (ℕ → Link)
      → Db
      → ℕ
      → String
      → ℕ
      → String
      → Payload
      → Option String
      → Option String
      → ℕ
      → Option Outcome × Db
  marcar_sfc_completado attempts links db registro_id worker_id expected_version smart_code payload
        response payload_hash now =
      retry R attempts links
        (λ db'. outcome_answer (
          mark_sfc_done R db' registro_id worker_id expected_version now response
            (completed_key sha smart_code payload payload_hash)
            (completed_record sha smart_code payload response payload_hash now) ttl_ms_default))
        db

  claim_result : Option ClaimReply × Db → Option Item × Db
  claim_result (some (claimed it), db) = (some it, db)
  claim_result (_, db) = (none, db)

  unfoldable pub reclamar_item : Link → Db → ℕ → String → ℕ → Option Item × Db
  unfolding claim_result
  reclamar_item link db registro_id worker_id lease_segundos = claim_result (
      call R link db (claim_answer (claim_item R db registro_id worker_id (lease_segundos * 1000))))

  -- `item.max_intentos or settings.QUEUE_MAX_RETRIES`
  abbrev pub limit_of : Item → ℕ
  limit_of it = if it.max_intentos == 0 then settings.max_retries else it.max_intentos

  -- `intentos_after`, `es_definitivo` and `espera_minutos`
  unfoldable pub fail_args : Item → String → Bool → ℕ → FailArgs
  fail_args it error_msg true now = record {
    error_msg = error_msg;
    now = now;
    es_definitivo = leb (limit_of it) (intentos_or_zero it.intentos + 1);
    proximo_reintento = now + settings.retry_interval_ms * (intentos_or_zero it.intentos + 1);
    consumir_intento = true;
  }
  fail_args it error_msg false now = record {
    error_msg = error_msg;
    now = now;
    es_definitivo = false;
    proximo_reintento = now + settings.retry_interval_ms;
    consumir_intento = false;
  }

  -- The DELETE of `liberar_por_fallo_definitivo`, whose failure is only logged. `payload` is the
  -- decoded `payload_json` of the item, `none` where it is empty.
  release_idempotency : Link → Db → String → Option Payload → Db
  release_idempotency link db smart_code none = db
  release_idempotency link db smart_code (some payload) =
      if str_eq smart_code "" then db else liberar R sha link db smart_code payload

  -- What follows the reply: on a final failure the notice and the release.
  after_fail :
      Link → Item → Option Payload → FailArgs → Option Outcome × Db → Outcome × List Notice × Db
  unfolding release_idempotency
  after_fail link it payload a (some success, db) =
      if a.es_definitivo
      then (
        success,
        failed_for_good it.smart_code (intentos_or_zero it.intentos + 1) ∷ [],
        release_idempotency link db it.smart_code payload,
      )
      else (success, [], db)
  after_fail link it payload a (some not_owner, db) = (not_owner, [], db)
  after_fail link it payload a (some version_mismatch, db) = (version_mismatch, [], db)
  after_fail link it payload a (_, db) = (item_not_found, [], db)

  -- `registrar_fallo` never raises: an exception counts as "not_found".
  unfoldable pub registrar_fallo :
      Link
      → Link
      → Db
      → Item
      → Option Payload
      → String
      → String
      → Bool
      → ℕ
      → Outcome × List Notice × Db
  unfolding after_fail
  registrar_fallo link link' db it payload error_msg worker_id consumir_intento now =
      let a = fail_args it error_msg consumir_intento now in
      after_fail link' it payload a (
        call R link db
          (outcome_answer (register_failure R db it.id worker_id (version_or_one it.version) a)))

  abbrev pub deferral_reason : String
  deferral_reason = "Reintento pospuesto automáticamente por caída de plataforma SFC."

  abbrev count_success : Option Outcome → ℕ → ℕ
  count_success (some success) n = n + 1
  count_success _ n = n

  -- `minutos_delay or settings.QUEUE_RETRY_INTERVAL_MINUTES`, in milliseconds
  abbrev pub delay_of : Option ℕ → ℕ
  delay_of none = settings.retry_interval_ms
  delay_of (some d) = if d == 0 then settings.retry_interval_ms else d

  -- The loop of `diferir_pendientes_por_caida_sfc`; an exception is logged and the loop goes on.
  unfoldable pub diferir_pendientes : (ℕ → Link) → Db → List Item → Option ℕ → ℕ → ℕ → ℕ × Db
  diferir_pendientes links db [] delay now modificados = (modificados, db)
  diferir_pendientes links db (it ∷ registros) delay now modificados =
      let (r, db') = call R (links it.id) db (
        outcome_answer (
          defer_item R db it.id (version_or_one it.version) (now + delay_of delay) now
            deferral_reason)) in
      diferir_pendientes links db' registros delay now (count_success r modificados)

  -- `hash_pendiente or ""`
  abbrev hash_or_empty : Option String → String
  hash_or_empty none = ""
  hash_or_empty (some h) = h

  abbrev was_cancelled : Option CancelReply × Db → Bool × Db
  was_cancelled (some cancelled, db) = (true, db)
  was_cancelled (_, db) = (false, db)

  cancel_read_item : Link → Db → String → String → Decoded → Bool × Db
  cancel_read_item link db smart_code operacion missing = (false, db)
  cancel_read_item link db smart_code operacion undecodable = (false, db)
  cancel_read_item link db smart_code operacion (decoded it) = was_cancelled (
      call R link db (
        cancel_answer
          (cancel_pending R db smart_code operacion it.id (hash_or_empty it.payload_hash))))

  abbrev first_read : Option Decoded × Db → Decoded
  first_read (some d, db) = d
  first_read (none, db) = missing

  -- `cancelar_pendiente_por_smart_code`: between its two scripts `others` may act.
  unfoldable pub cancelar_pendiente : Link → Link → (Db → Db) → Db → String → String → Bool × Db
  unfolding cancel_read_item
  cancelar_pendiente link link' others db smart_code operacion =
      if str_eq smart_code ""
      then (false, db)
      else cancel_read_item link' (others db) smart_code operacion
          (first_read (call R link db (some (read_pending R db smart_code operacion), [])))

  abbrev was_extended : Option Bool × Db → Bool × Db
  was_extended (some b, db) = (b, db)
  was_extended (none, db) = (false, db)

  unfoldable pub extender_lease : Link → Db → ℕ → String → ℕ → Bool × Db
  extender_lease link db registro_id worker_id lease_segundos = was_extended (
      call R link db (
        let (b, cs) = extend_lease R db registro_id worker_id (lease_segundos * 1000) in
        (some b, cs)))

  -- The loop of `obtener_pendientes_para_reintento` over the ids that ZRANGEBYSCORE gave. An item
  -- that is no JSON raises, as `none`.
  unfoldable pub elegibles : Db → List ℕ → Option (List Item)
  elegibles db [] = some []
  elegibles db (id ∷ ids) =
      let rest = elegibles db ids in
      if R.sismember db pending_set id
      then elim (read_item (get db (item_key id))) [
        | missing ↦ rest
        | undecodable ↦ none
        | decoded it ↦
            if ltb (intentos_or_zero it.intentos) it.max_intentos
            then elim rest [ none ↦ none | some its ↦ some (it ∷ its) ]
            else rest
      ]
      else rest
