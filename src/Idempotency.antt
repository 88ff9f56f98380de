-- ===== src/Idempotency.antt =====
-- app/services/idempotency_service.py: the store that keeps a request of the CRM from being sent
-- to the SFC twice. Between two calls of one request other clients may act: `others n` is what
-- they do at point `n`, and `link n` what happens to the call that follows.
pub mod Payload
pub mod Barrier
pub mod Records
use ms_integracion_smartsupe.Prelude.{
  ℕ, String, Bool, true, false, ◌&&◌, Option, none, some, List, [], ◌∷◌, ◌==◌, str_eq,
  if◌then◌else◌,
}
use ms_integracion_smartsupe.Status.{is_pending}
use ms_integracion_smartsupe.Item.{Item}
use ms_integracion_smartsupe.IdempotencyRecord.{
  IdempotencyKey, IdempotencyRecord, idempotency_completed, idempotency_processing,
  idempotency_queued,
}
use ms_integracion_smartsupe.Redis.{
  Redis, Value, Decoded, missing, undecodable, decoded, item_key, idempotency_key, record_text,
  read_item, set_px, del, run,
}
use ms_integracion_smartsupe.Remote.{Link, up, request_lost, reply_lost}

-- What `verificar_o_iniciar_operacion` answers: `(False, None)`, or `(True, …)` with the status
-- success, processing, already_queued or redis_unavailable.
pub data Verdict : Type 0 where
  proceed in_process already_queued store_unavailable : Verdict
  already_done : Option String → Verdict

-- `_fail_closed_redis_no_disponible` and `_manejar_fallo_redis_idempotencia`
abbrev pub on_failure : Bool → Verdict
on_failure fail_closed = if fail_closed then store_unavailable else proceed

-- What `_evaluar_registro_existente` makes of the record: an answer, a record to delete, nothing,
-- or an exception of `json.loads`.
pub data Evaluation : Type 0 where
  answer : Verdict → Evaluation
  orphan nothing broken : Evaluation

-- `rehash` is `compute_payload_hash(data.get("payload_json") or {})` for an item of an older
-- release, which has no hash of its own; `none` where it raises.
module _ (R : Redis) (rehash : String → Option String) where
  open R use {Db, get}

  abbrev same_payload : Item → String → Bool
  same_payload it hash = elim it.payload_hash [
    | none ↦ elim (rehash it.payload_json) [ none ↦ true | some h ↦ str_eq h hash ]
    | some h ↦
        if str_eq h ""
        then elim (rehash it.payload_json) [ none ↦ true | some h' ↦ str_eq h' hash ]
        else str_eq h hash
  ]

  -- `_item_de_cola_sigue_vigente`; an exception counts as still current.
  vigente_read : Decoded → String → Bool
  vigente_read missing hash = false
  vigente_read undecodable hash = true
  vigente_read (decoded it) hash = if is_pending it.estado then same_payload it hash else false

  unfoldable pub item_sigue_vigente : Link → Db → Option ℕ → String → Bool
  unfolding vigente_read
  item_sigue_vigente link db none hash = true
  item_sigue_vigente up db (some id) hash =
      if id == 0 then true else vigente_read (read_item (get db (item_key id))) hash
  item_sigue_vigente _ db (some id) hash = true

  by_status : Link → Db → IdempotencyRecord → String → Evaluation
  by_status link db r hash = elim r.status [
    | idempotency_completed ↦ answer (already_done r.sfc_response)
    | idempotency_processing ↦ answer in_process
    | idempotency_queued ↦
        if item_sigue_vigente link db r.queue_item_id hash then answer already_queued else orphan
  ]

  unfoldable pub evaluate_record : Link → Db → Option Value → String → Evaluation
  unfolding by_status
  evaluate_record link db none hash = nothing
  evaluate_record link db (some (record_text r)) hash =
      if str_eq r.payload_hash hash then by_status link db r hash else nothing
  evaluate_record link db (some _) hash = broken

-- `initial_record`
abbrev pub processing_record : IdempotencyKey → ℕ → IdempotencyRecord
processing_record k now = record {
  smart_code = k.smart_code;
  operation = k.operation;
  payload_hash = k.payload_hash;
  status = idempotency_processing;
  created_at = now;
  completed_at = none;
  sfc_response = none;
  error_msg = none;
  queue_item_id = none;
}

abbrev pub processing_ttl_ms : ℕ
processing_ttl_ms = 180000

-- What the second GET of `_iniciar_registro_processing` makes of the record that was in the way.
abbrev pub in_the_way : Bool → Option Value → String → Verdict
in_the_way fail_closed none hash = in_process
in_the_way fail_closed (some (record_text r)) hash = elim r.status [
  | idempotency_completed ↦
      if str_eq r.payload_hash hash then already_done r.sfc_response else in_process
  | _ ↦ in_process
]
in_the_way fail_closed (some _) hash = on_failure fail_closed

module _ (R : Redis) (rehash : String → Option String) (links : ℕ → Link) (others : ℕ → R.Db → R.Db)
    (k : IdempotencyKey) (now : ℕ) (fail_closed : Bool) where
  open R use {Db, get}

  read_again : Link → Db → Verdict × Db
  read_again up db = (in_the_way fail_closed (get db (idempotency_key k)) k.payload_hash, db)
  read_again _ db = (on_failure fail_closed, db)

  -- SET with NX and PX: the key is written where it is absent.
  taken_or_set : Link → Db → Option Value → Verdict × Db
  unfolding read_again
  taken_or_set up db none = (
    proceed,
    run R db
        (set_px (idempotency_key k) (record_text (processing_record k now)) processing_ttl_ms ∷ []),
  )
  taken_or_set up db (some v) = read_again (links 4) (others 4 db)
  taken_or_set reply_lost db none = (
    on_failure fail_closed,
    run R db
        (set_px (idempotency_key k) (record_text (processing_record k now)) processing_ttl_ms ∷ []),
  )
  taken_or_set _ db _ = (on_failure fail_closed, db)

  -- `_iniciar_registro_processing`
  unfoldable pub start_processing : Db → Verdict × Db
  unfolding taken_or_set
  start_processing db =
      let db' = others 3 db in taken_or_set (links 3) db' (get db' (idempotency_key k))

  unfoldable pub drop_orphan : Link → Db → Verdict × Db
  drop_orphan up db = start_processing (run R db (del (idempotency_key k) ∷ []))
  drop_orphan request_lost db = (on_failure fail_closed, db)
  drop_orphan reply_lost db = (on_failure fail_closed, run R db (del (idempotency_key k) ∷ []))

  unfoldable pub after_evaluation : Evaluation → Db → Verdict × Db
  after_evaluation (answer v) db = (v, db)
  after_evaluation broken db = (on_failure fail_closed, db)
  after_evaluation nothing db = start_processing db
  after_evaluation orphan db = drop_orphan (links 2) (others 2 db)

  unfoldable pub read_first : Link → Db → Verdict × Db
  read_first up db =
      after_evaluation
        (evaluate_record R rehash (links 1) (others 1 db) (get db (idempotency_key k))
          k.payload_hash)
        (others 1 db)
  read_first _ db = (on_failure fail_closed, db)

  -- `verificar_o_iniciar_operacion` with a client; the key is computed by `Payload.key_of`.
  unfoldable pub verify_or_start : Db → Verdict × Db
  verify_or_start db = read_first (links 0) db
