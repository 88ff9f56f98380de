-- ===== src/Examples.antt =====
-- Runs of the services on the keyspace in memory, and instances of the theorems about them.
use ms_integracion_smartsupe.Prelude.{
  ℕ, String, ◌≡◌, ◌≢◌, ◌⊎◌, ◌↔◌, inl, refl, true, false, Option, some, none, [], ◌==◌, str_eq,
  if◌then◌else◌, ◌∷◌, List, arith,
}
use ms_integracion_smartsupe.Status.{pending, processing, failed_final}
use ms_integracion_smartsupe.Item.{Item, version_or_one, operacion_sufijo}
use ms_integracion_smartsupe.Classification.{
  text, Payload, is_present, infer_operation_type, infer_operation_type-ne-empty, es_cierre,
  es_fraude, es_nueva, tiene_campos_m3, es_estado_cierre,
}
use ms_integracion_smartsupe.Classification.Fields.{
  IsNew, HasLater, IsFraud, IsClosing, infer_operation_type_iff,
}
use ms_integracion_smartsupe.IdempotencyRecord.{IdempotencyKey}
use ms_integracion_smartsupe.Redis.{
  item_key, index_key, idempotency_key, item_text, record_text, reference, pending_set, run, set,
  sadd, count, counter_key, failed_set, completed_set,
}
use ms_integracion_smartsupe.Redis.Memory.{Memory, memory, empty}
use ms_integracion_smartsupe.Remote.{Link, up, request_lost, reply_lost, call, retry, resume}
use ms_integracion_smartsupe.Idempotency.{
  proceed, already_queued, already_done, processing_record, processing_ttl_ms, item_sigue_vigente,
  verify_or_start, read_first, after_evaluation, start_processing, evaluate_record,
}
use ms_integracion_smartsupe.Idempotency.Payload.{
  completed_key, key_of, compute_payload_hash, canonical,
}
use ms_integracion_smartsupe.Idempotency.Barrier.{
  verified, proceed_holds_key, recorded_never_proceeds,
}
use ms_integracion_smartsupe.Idempotency.Records.{ttl_ms_default, registrar_encolado, store_record}
use ms_integracion_smartsupe.Queue.Script.Claim.{claim_item}
use ms_integracion_smartsupe.Queue.Consistent.{IsConsistent}
use ms_integracion_smartsupe.Queue.Keeps.Worker.{claim_item-Advance}
use ms_integracion_smartsupe.Queue.History.Safety.{no_keys-IsConsistent, play-IsConsistent}
use ms_integracion_smartsupe.Queue.Script.Enqueue.{EnqueueArgs, fresh_item, enqueue, insert_new}
use ms_integracion_smartsupe.Queue.Script.Finish.{mark_sfc_done, mark_success}
use ms_integracion_smartsupe.Queue.Script.Fail.{register_failure}
use ms_integracion_smartsupe.Queue.Service.{
  Settings, enqueue_args, encolar_despacho, marcar_sfc_completado, registrar_fallo, fail_args,
}
use ms_integracion_smartsupe.Queue.Service.Newest.{
  queued, encolar_newest, encolar_despacho-IsConsistent,
}
use ms_integracion_smartsupe.Queue.Service.Persist.{persisted, sfc_completado_answers}
use ms_integracion_smartsupe.Queue.Service.Queued.{registered, queued_is_reported}
use ms_integracion_smartsupe.Queue.Service.Retries.{Failed, failed, failure_reschedules_or_ends}
use ms_integracion_smartsupe.Queue.Service.Purge.{
  purgar_estado, purge_loses_replayed, purge_keeps_waiting, has,
}
use ms_integracion_smartsupe.Queue.Script.Replay.{replay_item, is_replayed}
use ms_integracion_smartsupe.Queue.History.{Event, enqueues, claims, succeeds, AllNamed, play}
use ms_integracion_smartsupe.EndToEnd.{claimed_is_orphan}

-- A fraud report that also closes its case, its hash and its JSON text, and no rehash of old items.
abbrev fraud : Payload
fraud k =
    if str_eq k "tipo_fraude__c"
    then some (text "1")
    else if str_eq k "Status"
    then some (text "Closed")
    else none

abbrev sha : Payload → String
sha p = if is_present (p "CreatedDate") then "dated" else "undated"

abbrev dump : Payload → String
dump p = if is_present (p "tipo_fraude__c") then "{fraud}" else "{}"

abbrev rehash : String → Option String
rehash s = none

abbrev settings : Settings
settings = record { retry_interval_ms = 300000; max_retries = 10 }

abbrev all_up : ℕ → Link
all_up n = up

abbrev key : IdempotencyKey
key = key_of sha "1423" fraud

abbrev quiet : ℕ → Memory → Memory
quiet n d = d

-- A request comes for the first time, and again while it is processed.
abbrev first : Memory
first = (verified memory rehash all_up quiet key 100 empty).1

proceed_holds_key_example :
    (memory.get first (idempotency_key key) ≡ some (record_text (processing_record key 100)))
    × (memory.pttl first (idempotency_key key) ≡ some processing_ttl_ms)
unfolding verify_or_start read_first after_evaluation start_processing evaluate_record key_of run
proceed_holds_key_example = proceed_holds_key memory rehash all_up quiet key 100 empty refl

recorded_never_proceeds_example : (verified memory rehash all_up quiet key 200 first).0 ≢ proceed
unfolding infer_operation_type es_nueva es_cierre es_estado_cierre es_fraude compute_payload_hash
    verify_or_start read_first after_evaluation start_processing evaluate_record key_of run
recorded_never_proceeds_example =
    recorded_never_proceeds memory rehash all_up quiet key 200 (processing_record key 100) first
      refl refl (inl refl)

-- A report is queued over a connection that answers, and it is registered as QUEUED although the
-- first attempt is lost and the answer of the second is.
empty-IsConsistent : IsConsistent memory empty
empty-IsConsistent = no_keys-IsConsistent memory empty (λ k. refl) (λ s i. refl)

abbrev report : Item
report =
    fresh_item (enqueue_args memory sha dump settings "1423" "AUTO" fraud "SFC caída" "N/A" 1000) 1

abbrev unlucky : ℕ → Link
unlucky n = if n == 2 then request_lost else if n == 1 then reply_lost else up

abbrev one_waits : Memory
one_waits = (queued memory sha dump settings up empty "1423" "AUTO" fraud "SFC caída" "N/A" 1000).2

encolar_newest_example :
    (id : ℕ) × (memory.get one_waits (index_key "1423" (infer_operation_type fraud))
      ≡ some (reference id))
    × (memory.get one_waits (item_key id) ≡ some (item_text report))
    × (memory.sismember one_waits pending_set id ≡ true)
    × (report.payload_json ≡ dump fraud)
    × (report.payload_hash ≡ some (compute_payload_hash sha fraud))
    × (report.sfc_completado ≡ false)
    × (report.sfc_response ≡ none)
    × (report.intentos ≡ some 1)
    × (report.estado ≡ pending)
unfolding encolar_despacho call enqueue insert_new run enqueue_args
encolar_newest_example =
    encolar_newest memory sha dump settings up empty "1423" "AUTO" fraud "SFC caída" "N/A" 1000
      report refl

queued_is_reported_example :
    verified memory rehash all_up quiet key 5000
      (registered memory sha dump settings up empty "1423" "AUTO" fraud "SFC caída" "N/A" 1000 3
        unlucky report ttl_ms_default).1
    ≡ (
      already_queued,
      (registered memory sha dump settings up empty "1423" "AUTO" fraud "SFC caída" "N/A" 1000 3
          unlucky report ttl_ms_default).1,
    )
unfolding encolar_despacho call enqueue insert_new run enqueue_args registrar_encolado store_record
    retry resume compute_payload_hash canonical
queued_is_reported_example =
    queued_is_reported memory sha dump settings up empty "1423" "AUTO" fraud "SFC caída" "N/A" 1000
      3 unlucky report ttl_ms_default rehash all_up 5000 empty-IsConsistent refl refl refl refl refl

-- A worker takes the report, sends it, and loses two answers before SFC_DONE is acknowledged.
abbrev taken : Memory
taken = run memory one_waits (claim_item memory one_waits 1 "w1" 60000).1

one_waits-IsConsistent : IsConsistent memory one_waits
one_waits-IsConsistent =
    encolar_despacho-IsConsistent memory sha dump settings up empty "1423" "AUTO" fraud "SFC caída"
      "N/A" 1000 empty-IsConsistent refl

taken-IsConsistent : IsConsistent memory taken
taken-IsConsistent =
    (claim_item-Advance memory one_waits one_waits-IsConsistent 1 "w1" 60000).consistent

sfc_completado_answers_example :
    verified memory rehash all_up quiet
      (completed_key sha "1423" fraud none)
      9500
      (persisted memory sha dump settings 3 unlucky taken 1 "w1" 1 "1423" fraud
        (some "{ok}")
        none
        9000).1
    ≡ (
      already_done (some "{ok}"),
      (persisted memory sha dump settings 3 unlucky taken 1 "w1" 1 "1423" fraud
          (some "{ok}")
          none
          9000).1,
    )
unfolding encolar_despacho call enqueue insert_new run enqueue_args claim_item marcar_sfc_completado
    retry resume mark_sfc_done
sfc_completado_answers_example =
    sfc_completado_answers memory sha dump settings 3 unlucky taken 1 "w1" 1 "1423" fraud
      (some "{ok}") none 9000 rehash all_up 9500 refl refl

-- The attempt fails instead; the answer of the last DELETE would be lost.
abbrev in_hand : Item
in_hand = record report { estado = processing }

failure_reschedules_or_ends_example :
    (stored : Item) × (memory.get taken (item_key 1) ≡ some (item_text stored))
    × (version_or_one stored.version ≡ 1)
    × Failed memory 1
        (fail_args memory sha dump settings in_hand "timeout" true 9000)
        stored
        (failed memory sha dump settings up reply_lost taken in_hand
          (some fraud)
          "timeout"
          "w1"
          9000
          true).2
    × ((fail_args memory sha dump settings in_hand "timeout" true 9000).es_definitivo ≡ false)
    × ((fail_args memory sha dump settings in_hand "timeout" true 9000).proximo_reintento ≡ 609000)
    × ((failed memory sha dump settings up reply_lost taken in_hand
          (some fraud)
          "timeout"
          "w1"
          9000
          true).1
        ≡ [])
unfolding encolar_despacho call enqueue insert_new run enqueue_args claim_item registrar_fallo
    register_failure fail_args
failure_reschedules_or_ends_example =
    failure_reschedules_or_ends memory sha dump settings up reply_lost taken in_hand (some fraud)
      "timeout" "w1" 9000 true taken-IsConsistent refl

claimed_is_orphan_example :
    (item_sigue_vigente memory rehash up taken (some 1) "undated" ≡ false)
    × (memory.sismember taken pending_set 1 ≡ true)
unfolding encolar_despacho call enqueue insert_new run enqueue_args claim_item compute_payload_hash
    canonical
claimed_is_orphan_example =
    claimed_is_orphan memory rehash one_waits 0 60000 "w1" "undated" in_hand refl refl

-- A failed item, old enough for the purge.
abbrev dead : Item
dead = record report { estado = failed_final }

abbrev all_failed : Memory
all_failed =
    run memory empty
      (set (item_key 1) (item_text dead) ∷ sadd failed_set 1 ∷ set counter_key (count 1) ∷ [])

purge_loses_replayed_example :
    (is_replayed (replay_item memory all_failed 1 9000).0 ≡ true)
    × (memory.get
          (purgar_estado memory
            (λ i. all_failed)
            up
            (run memory all_failed (replay_item memory all_failed 1 9000).1)
            failed_set
            5000
            (1 ∷ [])).1
          (item_key 1)
        ≡ none)
    × (memory.sismember
          (purgar_estado memory
            (λ i. all_failed)
            up
            (run memory all_failed (replay_item memory all_failed 1 9000).1)
            failed_set
            5000
            (1 ∷ [])).1
          pending_set
          1
        ≡ true)
unfolding run enqueue_args operacion_sufijo
purge_loses_replayed_example =
    purge_loses_replayed memory all_failed 1 5000 9000 dead refl refl refl refl

-- One report is completed and another waits when the completed items are purged.
abbrev update : EnqueueArgs
update = enqueue_args memory sha dump settings "77" "AUTO" (λ k. none) "SFC caída" "N/A" 1000

abbrev one_done : List Event
one_done =
    enqueues (enqueue_args memory sha dump settings "1423" "AUTO" fraud "SFC caída" "N/A" 1000)
    ∷ enqueues update
    ∷ claims 1 "w1" 60000
    ∷ succeeds 1 "w1" 1 4000
    ∷ []

abbrev scanned : Memory
scanned = play memory empty one_done

one_done_named : AllNamed one_done
unfolding enqueue_args
one_done_named = (
  (refl, infer_operation_type-ne-empty fraud),
  ((refl, infer_operation_type-ne-empty (λ k. none)), (tt, (tt, tt))),
)

scanned-IsConsistent : IsConsistent memory scanned
scanned-IsConsistent = play-IsConsistent memory empty one_done one_done_named empty-IsConsistent

only_one_done : (i : ℕ) → has i (1 ∷ []) ≡ true → memory.sismember scanned completed_set i ≡ true
unfolding play run enqueue_args enqueue insert_new claim_item mark_success
only_one_done i h = ground arith

purge_keeps_waiting_example :
    (memory.get
        (purgar_estado memory (λ i. scanned) up scanned completed_set 5000 (1 ∷ [])).1
        (item_key 2)
      ≡ memory.get scanned (item_key 2))
    × (memory.sismember
          (purgar_estado memory (λ i. scanned) up scanned completed_set 5000 (1 ∷ [])).1
          pending_set
          2
        ≡ memory.sismember scanned pending_set 2)
unfolding play run enqueue_args enqueue insert_new claim_item mark_success infer_operation_type
    es_nueva es_cierre es_estado_cierre es_fraude tiene_campos_m3
purge_keeps_waiting_example =
    purge_keeps_waiting memory completed_set refl 2 scanned (λ i. scanned) up scanned 5000 (1 ∷ [])
      scanned-IsConsistent only_one_done refl

infer_operation_type_iff_example :
    ((infer_operation_type fraud ≡ "M2_CREATION")
      ↔ (IsNew fraud × ((HasLater fraud → ⊥) × ((IsFraud fraud → ⊥) × (IsClosing fraud → ⊥)))))
    × ((infer_operation_type fraud ≡ "M3_FRAUD_AND_CLOSE") ↔ (IsFraud fraud × IsClosing fraud))
    × ((infer_operation_type fraud ≡ "M3_FRAUD") ↔ (IsFraud fraud × (IsClosing fraud → ⊥)))
    × ((infer_operation_type fraud ≡ "M3_CLOSE") ↔ ((IsFraud fraud → ⊥) × IsClosing fraud))
    × ((infer_operation_type fraud ≡ "M3_UPDATE")
        ↔ (((IsNew fraud → ⊥) ⊎ HasLater fraud) × ((IsFraud fraud → ⊥) × (IsClosing fraud → ⊥))))
infer_operation_type_iff_example = infer_operation_type_iff fraud
