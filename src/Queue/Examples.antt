-- ===== src/Queue/Examples.antt =====
-- Runs of the scripts on the keyspace in memory, and instances of the theorems about them.
use ms_integracion_smartsupe.Prelude.{ℕ, ◌≡◌, refl, true, false, some, none, List, [], ◌∷◌}
use ms_integracion_smartsupe.Status.{processing, completed}
use ms_integracion_smartsupe.Item.{Item}
use ms_integracion_smartsupe.IdempotencyRecord.{
  IdempotencyKey, IdempotencyRecord, idempotency_completed,
}
use ms_integracion_smartsupe.Redis.{item_key, claim_key, item_text, del, run, pending_zset, is_some}
use ms_integracion_smartsupe.Redis.Memory.{Memory, memory, empty}
use ms_integracion_smartsupe.Queue.Script.Types.{version_mismatch}
use ms_integracion_smartsupe.Queue.Script.Enqueue.{EnqueueArgs, enqueue, overwritten, fresh_item}
use ms_integracion_smartsupe.Queue.Script.Claim.{claim_item, extend_lease}
use ms_integracion_smartsupe.Queue.Script.Finish.{mark_success, mark_sfc_done}
use ms_integracion_smartsupe.Queue.Script.Fail.{FailArgs, register_failure}
use ms_integracion_smartsupe.Queue.Consistent.{IsConsistent, is_live}
use ms_integracion_smartsupe.Queue.History.{Event, enqueues, claims, extends, AllNamed, play}
use ms_integracion_smartsupe.Queue.History.Safety.{
  play_one_per_slot, play_scheduled, no_keys-IsConsistent,
}
use ms_integracion_smartsupe.Queue.History.Versions.{version_pins_content}
use ms_integracion_smartsupe.Queue.Race.Overwrite.{overwrite_protects}
use ms_integracion_smartsupe.Queue.Race.Lease.{leased, done, completed_is_claimed}
use ms_integracion_smartsupe.Queue.Keeps.Producer.{enqueue-Advance}

-- A fraud report, and the same report again with other content.
abbrev fraud : EnqueueArgs
fraud = record {
  smart_code = "1423";
  tipo_operacion = "AUTO";
  payload_json = "{first}";
  error_inicial = "SFC caída";
  max_intentos = 10;
  now = 1000;
  proximo_reintento = 301000;
  correlation_id = "N/A";
  payload_hash = "aa";
  operacion = "M3_FRAUD";
}

abbrev fraud_again : EnqueueArgs
fraud_again = record fraud { payload_json = "{second}"; payload_hash = "bb"; now = 2000 }

abbrev closing : EnqueueArgs
closing = record fraud { operacion = "M3_CLOSE"; payload_json = "{close}"; payload_hash = "cc" }

abbrev report_key : IdempotencyKey
report_key = record { smart_code = "1423"; operation = "M3_FRAUD"; payload_hash = "aa" }

abbrev report_done : IdempotencyRecord
report_done = record {
  smart_code = "1423";
  operation = "M3_FRAUD";
  payload_hash = "aa";
  status = idempotency_completed;
  created_at = 9000;
  completed_at = some 9000;
  sfc_response = none;
  error_msg = none;
  queue_item_id = none;
}

abbrev failure : FailArgs
failure = record {
  error_msg = "timeout";
  now = 5000;
  es_definitivo = false;
  proximo_reintento = 305000;
  consumir_intento = true;
}

empty-IsConsistent : IsConsistent memory empty
empty-IsConsistent = no_keys-IsConsistent memory empty (λ k. refl) (λ s i. refl)

-- Two obligations of one case wait.
abbrev two_wait : List Event
two_wait = enqueues fraud ∷ enqueues closing ∷ enqueues fraud_again ∷ []

abbrev two_named : AllNamed two_wait
two_named = ((refl, refl), ((refl, refl), ((refl, refl), tt)))

abbrev queue_one : Memory
queue_one = run memory empty (enqueue memory empty fraud).1

-- A worker holds the report.
abbrev held : Memory
held = run memory queue_one (claim_item memory queue_one 1 "w1" 60000).1

queue_one_holds : queue_one.strings (item_key 1) ≡ some (item_text (fresh_item fraud 1))
unfolding enqueue run
queue_one_holds = refl

queue_one-IsConsistent : IsConsistent memory queue_one
queue_one-IsConsistent =
    (enqueue-Advance memory empty empty-IsConsistent fraud refl refl).consistent

-- A worker takes the report, and the case is reported again before it is done.
abbrev taken : Item
taken = record (fresh_item fraud 1) { estado = processing }

abbrev then_done : List Event
then_done = extends 1 "w1" 60000 ∷ []

completed_is_claimed_example :
    (it : Item) × (memory.get
        (done memory
          (play memory (leased memory queue_one 1 "w1" 60000 taken) then_done)
          1
          "w1"
          1
          9000)
        (item_key 1)
      ≡ some (item_text it))
    × (it.estado ≡ completed)
    × (it.payload_json ≡ "{first}")
    × (it.payload_hash ≡ some "aa")
unfolding enqueue run play claim_item mark_success extend_lease
completed_is_claimed_example =
    completed_is_claimed memory queue_one queue_one-IsConsistent 1 60000 9000 "w1" "w1" taken
      then_done (tt, tt) refl refl

play_one_per_slot_example : ◌≡◌ {A = ℕ} 1 1
unfolding play run enqueue
play_one_per_slot_example =
    play_one_per_slot memory empty two_wait 1 1 (overwritten fraud_again (fresh_item fraud 1))
      (overwritten fraud_again (fresh_item fraud 1)) two_named empty-IsConsistent refl refl refl
      refl refl refl

overwrite_protects_example :
    (mark_success memory (run memory held (enqueue memory held fraud_again).1) 1 "w1" 1 9000
      ≡ (version_mismatch, del (claim_key 1) ∷ []))
    × (mark_sfc_done memory
          (run memory held (enqueue memory held fraud_again).1)
          1
          "w1"
          1
          9000
          none
          report_key
          report_done
          60000
        ≡ (version_mismatch, del (claim_key 1) ∷ []))
    × (register_failure memory
          (run memory held (enqueue memory held fraud_again).1)
          1
          "w1"
          1
          failure
        ≡ (version_mismatch, del (claim_key 1) ∷ []))
unfolding enqueue run claim_item
overwrite_protects_example =
    overwrite_protects memory held fraud_again 1 taken refl refl refl "w1" 9000 none report_key
      report_done 60000 failure refl

version_pins_content_example :
    (taken.payload_json ≡ (fresh_item fraud 1).payload_json)
    × (taken.payload_hash ≡ (fresh_item fraud 1).payload_hash)
unfolding enqueue run play claim_item
version_pins_content_example =
    version_pins_content memory queue_one queue_one-IsConsistent (claims 1 "w1" 60000 ∷ []) 1
      (fresh_item fraud 1) taken (tt, tt) refl refl refl

play_scheduled_example :
    (it : Item) × (memory.get (play memory empty two_wait) (item_key 2) ≡ some (item_text it))
    × (is_live it.estado ≡ true)
    × (is_some (memory.zscore (play memory empty two_wait) pending_zset 2) ≡ true)
unfolding play run enqueue
play_scheduled_example = play_scheduled memory empty two_wait 2 two_named empty-IsConsistent refl
