-- ===== src/Scheduler/Examples.antt =====
-- Turns and cycles of the scheduler on the keyspace in memory, and instances of the theorems about
-- them.
use ms_integracion_smartsupe.Prelude.{
  ◌+◌, ◌*◌, ℕ, ◌≤◌, String, ◌≡◌, refl, Bool, true, false, Option, some, none, [], ◌∷◌, ◌⊎◌,
}
use ms_integracion_smartsupe.Status.{processing}
use ms_integracion_smartsupe.Item.{Item}
use ms_integracion_smartsupe.Classification.{
  Payload, es_cierre, es_estado_cierre, es_fraude, es_nueva, infer_operation_type,
}
use ms_integracion_smartsupe.Redis.{run}
use ms_integracion_smartsupe.Redis.Memory.{Memory, memory, empty}
use ms_integracion_smartsupe.Remote.{up, call, retry, resume}
use ms_integracion_smartsupe.Queue.Script.Enqueue.{EnqueueArgs, enqueue, fresh_item}
use ms_integracion_smartsupe.Queue.Script.Claim.{claim_item}
use ms_integracion_smartsupe.Queue.Script.Finish.{mark_success, mark_sfc_done}
use ms_integracion_smartsupe.Queue.Consistent.{IsConsistent}
use ms_integracion_smartsupe.Queue.Keeps.Producer.{enqueue-Advance}
use ms_integracion_smartsupe.Queue.History.{play}
use ms_integracion_smartsupe.Queue.History.Safety.{no_keys-IsConsistent}
use ms_integracion_smartsupe.Queue.Race.Lease.{leased}
use ms_integracion_smartsupe.Queue.Service.{Settings, marcar_exitoso, marcar_sfc_completado}
use ms_integracion_smartsupe.Scheduler.{
  Failure, Turn, sfc_result, sfc_raises, crm_notified, paso_sfc, after_sfc, paso_crm, after_crm,
  procesar_item,
}
use ms_integracion_smartsupe.Scheduler.Completion.{Completed, success_completes}
use ms_integracion_smartsupe.Scheduler.Recorded.{IsRecorded, told-IsRecorded}
use ms_integracion_smartsupe.Scheduler.Cycle.{ciclo, start}
use ms_integracion_smartsupe.Scheduler.Contacts.{sends, tells}
use ms_integracion_smartsupe.Scheduler.Outage.{IsOutage, outage_sends_few}
use ms_integracion_smartsupe.Scheduler.Steps.{TurnIsNamed, ciclo-IsConsistent}

abbrev nothing : Payload
nothing k = none

abbrev sha : Payload → String
sha p = "aa"

abbrev dump : Payload → String
dump p = "{}"

abbrev load : String → Option Payload
load s = some nothing

abbrev settings : Settings
settings = record { retry_interval_ms = 300000; max_retries = 10 }

abbrev never : String → Bool
never s = false

abbrev report : EnqueueArgs
report = record {
  smart_code = "1423";
  tipo_operacion = "AUTO";
  payload_json = "{}";
  error_inicial = "SFC caída";
  max_intentos = 10;
  now = 1000;
  proximo_reintento = 301000;
  correlation_id = "N/A";
  payload_hash = "aa";
  operacion = "M3_UPDATE";
}

-- A queue with one item, and the item as it is claimed.
abbrev queue_one : Memory
queue_one = run memory empty (enqueue memory empty report).1

queue_one-IsConsistent : IsConsistent memory queue_one
queue_one-IsConsistent =
    (enqueue-Advance memory empty (no_keys-IsConsistent memory empty (λ k. refl) (λ s i. refl))
      report refl refl).consistent

abbrev waiting : Item
waiting = fresh_item report 1

abbrev taken : Item
taken = record waiting { estado = processing }

-- Everything is answered, and both systems accept.
abbrev good_turn : Turn
good_turn = record {
  lock_link = up;
  claim_link = up;
  persist_links = λ n. up;
  mark_link = up;
  fail_link = up;
  release_link = up;
  unlock_link = up;
  sfc = sfc_result "{status: success}";
  crm = crm_notified;
  before_claim = [];
  during_sfc = [];
  during_crm = [];
  now = 2000;
}

abbrev timeout : Failure
timeout = record { message = "timeout"; es_transitoria = true }

-- The SFC is not reached.
abbrev bad_turn : Turn
bad_turn = record good_turn { sfc = sfc_raises timeout }

abbrev bad_turn-IsOutage : IsOutage bad_turn
bad_turn-IsOutage = record { sfc_failure = timeout; sfc_fails = refl; sfc_transient = refl }

abbrev named : TurnIsNamed good_turn
named = (tt, tt, tt)

abbrev one_lease : Memory
one_lease = leased memory queue_one 1 "w1" 60000 taken

success_completes_example :
    Completed memory sha dump settings load never never
      (procesar_item memory sha dump settings load never never good_turn one_lease taken "w1").db
      taken
unfolding enqueue run claim_item procesar_item paso_sfc after_sfc paso_crm after_crm
    marcar_sfc_completado retry resume call mark_sfc_done marcar_exitoso mark_success play
success_completes_example =
    success_completes memory sha dump settings load never never queue_one queue_one-IsConsistent
      "w1" 60000 taken refl good_turn named refl

told-IsRecorded_example :
    (taken.sfc_completado ≡ true)
    ⊎ ((response : String) × (good_turn.sfc ≡ sfc_result response)
        × IsRecorded memory sha dump settings load never never
            (paso_sfc memory sha dump settings load never never good_turn one_lease taken "w1").db
            taken
            response
            2000)
unfolding enqueue run claim_item procesar_item paso_sfc after_sfc paso_crm after_crm
    marcar_sfc_completado retry resume call mark_sfc_done marcar_exitoso mark_success play
    infer_operation_type es_nueva es_cierre es_estado_cierre es_fraude
told-IsRecorded_example =
    told-IsRecorded memory sha dump settings load never never good_turn one_lease taken "w1" refl

abbrev lock_name : String → String
lock_name c = c

abbrev token : ℕ → String
token n = "t"

ciclo-IsConsistent_example :
    IsConsistent memory
      (ciclo memory sha dump settings load never never lock_name token
        (λ n. good_turn)
        (λ n. up)
        2000
        "w1"
        (waiting ∷ [])
        (start memory sha dump settings load never never lock_name token queue_one)).db
ciclo-IsConsistent_example =
    ciclo-IsConsistent memory sha dump settings load never never lock_name token (λ n. good_turn)
      (λ n. up) 2000 "w1" (waiting ∷ [])
      (start memory sha dump settings load never never lock_name token queue_one) (λ n. named)
      queue_one-IsConsistent

outage_sends_few_example :
    sends
      (ciclo memory sha dump settings load never never lock_name token
        (λ n. bad_turn)
        (λ n. up)
        2000
        "w1"
        (waiting ∷ [])
        (start memory sha dump settings load never never lock_name token queue_one)).effects
    ≤ 3
      + 2
        * tells
            (ciclo memory sha dump settings load never never lock_name token
              (λ n. bad_turn)
              (λ n. up)
              2000
              "w1"
              (waiting ∷ [])
              (start memory sha dump settings load never never lock_name token queue_one)).effects
outage_sends_few_example =
    outage_sends_few memory sha dump settings load never never lock_name token (λ n. bad_turn)
      (λ n. up) 2000 "w1" (waiting ∷ []) queue_one (λ n. bad_turn-IsOutage)
