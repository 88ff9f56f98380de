-- ===== src/Queue/History.antt =====
-- Any interleaving of the scripts: producers, workers, the operator and the passing of time, in
-- whatever order Redis serves them.
pub mod Safety
pub mod Versions
pub mod Reach
use ms_integracion_smartsupe.Prelude.{
  ℕ, String, ◌≡◌, Bool, true, false, Option, List, [], ◌∷◌, str_eq,
}
use ms_integracion_smartsupe.IdempotencyRecord.{IdempotencyKey, IdempotencyRecord}
use ms_integracion_smartsupe.Redis.{
  Redis, Command, claim_key, idempotency_key, record_text, set_px, del, run,
}
use ms_integracion_smartsupe.Lock.{try_lock, extend_lock, release_lock}
use ms_integracion_smartsupe.Queue.Script.Enqueue.{EnqueueArgs, enqueue}
use ms_integracion_smartsupe.Queue.Script.Claim.{claim_item, extend_lease}
use ms_integracion_smartsupe.Queue.Script.Finish.{mark_success, mark_sfc_done}
use ms_integracion_smartsupe.Queue.Script.Fail.{FailArgs, register_failure}
use ms_integracion_smartsupe.Queue.Script.Replay.{replay_item}
use ms_integracion_smartsupe.Queue.Script.Defer.{defer_item}
use ms_integracion_smartsupe.Queue.Script.Cancel.{cancel_pending}

-- One script of the queue with its arguments; `lease_ends` is Redis dropping a claim whose PX has
-- run out. The rest are the writes beside the queue: SET and DEL of an idempotency record, and the
-- scripts of a lock. The purge, whose pipeline is no script, is not among them.
pub data Event : Type 0 where
  enqueues : EnqueueArgs → Event
  claims : ℕ → String → ℕ → Event
  extends : ℕ → String → ℕ → Event
  succeeds : ℕ → String → ℕ → ℕ → Event
  sfc_finishes : ℕ → String → ℕ → ℕ → Option String → IdempotencyKey → IdempotencyRecord → ℕ → Event
  fails : ℕ → String → ℕ → FailArgs → Event
  replays : ℕ → ℕ → Event
  defers : ℕ → ℕ → ℕ → ℕ → String → Event
  cancels : String → String → ℕ → String → Event
  lease_ends : ℕ → Event
  remembers : IdempotencyKey → IdempotencyRecord → ℕ → Event
  forgets : IdempotencyKey → Event
  locks : String → String → ℕ → Event
  renews : String → String → ℕ → Event
  unlocks : String → String → Event

-- A case has a code, and `infer_operation_type` names an operation.
abbrev pub IsNamed : Event → Type 0
IsNamed (enqueues a) = (str_eq a.smart_code "" ≡ false) × (str_eq a.operacion "" ≡ false)
IsNamed _ = Unit

abbrev pub AllNamed : List Event → Type 0
AllNamed [] = Unit
AllNamed (e ∷ es) = IsNamed e × AllNamed es

module _ (R : Redis) where
  open R use {Db}

  unfoldable pub commands : Db → Event → List Command
  commands db (enqueues a) = (enqueue R db a).1
  commands db (claims x w px) = (claim_item R db x w px).1
  commands db (extends x w px) = (extend_lease R db x w px).1
  commands db (succeeds x w v now) = (mark_success R db x w v now).1
  commands db (sfc_finishes x w v now r k t ttl) = (mark_sfc_done R db x w v now r k t ttl).1
  commands db (fails x w v a) = (register_failure R db x w v a).1
  commands db (replays x now) = (replay_item R db x now).1
  commands db (defers x v proximo now motivo) = (defer_item R db x v proximo now motivo).1
  commands db (cancels c o x h) = (cancel_pending R db c o x h).1
  commands db (lease_ends x) = del (claim_key x) ∷ []
  commands db (remembers k r ttl) = set_px (idempotency_key k) (record_text r) ttl ∷ []
  commands db (forgets k) = del (idempotency_key k) ∷ []
  commands db (locks k t s) = (try_lock R db k t s).1
  commands db (renews k t ms) = (extend_lock R db k t ms).1
  commands db (unlocks k t) = (release_lock R db k t).1

  unfoldable pub play : Db → List Event → Db
  unfolding commands
  play db [] = db
  play db (e ∷ es) = play (run R db (commands db e)) es
