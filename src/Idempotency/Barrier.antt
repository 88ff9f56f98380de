-- ===== src/Idempotency/Barrier.antt =====
-- No request passes the barrier twice.
use ms_integracion_smartsupe.Prelude.{
  ℕ, String, ◌≡◌, ◌≢◌, ◌⊎◌, ap, if◌then◌else◌, Bool, true, false, Option, some, List, [], ◌∷◌,
  arith, eq_iff, str_eq,
}
use ms_integracion_smartsupe.IdempotencyRecord.{
  IdempotencyKey, IdempotencyRecord, idempotency_completed, idempotency_processing,
  idempotency_queued, IdempotencyStatus,
}
use ms_integracion_smartsupe.Redis.{
  Redis, Command, Value, idempotency_key, record_text, set_px, get-run, pttl-run,
}
use ms_integracion_smartsupe.Remote.{Link, up, request_lost, reply_lost}
use ms_integracion_smartsupe.Idempotency.{
  Verdict, Evaluation, answer, orphan, nothing, broken, drop_orphan, after_evaluation, read_first,
  proceed, already_done, in_process, verify_or_start, start_processing, evaluate_record,
  processing_record, processing_ttl_ms,
}

abbrev pub is_completed : IdempotencyStatus → Bool
is_completed idempotency_completed = true
is_completed _ = false

abbrev pub is_queued : IdempotencyStatus → Bool
is_queued idempotency_queued = true
is_queued _ = false

module _ (R : Redis) (rehash : String → Option String) (links : ℕ → Link) (others : ℕ → R.Db → R.Db)
    (k : IdempotencyKey) (now : ℕ) where
  open R use {Db, get, pttl}

  abbrev pub verified : Db → Verdict × Db
  verified = verify_or_start R rehash links others k now true

  claim_commands : List Command
  claim_commands =
      set_px (idempotency_key k) (record_text (processing_record k now)) processing_ttl_ms ∷ []

  -- What fails closed and lets a request pass has set the key.
  start_sound :
      (db : Db)
      → (start_processing R rehash links others k now true db).0 ≡ proceed
      → (get (start_processing R rehash links others k now true db).1 (idempotency_key k)
          ≡ some (record_text (processing_record k now)))
        × (pttl (start_processing R rehash links others k now true db).1 (idempotency_key k)
            ≡ some processing_ttl_ms)
  unfolding start_processing claim_commands
  start_sound db h = ground (
    arith,
    get-run R (others 3 db) claim_commands (idempotency_key k),
    pttl-run R (others 3 db) claim_commands (idempotency_key k),
    eq_iff k.smart_code k.smart_code,
    eq_iff k.operation k.operation,
    eq_iff k.payload_hash k.payload_hash,
  )

  -- An evaluation never lets a request pass by itself.
  evaluate-ne-proceed :
      (l : Link) (db : Db) (o : Option Value)
      → evaluate_record R rehash l db o k.payload_hash ≢ answer proceed
  unfolding evaluate_record
  evaluate-ne-proceed l db o h = ground arith

  abbrev PassesOnlyWithKey : Verdict × Db → Type 0
  PassesOnlyWithKey (v, db) =
      v ≡ proceed
      → (get db (idempotency_key k) ≡ some (record_text (processing_record k now)))
        × (pttl db (idempotency_key k) ≡ some processing_ttl_ms)

  drop_orphan_sound :
      (l : Link) (db : Db) → PassesOnlyWithKey (drop_orphan R rehash links others k now true l db)
  unfolding drop_orphan
  drop_orphan_sound up db h = start_sound _ h
  drop_orphan_sound request_lost db h = absurd (ground arith)
  drop_orphan_sound reply_lost db h = absurd (ground arith)

  after_evaluation_sound :
      (e : Evaluation) (db : Db)
      → e ≢ answer proceed
      → PassesOnlyWithKey (after_evaluation R rehash links others k now true e db)
  unfolding after_evaluation
  after_evaluation_sound (answer v) db n h = absurd (n (ap answer h))
  after_evaluation_sound orphan db n h = drop_orphan_sound (links 2) (others 2 db) h
  after_evaluation_sound nothing db n h = start_sound db h
  after_evaluation_sound broken db n h = absurd (ground arith)

  read_first_sound :
      (l : Link) (db : Db) → PassesOnlyWithKey (read_first R rehash links others k now true l db)
  unfolding read_first
  read_first_sound up db h =
      after_evaluation_sound _ (others 1 db) (evaluate-ne-proceed (links 1) (others 1 db) _) h
  read_first_sound request_lost db h = absurd (ground arith)
  read_first_sound reply_lost db h = absurd (ground arith)

  -- Failing closed, a request that may proceed has just written the PROCESSING record of its own
  -- key, with a lease of three minutes; so no lost call and no other client lets it pass without.
  pub proceed_holds_key :
      (db : Db)
      → (verified db).0 ≡ proceed
      → (get (verified db).1 (idempotency_key k) ≡ some (record_text (processing_record k now)))
        × (pttl (verified db).1 (idempotency_key k) ≡ some processing_ttl_ms)
  unfolding verify_or_start
  proceed_holds_key db = read_first_sound (links 0) db

  module _ (r : IdempotencyRecord) (db : Db)
      (present : get db (idempotency_key k) ≡ some (record_text r))
      (same_hash : str_eq r.payload_hash k.payload_hash ≡ true) where
    -- A check that fails closed: while the record of a key is PROCESSING or COMPLETED for this
    -- payload, no request with that key proceeds, whatever calls are lost and whatever other clients
    -- do after the first read.
    pub recorded_never_proceeds :
        (r.status ≡ idempotency_processing) ⊎ (r.status ≡ idempotency_completed)
        → (verified db).0 ≢ proceed
    unfolding verify_or_start read_first after_evaluation evaluate_record
    recorded_never_proceeds s h = ground arith

    -- When the first read is answered, a COMPLETED record of this payload is answered with the
    -- stored response of the SFC and a PROCESSING one with `processing`, and nothing is written.
    pub recorded_answers :
        links 0 ≡ up
        → is_queued r.status ≡ false
        → verified db
          ≡ (if is_completed r.status then already_done r.sfc_response else in_process, others 1 db)
    unfolding verify_or_start read_first after_evaluation evaluate_record
    recorded_answers l q = ground arith
