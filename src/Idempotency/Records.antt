-- ===== src/Idempotency/Records.antt =====
-- The writes of `IdempotencyService` outside the check of a request: `registrar_exito`,
-- `registrar_encolado`, `liberar_por_fallo_definitivo` and `liberar_operacion_por_error`.
use ms_integracion_smartsupe.Prelude.{
  ℕ, ◌*◌, String, ◌≡◌, refl, Option, none, some, List, [], ◌∷◌, arith, eq_iff,
}
use ms_integracion_smartsupe.Classification.{Payload}
use ms_integracion_smartsupe.IdempotencyRecord.{
  IdempotencyKey, IdempotencyRecord, idempotency_queued,
}
use ms_integracion_smartsupe.Redis.{
  Redis, Command, item_key, idempotency_key, record_text, set_px, del, get-run, pttl-run,
}
use ms_integracion_smartsupe.Remote.{Link, call, retry, retry-reached, retry-keeps}
use ms_integracion_smartsupe.Idempotency.Payload.{completed_key, completed_record, key_of}

-- `TTL_DAYS_DEFAULT`, in milliseconds.
abbrev pub ttl_ms_default : ℕ
ttl_ms_default = 30 * 86400 * 1000

-- A method that returns nothing has returned.
pub data Returned : Type 0 where
  returned : Returned

-- The record of `registrar_encolado`.
abbrev pub queued_record : IdempotencyKey → String → Option ℕ → ℕ → IdempotencyRecord
queued_record k error registro_id now = record {
  smart_code = k.smart_code;
  operation = k.operation;
  payload_hash = k.payload_hash;
  status = idempotency_queued;
  created_at = now;
  completed_at = none;
  sfc_response = none;
  error_msg = some error;
  queue_item_id = registro_id;
}

module _ (R : Redis) where
  open R use {Db, get, pttl}

  abbrev set_record : IdempotencyKey → IdempotencyRecord → ℕ → Db → Option Returned × List Command
  set_record k r ttl_ms db = (some returned, set_px (idempotency_key k) (record_text r) ttl_ms ∷ [])

  -- The loop over `max_intentos_persistencia` attempts; `none` is the RuntimeError after it.
  unfoldable pub store_record :
      ℕ → (ℕ → Link) → Db → IdempotencyKey → IdempotencyRecord → ℕ → Option Returned × Db
  store_record attempts links db k r ttl_ms = retry R attempts links (set_record k r ttl_ms) db

  module _ (sha : Payload → String) where
    unfoldable pub registrar_exito :
        ℕ → (ℕ → Link) → Db → String → Payload → Option String → ℕ → ℕ → Option Returned × Db
    registrar_exito attempts links db smart_code payload sfc_response ttl_ms now =
        store_record attempts links db (completed_key sha smart_code payload none)
          (completed_record sha smart_code payload sfc_response none now) ttl_ms

    unfoldable pub registrar_encolado :
        ℕ → (ℕ → Link) → Db → String → Payload → String → Option ℕ → ℕ → ℕ → Option Returned × Db
    registrar_encolado attempts links db smart_code payload error_msg registro_id ttl_ms now =
        store_record attempts links db (key_of sha smart_code payload)
          (queued_record (key_of sha smart_code payload) error_msg registro_id now) ttl_ms

    -- The DELETE of both `liberar_…` methods; its failure is only logged.
    unfoldable pub liberar : Link → Db → String → Payload → Db
    liberar link db smart_code payload =
        (call R link db
          (some returned, del (idempotency_key (key_of sha smart_code payload)) ∷ [])).1

  module _ (attempts : ℕ) (links : ℕ → Link) (db : Db) (k : IdempotencyKey) (r : IdempotencyRecord)
      (ttl_ms : ℕ) where
    abbrev pub stored : Option Returned × Db
    stored = store_record attempts links db k r ttl_ms

    -- A loop that returns has left its record and its expiry under the key.
    pub store_record_lem :
        stored.0 ≡ some returned
        → (get stored.1 (idempotency_key k) ≡ some (record_text r))
          × (pttl stored.1 (idempotency_key k) ≡ some ttl_ms)
    unfolding store_record
    store_record_lem h =
        retry-reached R (set_record k r ttl_ms)
          (λ u db'.
            (get db' (idempotency_key k) ≡ some (record_text r))
            × (pttl db' (idempotency_key k) ≡ some ttl_ms))
          (λ db' u e. ground (
            arith,
            get-run R db' (set_record k r ttl_ms db').1 (idempotency_key k),
            pttl-run R db' (set_record k r ttl_ms db').1 (idempotency_key k),
            eq_iff k.smart_code k.smart_code,
            eq_iff k.operation k.operation,
            eq_iff k.payload_hash k.payload_hash,
          ))
          attempts links db returned h

    -- The loop writes nothing but the record of its key.
    pub store_record-keeps_item : (x : ℕ) → get stored.1 (item_key x) ≡ get db (item_key x)
    unfolding store_record
    store_record-keeps_item x =
        retry-keeps R (set_record k r ttl_ms) (λ db'. get db' (item_key x) ≡ get db (item_key x))
          (λ db' e. ground (arith, get-run R db' (set_record k r ttl_ms db').1 (item_key x)))
          attempts links db refl
