-- ===== src/Queue/Service/Queued.antt =====
-- A request that was put in the queue and registered as QUEUED is not sent again.
use ms_integracion_smartsupe.Prelude.{
  ℕ, String, ◌≡◌, ◌∙◌, refl, ap, true, false, Option, some, arith, eq_iff, str_eq,
}
use ms_integracion_smartsupe.Status.{pending}
use ms_integracion_smartsupe.Item.{Item}
use ms_integracion_smartsupe.Classification.{Payload}
use ms_integracion_smartsupe.IdempotencyRecord.{
  IdempotencyKey, IdempotencyRecord, idempotency_queued,
}
use ms_integracion_smartsupe.Redis.{Redis, item_key, idempotency_key, item_text, record_text}
use ms_integracion_smartsupe.Remote.{Link, up}
use ms_integracion_smartsupe.Idempotency.{
  already_queued, verify_or_start, read_first, after_evaluation, evaluate_record,
  item_sigue_vigente,
}
use ms_integracion_smartsupe.Idempotency.Payload.{compute_payload_hash, key_of}
use ms_integracion_smartsupe.Idempotency.Barrier.{verified}
use ms_integracion_smartsupe.Idempotency.Records.{
  Returned, returned, registrar_encolado, queued_record, store_record_lem, store_record-keeps_item,
}
use ms_integracion_smartsupe.Queue.Consistent.{IsConsistent}
use ms_integracion_smartsupe.Queue.Service.{Settings}
use ms_integracion_smartsupe.Queue.Service.Newest.{
  queued, encolar_newest, encolar_despacho-IsConsistent,
}

module _ (R : Redis) (rehash : String → Option String) (links : ℕ → Link) (k : IdempotencyKey)
    (later : ℕ) (db : R.Db) where
  open R use {get}

  queued_answers :
      (r : IdempotencyRecord) (it : Item)
      → links 0 ≡ up
      → get db (idempotency_key k) ≡ some (record_text r)
      → str_eq r.payload_hash k.payload_hash ≡ true
      → r.status ≡ idempotency_queued
      → r.queue_item_id ≡ some it.id
      → get db (item_key it.id) ≡ some (item_text it)
      → it.estado ≡ pending
      → it.payload_hash ≡ some k.payload_hash
      → str_eq k.payload_hash "" ≡ false
      → verified R rehash links (λ n d. d) k later db ≡ (already_queued, db)
  unfolding verify_or_start read_first after_evaluation evaluate_record item_sigue_vigente
  queued_answers r it l present same s i e p h n =
      ground (arith, eq_iff k.payload_hash k.payload_hash)

module _ (R : Redis) (sha dump : Payload → String) (settings : Settings) (link : Link) (db : R.Db)
    (smart_code tipo_operacion : String) (p : Payload) (error correlation_id : String) (now : ℕ)
    (attempts : ℕ) (links : ℕ → Link) (it : Item) (ttl_ms : ℕ) where
  open R use {Db, get}

  abbrev pub waiting : Db
  waiting =
      (queued R sha dump settings link db smart_code tipo_operacion p error correlation_id now).2

  abbrev pub registered : Option Returned × Db
  registered =
      registrar_encolado R sha attempts links waiting smart_code p error (some it.id) ttl_ms now

  -- When `encolar_despacho` has returned an item on a consistent queue and `registrar_encolado`
  -- has returned, whatever calls and answers its attempts lost, the same request is answered with
  -- `already_queued` and nothing is written, provided that its first read is answered. A hash is
  -- taken to be no empty text.
  pub queued_is_reported :
      (rehash : String → Option String) (links' : ℕ → Link) (later : ℕ)
      → IsConsistent R db
      → str_eq smart_code "" ≡ false
      → str_eq (compute_payload_hash sha p) "" ≡ false
      → (queued R sha dump settings link db smart_code tipo_operacion p error correlation_id now).0
        ≡ some it
      → registered.0 ≡ some returned
      → links' 0 ≡ up
      → verified R rehash links' (λ n d. d) (key_of sha smart_code p) later registered.1
        ≡ (already_queued, registered.1)
  unfolding registrar_encolado key_of
  queued_is_reported rehash links' later inv named hashed e r l =
      let (id, _, item, _, _, hash, _, _, _, state) =
        encolar_newest R sha dump settings link db smart_code tipo_operacion p error correlation_id
          now it e in
      let own =
        (encolar_despacho-IsConsistent R sha dump settings link db smart_code tipo_operacion p error
            correlation_id now inv named).own_id
          id it item in
      let k : IdempotencyKey = key_of sha smart_code p in
      let t : IdempotencyRecord = queued_record k error (some it.id) now in
      queued_answers R rehash links' k later registered.1 t it l
        (store_record_lem R attempts links waiting k t ttl_ms r).0
        ((eq_iff k.payload_hash k.payload_hash).1 refl) refl refl
        (store_record-keeps_item R attempts links waiting k t ttl_ms it.id
          ∙ (ap (λ n. get waiting (item_key n)) own ∙ item))
        state hash hashed
