-- ===== src/IdempotencyRecord.antt =====
-- What app/services/idempotency_service.py stores in Redis for one operation on a case: the key
-- `{sfc:idempotency}:<smart_code>:<operation>:<payload_hash>` by its parts, and the record. The
-- `source` of a record, the name of the caller, takes no part in any decision and is left out.
use ms_integracion_smartsupe.Prelude.{ℕ, String, Option}

pub data IdempotencyStatus : Type 0 where
  idempotency_completed idempotency_processing idempotency_queued : IdempotencyStatus

pub record IdempotencyKey : Type 0 where
  pub smart_code : String
  pub operation : String
  pub payload_hash : String

pub record IdempotencyRecord : Type 0 where
  pub smart_code : String
  pub operation : String
  pub payload_hash : String
  pub status : IdempotencyStatus
  pub created_at : ℕ
  pub completed_at : Option ℕ
  pub sfc_response : Option String
  pub error_msg : Option String
  pub queue_item_id : Option ℕ
