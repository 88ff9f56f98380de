-- ===== src/Idempotency/Payload.antt =====
-- The hash and the key of a payload: `compute_payload_hash`, `construir_clave_completado`,
-- `construir_registro_completado`. `sha` is the SHA-256 of the JSON text of a payload with its
-- keys sorted, which the payload determines as a map.
use ms_integracion_smartsupe.Prelude.{
  ℕ, String, Bool, ◌||◌, ◌≡◌, refl, Option, none, some, arith, str_eq, if◌then◌else◌,
}
use mathlib.Core.Path.{fun_ext}
use ms_integracion_smartsupe.Classification.{
  Json, null, text, other, Payload, infer_operation_type, is_present, es_nueva, tiene_campos_m3,
  es_fraude, es_cierre, es_estado_cierre,
}
use ms_integracion_smartsupe.IdempotencyRecord.{
  IdempotencyKey, IdempotencyRecord, idempotency_completed,
}

-- `k not in CAMPOS_EXCLUIDOS_DEL_HASH`
unfoldable pub canonical : Payload → Payload
canonical p k = if str_eq k "CreatedDate" || str_eq k "ClosedDate" then none else p k

module _ (sha : Payload → String) where
  unfoldable pub compute_payload_hash : Payload → String
  unfolding canonical
  compute_payload_hash p = sha (canonical p)

  -- `payload_hash_override or cls.compute_payload_hash(payload_dict)`
  abbrev hash_or : Option String → Payload → String
  hash_or none p = compute_payload_hash p
  hash_or (some h) p = if str_eq h "" then compute_payload_hash p else h

  -- `construir_clave_completado`
  unfoldable pub completed_key : String → Payload → Option String → IdempotencyKey
  completed_key smart_code p override = record {
    smart_code = smart_code;
    operation = infer_operation_type p;
    payload_hash = hash_or override p;
  }

  -- `construir_registro_completado`
  unfoldable pub completed_record :
      String → Payload → Option String → Option String → ℕ → IdempotencyRecord
  completed_record smart_code p response override now = record {
    smart_code = smart_code;
    operation = infer_operation_type p;
    payload_hash = hash_or override p;
    status = idempotency_completed;
    created_at = now;
    completed_at = some now;
    sfc_response = response;
    error_msg = none;
    queue_item_id = none;
  }

  -- `_get_idempotency_key` of the operation and the hash of a payload.
  unfoldable pub key_of : String → Payload → IdempotencyKey
  key_of smart_code p = record {
    smart_code = smart_code;
    operation = infer_operation_type p;
    payload_hash = compute_payload_hash p;
  }

-- `p` with the value of one field replaced.
abbrev pub with_field : Payload → String → Json → Payload
with_field p f v k = if str_eq k f then some v else p k

-- An auto-filled date that is no null.
abbrev pub is_value : Json → Bool
is_value v = is_present (some v)

canonical_dates :
    (p : Payload) (c d c' d' : Json)
    → canonical (with_field (with_field p "CreatedDate" c) "ClosedDate" d)
      ≡ canonical (with_field (with_field p "CreatedDate" c') "ClosedDate" d')
unfolding canonical
canonical_dates p c d c' d' = fun_ext λ k. ground arith

infer_dates :
    (p : Payload) (c d c' d' : Json)
    → is_value d ≡ is_value d'
    → infer_operation_type (with_field (with_field p "CreatedDate" c) "ClosedDate" d)
      ≡ infer_operation_type (with_field (with_field p "CreatedDate" c') "ClosedDate" d')
unfolding infer_operation_type es_nueva tiene_campos_m3 es_fraude es_cierre es_estado_cierre
infer_dates p c null c' null h = refl
infer_dates p c null c' (text t) h = cc
infer_dates p c null c' (other t) h = cc
infer_dates p c (text t) c' null h = cc
infer_dates p c (other t) c' null h = cc
infer_dates p c (text s) c' (text t) h = refl
infer_dates p c (text s) c' (other t) h = refl
infer_dates p c (other s) c' (text t) h = refl
infer_dates p c (other s) c' (other t) h = refl

-- Two requests that differ only in the values of `CreatedDate` and `ClosedDate`, which the schema
-- fills in with the current time, have one idempotency key.
pub completed_key_dates :
    (sha : Payload → String) (smart_code : String) (p : Payload) (c d c' d' : Json)
    → is_value d ≡ is_value d'
    → completed_key sha smart_code (with_field (with_field p "CreatedDate" c) "ClosedDate" d) none
      ≡ completed_key sha smart_code
          (with_field (with_field p "CreatedDate" c') "ClosedDate" d')
          none
unfolding completed_key compute_payload_hash
completed_key_dates sha smart_code p c d c' d' h = λ i. record {
  smart_code = smart_code;
  operation = infer_dates p c d c' d' h i;
  payload_hash = sha (canonical_dates p c d c' d' i);
}
