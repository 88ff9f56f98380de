-- ===== src/EndToEnd.antt =====
-- The queue and the idempotency store together.
use ms_integracion_smartsupe.Prelude.{ℕ, suc, String, ◌≡◌, true, false, Option, some, arith, eq_iff}
use ms_integracion_smartsupe.Item.{Item}
use ms_integracion_smartsupe.IdempotencyRecord.{IdempotencyKey, IdempotencyRecord}
use ms_integracion_smartsupe.Redis.{Redis, idempotency_key, record_text, run, get-run, pending_set}
use ms_integracion_smartsupe.Remote.{up}
use ms_integracion_smartsupe.Idempotency.{item_sigue_vigente}
use ms_integracion_smartsupe.Queue.Script.Types.{success}
use ms_integracion_smartsupe.Queue.Script.Finish.{mark_sfc_done}
use ms_integracion_smartsupe.Queue.Script.Claim.{claimed, claim_item}
use ms_integracion_smartsupe.Queue.Race.Lease.{leased, claimed_state, still_pending}

-- MARK_SFC_DONE that succeeds has written the record under its key.
pub record-mark_sfc_done :
    (R : Redis) (db : R.Db) (x : ℕ) (w : String) (v now : ℕ) (response : Option String)
    (k : IdempotencyKey) (t : IdempotencyRecord) (ttl : ℕ)
    → (mark_sfc_done R db x w v now response k t ttl).0 ≡ success
    → R.get (run R db (mark_sfc_done R db x w v now response k t ttl).1) (idempotency_key k)
      ≡ some (record_text t)
unfolding mark_sfc_done
record-mark_sfc_done R db x w v now response k t ttl h = ground (
  arith,
  get-run R db (mark_sfc_done R db x w v now response k t ttl).1 (idempotency_key k),
  eq_iff k.smart_code k.smart_code,
  eq_iff k.operation k.operation,
  eq_iff k.payload_hash k.payload_hash,
)

-- A worker that has claimed an item hides it from the check of a QUEUED record: until the item
-- is pending again or gone, the record counts as an orphan although the item is in the pending set
-- with this very payload.
pub claimed_is_orphan :
    (R : Redis) (rehash : String → Option String) (db : R.Db) (x px : ℕ) (w hash : String)
    (it : Item)
    → (claim_item R db (suc x) w px).0 ≡ claimed it
    → it.payload_hash ≡ some hash
    → (item_sigue_vigente R rehash up (leased R db (suc x) w px it) (some (suc x)) hash ≡ false)
      × (R.sismember (leased R db (suc x) w px it) pending_set (suc x) ≡ true)
unfolding item_sigue_vigente
claimed_is_orphan R rehash db x px w hash it h p =
    let (item, _, state, _, _) = claimed_state R db (suc x) w px it h in
    (ground (arith, item, state), still_pending R db (suc x) w px it h)
