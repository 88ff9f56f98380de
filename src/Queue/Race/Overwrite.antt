-- ===== src/Queue/Race/Overwrite.antt =====
-- An event that overwrites the item a worker is processing.
use ms_integracion_smartsupe.Prelude.{ℕ, String, ◌≡◌, true, Option, some, [], ◌∷◌, arith, eq_iff}
use ms_integracion_smartsupe.Item.{Item, version_or_one}
use ms_integracion_smartsupe.IdempotencyRecord.{IdempotencyKey, IdempotencyRecord}
use ms_integracion_smartsupe.Redis.{
  Redis, item_key, claim_key, index_key, item_text, reference, owner, pending_set, del, run,
  get-run,
}
use ms_integracion_smartsupe.Queue.Script.Types.{version_mismatch}
use ms_integracion_smartsupe.Queue.Script.Enqueue.{EnqueueArgs, enqueue, overwritten}
use ms_integracion_smartsupe.Queue.Script.Finish.{mark_success, mark_sfc_done}
use ms_integracion_smartsupe.Queue.Script.Fail.{FailArgs, register_failure}

module _ (R : Redis) (db : R.Db) (a : EnqueueArgs) (x : ℕ) (it : Item)
    (i : R.get db (index_key a.smart_code a.operacion) ≡ some (reference x))
    (p : R.sismember db pending_set x ≡ true)
    (e : R.get db (item_key x) ≡ some (item_text it)) where
  open R use {get}

  abbrev pub after : R.Db
  after = run R db (enqueue R db a).1

  get-after : get after (item_key x) ≡ some (item_text (overwritten a it))
  unfolding enqueue
  get-after = ground (arith, get-run R db (enqueue R db a).1 (item_key x), i, p, e)

  claim-after : get after (claim_key x) ≡ get db (claim_key x)
  unfolding enqueue
  claim-after = ground (arith, get-run R db (enqueue R db a).1 (claim_key x), i, p, e)

  -- If an event overwrites the pending item of its slot while a worker holds the lease, then with
  -- the version that the worker claimed MARK_SUCCESS, MARK_SFC_DONE and REGISTRAR_FALLO all reply
  -- `version_mismatch` and do nothing but release the lease: the new content stays to be sent.
  pub overwrite_protects :
      (w : String) (now : ℕ) (response : Option String) (k : IdempotencyKey) (t : IdempotencyRecord)
      (ttl : ℕ) (f : FailArgs)
      → get db (claim_key x) ≡ some (owner w)
      → (mark_success R after x w (version_or_one it.version) now
          ≡ (version_mismatch, del (claim_key x) ∷ []))
        × (mark_sfc_done R after x w (version_or_one it.version) now response k t ttl
            ≡ (version_mismatch, del (claim_key x) ∷ []))
        × (register_failure R after x w (version_or_one it.version) f
            ≡ (version_mismatch, del (claim_key x) ∷ []))
  unfolding mark_success mark_sfc_done register_failure
  overwrite_protects w now response k t ttl f c = (
    ground (arith, get-after, claim-after, c, eq_iff w w),
    ground (arith, get-after, claim-after, c, eq_iff w w),
    ground (arith, get-after, claim-after, c, eq_iff w w),
  )
