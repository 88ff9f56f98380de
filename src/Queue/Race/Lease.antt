-- ===== src/Queue/Race/Lease.antt =====
-- One worker at a time, and what it completes is what it claimed.
use ms_integracion_smartsupe.Prelude.{
  ℕ, String, ◌≡◌, refl, true, false, some, none, Option, List, [], arith, str_eq,
}
use ms_integracion_smartsupe.Status.{completed, processing}
use ms_integracion_smartsupe.Item.{Item, version_or_one}
use ms_integracion_smartsupe.IdempotencyRecord.{IdempotencyKey, IdempotencyRecord}
use ms_integracion_smartsupe.Redis.{
  Redis, Command, item_key, claim_key, item_text, owner, pending_set, completed_set, run, get-run,
  sismember-run, pttl-run,
}
use ms_integracion_smartsupe.Queue.Script.Types.{success, not_owner}
use ms_integracion_smartsupe.Queue.Script.Claim.{claimed, already_claimed, claim_item, extend_lease}
use ms_integracion_smartsupe.Queue.Script.Finish.{mark_success, mark_sfc_done}
use ms_integracion_smartsupe.Queue.Script.Fail.{FailArgs, register_failure}
use ms_integracion_smartsupe.Queue.Consistent.{IsConsistent}
use ms_integracion_smartsupe.Queue.Keeps.Cases.{as_owner-eq-success}
use ms_integracion_smartsupe.Queue.Keeps.Worker.{claim_item-Advance}
use ms_integracion_smartsupe.Queue.History.{Event, AllNamed, play}
use ms_integracion_smartsupe.Queue.History.Versions.{version_pins_content}

module _ (R : Redis) (db : R.Db) (x : ℕ) (w : String) (px : ℕ) (it : Item) where
  open R use {Db, get, pttl, sismember}

  abbrev pub leased : Db
  leased = run R db (claim_item R db x w px).1

  -- After a successful claim the key holds the item that the worker was given, in state
  -- PROCESSING, and the claim names the worker.
  pub claimed_state :
      (claim_item R db x w px).0 ≡ claimed it
      → (get leased (item_key x) ≡ some (item_text it))
        × (get leased (claim_key x) ≡ some (owner w))
        × (it.estado ≡ processing)
        × (get db (claim_key x) ≡ none)
        × (sismember db pending_set x ≡ true)
  unfolding claim_item
  claimed_state h = ground (
    arith,
    get-run R db (claim_item R db x w px).1 (item_key x),
    get-run R db (claim_item R db x w px).1 (claim_key x),
  )

  -- A lease is taken for the time that the worker asked for.
  pub claimed_lease : (claim_item R db x w px).0 ≡ claimed it → pttl leased (claim_key x) ≡ some px
  unfolding claim_item
  claimed_lease h = ground (arith, pttl-run R db (claim_item R db x w px).1 (claim_key x))

  pub still_pending :
      (claim_item R db x w px).0 ≡ claimed it → sismember leased pending_set x ≡ true
  unfolding claim_item
  still_pending h = ground (arith, sismember-run R db (claim_item R db x w px).1 pending_set x)

  -- While a worker holds the lease that it was granted, every other worker is refused: its claim
  -- replies `already_claimed`, the three transitions reply `not_owner` and its extension fails,
  -- and none of them writes.
  pub claim_excludes :
      (u : String) (px' v now : ℕ) (response : Option String) (k : IdempotencyKey)
      (t : IdempotencyRecord) (ttl : ℕ) (a : FailArgs)
      → (claim_item R db x w px).0 ≡ claimed it
      → str_eq w u ≡ false
      → (claim_item R leased x u px' ≡ (already_claimed, []))
        × (mark_success R leased x u v now ≡ (not_owner, []))
        × (mark_sfc_done R leased x u v now response k t ttl ≡ (not_owner, []))
        × (register_failure R leased x u v a ≡ (not_owner, []))
        × (extend_lease R leased x u px' ≡ (false, []))
  claim_excludes u px' v now response k t ttl a h n =
      let (item, lease, _, _, _) = claimed_state h in
      let pending' : sismember leased pending_set x ≡ true = still_pending h in
      (
        unfold claim_item in ground (arith, item, lease, pending'),
        unfold mark_success in ground (arith, lease),
        unfold mark_sfc_done in ground (arith, lease),
        unfold register_failure in ground (arith, lease),
        unfold extend_lease in ground (arith, lease),
      )

module _ (R : Redis) (db : R.Db) (x : ℕ) (w : String) (v now : ℕ) where
  open R use {Db, get, sismember}

  abbrev pub done : Db
  done = run R db (mark_success R db x w v now).1

  -- MARK_SUCCESS that replies `success` has completed the content that was stored, at the version
  -- that the worker named.
  pub mark_success_state :
      (mark_success R db x w v now).0 ≡ success
      → (it : Item) × (get db (item_key x) ≡ some (item_text it))
        × (version_or_one it.version ≡ v)
        × (get done (item_key x)
            ≡ some (item_text (record it { estado = completed; updated_at = now })))
        × (sismember done pending_set x ≡ false)
        × (sismember done completed_set x ≡ true)
        × (get done (claim_key x) ≡ none)
  unfolding mark_success
  mark_success_state h =
      let (it, e, o, t, c) = as_owner-eq-success R db x w v _ h in
      let cs : List Command = (mark_success R db x w v now).1 in
      (
        it,
        e,
        t,
        ground (arith, get-run R db cs (item_key x), e, o, t),
        ground (arith, sismember-run R db cs pending_set x, e, o, t),
        ground (arith, sismember-run R db cs completed_set x, e, o, t),
        ground (arith, get-run R db cs (claim_key x), e, o, t),
      )

module _ (R : Redis) (db : R.Db) (inv : IsConsistent R db) where
  open R use {get, sismember}

  -- A worker claims an item, any history of scripts follows, and then a MARK_SUCCESS with the
  -- version that was claimed replies `success`: the item that is completed has the payload and
  -- the hash that the worker was given, so nothing is completed that was not sent.
  pub completed_is_claimed :
      (x px now : ℕ) (w u : String) (given : Item) (es : List Event)
      → AllNamed es
      → (claim_item R db x w px).0 ≡ claimed given
      → (mark_success R
          (play R (leased R db x w px given) es)
          x
          u
          (version_or_one given.version)
          now).0
        ≡ success
      → (it : Item) × (get
            (done R (play R (leased R db x w px given) es) x u (version_or_one given.version) now)
            (item_key x)
          ≡ some (item_text it))
        × (it.estado ≡ completed)
        × (it.payload_json ≡ given.payload_json)
        × (it.payload_hash ≡ given.payload_hash)
  completed_is_claimed x px now w u given es named h s =
      let (it, e, t, e', _, _, _) =
        mark_success_state R (play R (leased R db x w px given) es) x u _ now s in
      let (payload, hash) =
        version_pins_content R (leased R db x w px given)
          (claim_item-Advance R db inv x w px).consistent es x given it named
          (claimed_state R db x w px given h).0 e t in
      (record it { estado = completed; updated_at = now }, e', refl, payload, hash)
