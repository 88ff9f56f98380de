-- ===== src/Queue/Keeps/Owner.antt =====
-- MARK_SUCCESS, MARK_SFC_DONE and REGISTRAR_FALLO keep the invariant.
use ms_integracion_smartsupe.Prelude.{
  ℕ, String, ◌≡◌, refl, true, false, Option, some, List, [], ◌∷◌, arith, Bool-cases, inl, inr,
}
use ms_integracion_smartsupe.Status.{completed}
use ms_integracion_smartsupe.Item.{Item, operacion_sufijo}
use ms_integracion_smartsupe.IdempotencyRecord.{IdempotencyKey, IdempotencyRecord}
use ms_integracion_smartsupe.Redis.{
  Redis, Command, item_key, claim_key, index_key, counter_key, idempotency_key, item_text,
  record_text, del, set, set_px, srem, sadd, zrem, zadd, pending_set, completed_set, failed_set,
  pending_zset, owned_by, owned_by-owner, run, get-run, sismember-run, zscore-run,
}
use ms_integracion_smartsupe.Queue.Script.Finish.{
  mark_success, mark_sfc_done, release_slot, with_sfc_done,
}
use ms_integracion_smartsupe.Queue.Script.Fail.{FailArgs, register_failure, after_failure}
use ms_integracion_smartsupe.Queue.Consistent.{IsConsistent, Advance, changed, is_live}
use ms_integracion_smartsupe.Queue.Consistent.Touch.{Touch, Touch-Advance}
use ms_integracion_smartsupe.Queue.Consistent.Leave.{Leave, Leave-Advance}
use ms_integracion_smartsupe.Queue.Keeps.Cases.{
  as_owner_cases, run-nil-Advance, run-del_claim-Advance,
}

module _ (R : Redis) (db : R.Db) (inv : IsConsistent R db) (x : ℕ) (w : String) (it : Item)
    (o : owned_by (R.get db (claim_key x)) w ≡ true)
    (e : R.get db (item_key x) ≡ some (item_text it)) where
  open R use {get}

  -- A lease that is owned is on a live item.
  pub owned-live : is_live it.estado ≡ true
  owned-live = inv.leased x it w (owned_by-owner _ w o) e

  module _ (now : ℕ) where
    abbrev finished : Item
    finished = record it { estado = completed; updated_at = now }

    abbrev success_commands : List Command
    success_commands =
        set (item_key x) (item_text finished)
        ∷ srem pending_set x
        ∷ sadd completed_set x
        ∷ zrem pending_zset x
        ∷ del (claim_key x)
        ∷ release_slot it

    success-Leave : Leave R db (run R db success_commands) x it (some (item_text finished))
    unfolding operacion_sufijo
    success-Leave = record {
      before = e;
      live = owned-live;
      items = λ id. ground (arith, get-run R db success_commands (item_key id));
      readable = refl;
      not_live = refl;
      left = λ id n o'. changed it _ o' n (inr (refl, refl, refl));
      codes = λ it' p. ground arith;
      sets = λ s id.
          ground (arith, sismember-run R db success_commands s id, inv.partition s id, owned-live);
      slots =
          λ c o'. ground (arith, get-run R db success_commands (index_key c o'), inv.named x it e);
      claims = λ id u. ground (arith, get-run R db success_commands (claim_key id));
      released = λ it' u. ground (arith, get-run R db success_commands (claim_key x));
      schedule = λ id n. ground (arith, zscore-run R db success_commands pending_zset id);
      counter = ground (arith, get-run R db success_commands counter_key);
    }

  module _ (now : ℕ) (response : Option String) (k : IdempotencyKey) (t : IdempotencyRecord)
      (ttl : ℕ) where
    abbrev sfc_done_commands : List Command
    sfc_done_commands =
        set (item_key x) (item_text (with_sfc_done now response it))
        ∷ set_px (idempotency_key k) (record_text t) ttl
        ∷ []

    sfc_done-Touch : Touch R db (run R db sfc_done_commands) x it (with_sfc_done now response it)
    unfolding operacion_sufijo
    sfc_done-Touch = record {
      before = e;
      items = λ id. ground (arith, get-run R db sfc_done_commands (item_key id));
      sets = λ s id. ground (arith, sismember-run R db sfc_done_commands s id);
      indexes = λ c o'. ground (arith, get-run R db sfc_done_commands (index_key c o'));
      claims = λ id it' u.
          ground (arith, get-run R db sfc_done_commands (claim_key id), inv.leased id it' u);
      schedule = λ id. ground (arith, zscore-run R db sfc_done_commands pending_zset id);
      counter = ground (arith, get-run R db sfc_done_commands counter_key);
      same_id = ground arith;
      same_code = ground arith;
      same_operacion = ground arith;
      newer = ground arith;
      same_sets = λ s. ground (arith, owned-live);
    }

  module _ (a : FailArgs) where
    abbrev retry_commands : List Command
    retry_commands =
        set (item_key x) (item_text (after_failure a it))
        ∷ del (claim_key x)
        ∷ zadd pending_zset a.proximo_reintento x
        ∷ []

    retry-Touch :
        a.es_definitivo ≡ false → Touch R db (run R db retry_commands) x it (after_failure a it)
    unfolding operacion_sufijo after_failure
    retry-Touch f = record {
      before = e;
      items = λ id. ground (arith, get-run R db retry_commands (item_key id));
      sets = λ s id. ground (arith, sismember-run R db retry_commands s id);
      indexes = λ c o'. ground (arith, get-run R db retry_commands (index_key c o'));
      claims = λ id it' u.
          ground (arith, get-run R db retry_commands (claim_key id), inv.leased id it' u);
      schedule = λ id. ground (arith, zscore-run R db retry_commands pending_zset id);
      counter = ground (arith, get-run R db retry_commands counter_key);
      same_id = ground arith;
      same_code = ground arith;
      same_operacion = ground arith;
      newer = ground arith;
      same_sets = λ s. ground (arith, owned-live);
    }

    abbrev final_commands : List Command
    final_commands =
        set (item_key x) (item_text (after_failure a it))
        ∷ del (claim_key x)
        ∷ srem pending_set x
        ∷ sadd failed_set x
        ∷ zrem pending_zset x
        ∷ release_slot it

    final-Leave :
        a.es_definitivo ≡ true
        → Leave R db (run R db final_commands) x it (some (item_text (after_failure a it)))
    unfolding operacion_sufijo after_failure
    final-Leave f = record {
      before = e;
      live = owned-live;
      items = λ id. ground (arith, get-run R db final_commands (item_key id));
      readable = refl;
      not_live = ground arith;
      left = λ id n o'. changed it _ o' n (ground arith);
      codes = λ it' p. ground arith;
      sets = λ s id.
          ground (arith, sismember-run R db final_commands s id, inv.partition s id, owned-live);
      slots =
          λ c o'. ground (arith, get-run R db final_commands (index_key c o'), inv.named x it e);
      claims = λ id u. ground (arith, get-run R db final_commands (claim_key id));
      released = λ it' u. ground (arith, get-run R db final_commands (claim_key x));
      schedule = λ id n. ground (arith, zscore-run R db final_commands pending_zset id);
      counter = ground (arith, get-run R db final_commands counter_key);
    }

module _ (R : Redis) (db : R.Db) (inv : IsConsistent R db) (x : ℕ) (w : String) (v : ℕ) where
  pub mark_success-Advance : (now : ℕ) → Advance R db (run R db (mark_success R db x w v now).1)
  unfolding mark_success
  mark_success-Advance now =
      as_owner_cases R db x w v _ (λ p. Advance R db (run R db p.1)) (run-nil-Advance R db inv)
        (run-del_claim-Advance R db inv x) (run-nil-Advance R db inv)
        (run-del_claim-Advance R db inv x)
        (λ it o e _. Leave-Advance R db _ x it _ (success-Leave R db inv x w it o e now) inv)

  pub mark_sfc_done-Advance :
      (now : ℕ) (response : Option String) (k : IdempotencyKey) (t : IdempotencyRecord) (ttl : ℕ)
      → Advance R db (run R db (mark_sfc_done R db x w v now response k t ttl).1)
  unfolding mark_sfc_done
  mark_sfc_done-Advance now response k t ttl =
      as_owner_cases R db x w v _ (λ p. Advance R db (run R db p.1)) (run-nil-Advance R db inv)
        (run-del_claim-Advance R db inv x) (run-nil-Advance R db inv)
        (run-del_claim-Advance R db inv x)
        λ it o e _.
          Touch-Advance R db _ x it _ (sfc_done-Touch R db inv x w it o e now response k t ttl) inv

  pub register_failure-Advance :
      (a : FailArgs) → Advance R db (run R db (register_failure R db x w v a).1)
  unfolding register_failure
  register_failure-Advance a =
      as_owner_cases R db x w v _ (λ p. Advance R db (run R db p.1)) (run-nil-Advance R db inv)
        (run-del_claim-Advance R db inv x) (run-nil-Advance R db inv)
        (run-del_claim-Advance R db inv x)
        λ it o e _. elim (Bool-cases a.es_definitivo) [
          | inl f ↦ simp f (Leave-Advance R db _ x it _ (final-Leave R db inv x w it o e a f) inv)
          | inr f ↦ simp f (Touch-Advance R db _ x it _ (retry-Touch R db inv x w it o e a f) inv)
        ]
