-- ===== src/Queue/Keeps/Outside.antt =====
-- Writes beside the queue: idempotency records and locks.
use ms_integracion_smartsupe.Prelude.{
  ℕ, String, ◌≡◌, ◌∙◌, sym, refl, Bool, true, false, Option, List, [], ◌∷◌, arith, Bool-cases, inl,
  inr,
}
use ms_integracion_smartsupe.IdempotencyRecord.{IdempotencyKey, IdempotencyRecord}
use ms_integracion_smartsupe.Redis.{
  Redis, Command, Key, Value, StatusSet, get_after, sismember_after, zscore_after, item_key,
  claim_key, index_key, counter_key, idempotency_key, lock_key, record_text, set_px, pexpire, del,
  pending_zset, is_some, owned_by, run, get-run, sismember-run, zscore-run,
}
use ms_integracion_smartsupe.Lock.{try_lock, extend_lock, release_lock}
use ms_integracion_smartsupe.Queue.Consistent.{IsConsistent, Advance}
use ms_integracion_smartsupe.Queue.Keeps.Cases.{run-nil-Advance, leases_only-Advance}

-- The keys beside the queue, and the commands that write no other key.
abbrev pub beside : Key → Bool
beside (idempotency_key k) = true
beside (lock_key k) = true
beside _ = false

abbrev pub writes_beside : Command → Bool
writes_beside (set_px k v ms) = beside k
writes_beside (pexpire k ms) = beside k
writes_beside (del k) = beside k
writes_beside _ = false

-- Such a command leaves every other reply as it is.
module _ (c : Command) (h : writes_beside c ≡ true) where
  get-beside : (k : Key) (o : Option Value) → beside k ≡ false → get_after c k o ≡ o
  get-beside k o b = ground arith

  sets-beside : (s : StatusSet) (id : ℕ) (b : Bool) → sismember_after c s id b ≡ b
  sets-beside s id b = ground arith

  zscore-beside : (id : ℕ) (o : Option ℕ) → zscore_after c pending_zset id o ≡ o
  zscore-beside id o = ground arith

module _ (R : Redis) (db : R.Db) (inv : IsConsistent R db) where
  open R use {get}

  pub beside-Advance : (c : Command) → writes_beside c ≡ true → Advance R db (run R db (c ∷ []))
  beside-Advance c h =
      let cs : List Command = c ∷ [] in
      leases_only-Advance R db inv cs
        (λ id. get-run R db cs (item_key id) ∙ get-beside c h (item_key id) _ refl)
        (λ s id. sismember-run R db cs s id ∙ sets-beside c h s id _)
        (λ b o. get-run R db cs (index_key b o) ∙ get-beside c h (index_key b o) _ refl)
        (λ id u e. sym (get-run R db cs (claim_key id) ∙ get-beside c h (claim_key id) _ refl) ∙ e)
        (λ id. zscore-run R db cs pending_zset id ∙ zscore-beside c h id _)
        (get-run R db cs counter_key ∙ get-beside c h counter_key _ refl)

  pub remember-Advance :
      (k : IdempotencyKey) (r : IdempotencyRecord) (ttl : ℕ)
      → Advance R db (run R db (set_px (idempotency_key k) (record_text r) ttl ∷ []))
  remember-Advance k r ttl = beside-Advance _ refl

  pub forget-Advance : (k : IdempotencyKey) → Advance R db (run R db (del (idempotency_key k) ∷ []))
  forget-Advance k = beside-Advance _ refl

  pub try_lock-Advance : (k t : String) (s : ℕ) → Advance R db (run R db (try_lock R db k t s).1)
  unfolding try_lock
  try_lock-Advance k t s = elim (Bool-cases (is_some (get db (lock_key k)))) [
    | inl y ↦ rw y (run-nil-Advance R db inv)
    | inr n ↦ rw n (beside-Advance _ refl)
  ]

  pub extend_lock-Advance :
      (k t : String) (ms : ℕ) → Advance R db (run R db (extend_lock R db k t ms).1)
  unfolding extend_lock
  extend_lock-Advance k t ms = elim (Bool-cases (owned_by (get db (lock_key k)) t)) [
    | inl y ↦ rw y (beside-Advance _ refl)
    | inr n ↦ rw n (run-nil-Advance R db inv)
  ]

  pub release_lock-Advance : (k t : String) → Advance R db (run R db (release_lock R db k t).1)
  unfolding release_lock
  release_lock-Advance k t = elim (Bool-cases (owned_by (get db (lock_key k)) t)) [
    | inl y ↦ rw y (beside-Advance _ refl)
    | inr n ↦ rw n (run-nil-Advance R db inv)
  ]
