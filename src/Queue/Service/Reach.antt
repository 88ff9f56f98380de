-- ===== src/Queue/Service/Reach.antt =====
-- Each method of `QueueService`, and of the lock, is a history of scripts and writes.
use ms_integracion_smartsupe.Prelude.{
  ℕ, ◌+◌, ◌*◌, String, ◌≡◌, refl, Bool, Option, none, some, List, [], ◌∷◌, str_eq, Bool-cases, inl,
  inr,
}
use ms_integracion_smartsupe.Item.{Item, version_or_one}
use ms_integracion_smartsupe.Classification.{Payload}
use ms_integracion_smartsupe.Redis.{Redis}
use ms_integracion_smartsupe.Remote.{Link}
use ms_integracion_smartsupe.Idempotency.Payload.{completed_key, completed_record, key_of}
use ms_integracion_smartsupe.Idempotency.Records.{liberar, ttl_ms_default}
use ms_integracion_smartsupe.Lock.{RedisLock, acquire, release, on_acquire}
use ms_integracion_smartsupe.Queue.Script.Types.{
  Outcome, success, not_owner, item_not_found as item_missing, version_mismatch, script_error,
}
use ms_integracion_smartsupe.Queue.Script.Claim.{
  ClaimReply, claimed, not_pending, item_not_found, already_claimed, claim_error,
}
use ms_integracion_smartsupe.Queue.Script.Fail.{FailArgs}
use ms_integracion_smartsupe.Queue.History.{
  claims, succeeds, sfc_finishes, fails, defers, forgets, locks, unlocks, commands,
}
use ms_integracion_smartsupe.Queue.History.Reach.{
  Reaches, Reaches-refl, Reaches-trans, call-Reaches, retry-Reaches,
}
use ms_integracion_smartsupe.Queue.Service.{
  Settings, claim_result, marcar_exitoso, marcar_sfc_completado, reclamar_item, fail_args,
  after_fail, release_idempotency, registrar_fallo, diferir_pendientes, delay_of, deferral_reason,
}
use ms_integracion_smartsupe.Queue.Service.Persist.{outcome_answer-commands}

module _ (R : Redis) (sha dump : Payload → String) (settings : Settings) where
  open R use {Db}

  pub marcar_exitoso-Reaches :
      (link : Link) (db : Db) (x : ℕ) (w : String) (v now : ℕ)
      → Reaches R db (marcar_exitoso R sha dump settings link db x w v now).1
  unfolding marcar_exitoso commands
  marcar_exitoso-Reaches link db x w v now =
      call-Reaches R link db _ (succeeds x w v now) tt (outcome_answer-commands _)

  pub marcar_sfc_completado-Reaches :
      (attempts : ℕ) (links : ℕ → Link) (db : Db) (x : ℕ) (w : String) (v : ℕ) (c : String)
      (p : Payload) (response hash : Option String) (now : ℕ)
      → Reaches R db
          (marcar_sfc_completado R sha dump settings attempts links db x w v c p response hash
            now).1
  unfolding marcar_sfc_completado commands
  marcar_sfc_completado-Reaches attempts links db x w v c p response hash now =
      retry-Reaches R attempts links _
        (sfc_finishes x w v now response (completed_key sha c p hash)
          (completed_record sha c p response hash now) ttl_ms_default)
        db tt (λ d. outcome_answer-commands _)

  claim_result-db : (r : Option ClaimReply × Db) → (claim_result R sha dump settings r).1 ≡ r.1
  unfolding claim_result
  claim_result-db (some (claimed it), db) = refl
  claim_result-db (some not_pending, db) = refl
  claim_result-db (some item_not_found, db) = refl
  claim_result-db (some already_claimed, db) = refl
  claim_result-db (some claim_error, db) = refl
  claim_result-db (none, db) = refl

  pub reclamar_item-Reaches :
      (link : Link) (db : Db) (x : ℕ) (w : String) (s : ℕ)
      → Reaches R db (reclamar_item R sha dump settings link db x w s).1
  unfolding reclamar_item commands
  reclamar_item-Reaches link db x w s =
      rw (claim_result-db _) (call-Reaches R link db _ (claims x w (s * 1000)) tt refl)

  release_idempotency-Reaches :
      (link : Link) (db : Db) (c : String) (o : Option Payload)
      → Reaches R db (release_idempotency R sha dump settings link db c o)
  unfolding release_idempotency liberar commands
  release_idempotency-Reaches link db c none = Reaches-refl R db
  release_idempotency-Reaches link db c (some p) = elim (Bool-cases (str_eq c "")) [
    | inl y ↦ rw y (Reaches-refl R db)
    | inr n ↦ rw n (call-Reaches R link db _ (forgets (key_of sha c p)) tt refl)
  ]

  after_fail-Reaches :
      (link : Link) (it : Item) (o : Option Payload) (a : FailArgs) (db : Db)
      (r : Option Outcome × Db)
      → Reaches R db r.1
      → Reaches R db (after_fail R sha dump settings link it o a r).2
  unfolding after_fail
  after_fail-Reaches link it o a db (some success, db') f = elim (Bool-cases a.es_definitivo) [
    | inl y ↦ simp y (Reaches-trans R f (release_idempotency-Reaches link db' it.smart_code o))
    | inr n ↦ simp n f
  ]
  after_fail-Reaches link it o a db (some not_owner, db') f = f
  after_fail-Reaches link it o a db (some version_mismatch, db') f = f
  after_fail-Reaches link it o a db (some item_missing, db') f = f
  after_fail-Reaches link it o a db (some script_error, db') f = f
  after_fail-Reaches link it o a db (none, db') f = f

  pub registrar_fallo-Reaches :
      (link link' : Link) (db : Db) (it : Item) (o : Option Payload) (e w : String) (c : Bool)
      (now : ℕ)
      → Reaches R db (registrar_fallo R sha dump settings link link' db it o e w c now).2
  unfolding registrar_fallo commands
  registrar_fallo-Reaches link link' db it o e w c now =
      after_fail-Reaches link' it o (fail_args R sha dump settings it e c now) db _ (
        call-Reaches R link db _
          (fails it.id w (version_or_one it.version) (fail_args R sha dump settings it e c now)) tt
          (outcome_answer-commands _))

  pub diferir_pendientes-Reaches :
      (links : ℕ → Link) (delay : Option ℕ) (now : ℕ) (its : List Item) (n : ℕ) (db : Db)
      → Reaches R db (diferir_pendientes R sha dump settings links db its delay now n).1
  unfolding diferir_pendientes commands
  diferir_pendientes-Reaches links delay now [] n db = Reaches-refl R db
  diferir_pendientes-Reaches links delay now (it ∷ its) n db =
      Reaches-trans R
        (call-Reaches R (links it.id) db _
          (defers it.id (version_or_one it.version) (now + delay_of R sha dump settings delay) now
            (deferral_reason R sha dump settings))
          tt (outcome_answer-commands _))
        (diferir_pendientes-Reaches links delay now its _ _)

module _ (R : Redis) where
  open R use {Db}

  on_acquire-db : (l : RedisLock) (r : Option Bool × Db) → (on_acquire R l r).1 ≡ r.1
  on_acquire-db l (none, db) = refl
  on_acquire-db l (some b, db) = refl

  pub acquire-Reaches :
      (link : Link) (db : Db) (l : RedisLock) → Reaches R db (acquire R link db l).1
  unfolding acquire commands
  acquire-Reaches link db l =
      rw (on_acquire-db l _)
        (call-Reaches R link db _ (locks l.key l.owner_token l.lease_segundos) tt refl)

  pub release-Reaches :
      (link : Link) (db : Db) (l : RedisLock) → Reaches R db (release R link db l).1
  unfolding release commands
  release-Reaches link db l = elim (Bool-cases l.acquired) [
    | inl y ↦ simp y (call-Reaches R link db _ (unlocks l.key l.owner_token) tt refl)
    | inr n ↦ simp n (Reaches-refl R db)
  ]
