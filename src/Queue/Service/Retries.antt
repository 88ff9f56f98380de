-- ===== src/Queue/Service/Retries.antt =====
-- `registrar_fallo`: an attempt that failed is tried again later, or was the last one.
use ms_integracion_smartsupe.Prelude.{
  ℕ, ◌+◌, ◌*◌, String, ◌≡◌, ◌∙◌, refl, Bool, true, false, not, ◌&&◌, Option, none, some, List, [],
  ◌∷◌, arith, leb, str_eq, if◌then◌else◌, Bool-cases, inl, inr,
}
use ms_integracion_smartsupe.Status.{pending, failed_final}
use ms_integracion_smartsupe.Item.{Item, version_or_one, intentos_or_zero}
use ms_integracion_smartsupe.Classification.{Payload}
use ms_integracion_smartsupe.Redis.{
  Redis, Command, item_key, claim_key, idempotency_key, item_text, pending_set, failed_set,
  pending_zset, del, run, get-run, sismember-run, zscore-run, owned_by-owner,
}
use ms_integracion_smartsupe.Remote.{Link, call-answered, call-keeps}
use ms_integracion_smartsupe.Idempotency.Payload.{key_of}
use ms_integracion_smartsupe.Idempotency.Records.{returned, liberar}
use ms_integracion_smartsupe.Queue.Script.Types.{
  Outcome, success, not_owner, version_mismatch, item_not_found, script_error,
}
use ms_integracion_smartsupe.Queue.Script.Fail.{FailArgs, after_failure, register_failure}
use ms_integracion_smartsupe.Queue.Consistent.{IsConsistent, is_live}
use ms_integracion_smartsupe.Queue.Keeps.Cases.{as_owner-eq-success}
use ms_integracion_smartsupe.Queue.Service.{
  Settings, Notice, failed_for_good, limit_of, fail_args, after_fail, release_idempotency,
  registrar_fallo,
}
use ms_integracion_smartsupe.Queue.Service.Persist.{outcome_answer-commands, outcome_answer-reply}

-- What a failed attempt leaves of the item `x`, whose content before it was `stored`.
module _ (R : Redis) (x : ℕ) where
  open R use {Db, get, sismember, zscore}

  pub record Failed (a : FailArgs) (stored : Item) (db : Db) : Type 0 where
    pub after : Item
    pub item : get db (item_key x) ≡ some (item_text after)
    pub payload : after.payload_json ≡ stored.payload_json
    pub version : after.version ≡ stored.version
    pub intentos : after.intentos ≡ (
        if a.consumir_intento then some (intentos_or_zero stored.intentos + 1) else stored.intentos)
    pub state : after.estado ≡ (if a.es_definitivo then failed_final else pending)
    pub waits : sismember db pending_set x ≡ not a.es_definitivo
    pub ended : sismember db failed_set x ≡ a.es_definitivo
    pub scheduled :
        zscore db pending_zset x ≡ (if a.es_definitivo then none else some a.proximo_reintento)
    pub unclaimed : get db (claim_key x) ≡ none

  -- REGISTRAR_FALLO that replies `success`, on a consistent queue.
  pub register_failure_state :
      (db : Db) (w : String) (v : ℕ) (a : FailArgs)
      → IsConsistent R db
      → (register_failure R db x w v a).0 ≡ success
      → (stored : Item) × (get db (item_key x) ≡ some (item_text stored))
        × (version_or_one stored.version ≡ v)
        × Failed a stored (run R db (register_failure R db x w v a).1)
  unfolding register_failure after_failure
  register_failure_state db w v a inv h =
      let (it, e, o, t, c) = as_owner-eq-success R db x w v _ h in
      let cs : List Command = (register_failure R db x w v a).1 in
      let live : is_live it.estado ≡ true = inv.leased x it w (owned_by-owner _ w o) e in
      (
        it,
        e,
        t,
        record {
          after = after_failure a it;
          item = ground (arith, get-run R db cs (item_key x), e, o, t);
          payload = ground arith;
          version = ground arith;
          intentos = ground arith;
          state = ground arith;
          waits =
              ground
                (arith, sismember-run R db cs pending_set x, inv.partition pending_set x, e, o, t);
          ended =
              ground
                (arith, sismember-run R db cs failed_set x, inv.partition failed_set x, e, o, t);
          scheduled = ground (arith, zscore-run R db cs pending_zset x, e, o, t);
          unclaimed = ground (arith, get-run R db cs (claim_key x), e, o, t);
        },
      )

  -- The DELETE of an idempotency key leaves the item alone.
  liberar-Failed :
      (sha : Payload → String) (link : Link) (smart_code : String) (p : Payload) (a : FailArgs)
      (stored : Item) (db : Db)
      → Failed a stored db
      → Failed a stored (liberar R sha link db smart_code p)
  unfolding liberar
  liberar-Failed sha link smart_code p a stored db f =
      let c : Command = del (idempotency_key (key_of sha smart_code p)) in
      call-keeps R (λ d. (some returned, c ∷ [])) (Failed a stored)
        (λ d g. record {
          after = g.after;
          item = get-run R d (c ∷ []) (item_key x) ∙ g.item;
          payload = g.payload;
          version = g.version;
          intentos = g.intentos;
          state = g.state;
          waits = sismember-run R d (c ∷ []) pending_set x ∙ g.waits;
          ended = sismember-run R d (c ∷ []) failed_set x ∙ g.ended;
          scheduled = zscore-run R d (c ∷ []) pending_zset x ∙ g.scheduled;
          unclaimed = get-run R d (c ∷ []) (claim_key x) ∙ g.unclaimed;
        })
        link db f

module _ (R : Redis) (sha dump : Payload → String) (settings : Settings) (link link' : Link)
    (db : R.Db) (it : Item) (payload : Option Payload) (error_msg w : String) (now : ℕ) where
  open R use {Db, get}

  abbrev pub is_last : Bool
  is_last = leb (limit_of R sha dump settings it) (intentos_or_zero it.intentos + 1)

  abbrev pub args : Bool → FailArgs
  args consumir_intento = fail_args R sha dump settings it error_msg consumir_intento now

  abbrev pub failed : Bool → Outcome × List Notice × Db
  failed consumir_intento =
      registrar_fallo R sha dump settings link link' db it payload error_msg w consumir_intento now

  release-Failed :
      (a : FailArgs) (stored : Item) (db' : Db) (o : Option Payload)
      → Failed R it.id a stored db'
      → Failed R it.id a stored (release_idempotency R sha dump settings link' db' it.smart_code o)
  unfolding release_idempotency
  release-Failed a stored db' none f = f
  release-Failed a stored db' (some p) f = elim (Bool-cases (str_eq it.smart_code "")) [
    | inl y ↦ rw y f
    | inr n ↦ rw n (liberar-Failed R it.id sha link' it.smart_code p a stored db' f)
  ]

  after_fail-Failed :
      (a : FailArgs) (stored : Item) (r : Option Outcome × Db)
      → (r.0 ≡ some success → Failed R it.id a stored r.1)
      → (after_fail R sha dump settings link' it payload a r).0 ≡ success
      → Failed R it.id a stored (after_fail R sha dump settings link' it payload a r).2
  unfolding after_fail
  after_fail-Failed a stored (some success, db') f h = elim (Bool-cases a.es_definitivo) [
    | inl y ↦ simp y (release-Failed a stored db' payload (f refl))
    | inr n ↦ simp n (f refl)
  ]
  after_fail-Failed a stored (some not_owner, db') f h = cc
  after_fail-Failed a stored (some version_mismatch, db') f h = cc
  after_fail-Failed a stored (some item_not_found, db') f h = cc
  after_fail-Failed a stored (some script_error, db') f h = cc
  after_fail-Failed a stored (none, db') f h = cc

  args-facts :
      (c : Bool)
      → ((args c).es_definitivo ≡ c && is_last)
        × ((args c).consumir_intento ≡ c)
        × ((args c).proximo_reintento
            ≡ now
              + settings.retry_interval_ms * (if c then intentos_or_zero it.intentos + 1 else 1))
  unfolding fail_args
  args-facts true = (refl, refl, refl)
  args-facts false = (refl, refl, omega arith)

  notices-after_fail :
      (a : FailArgs) (r : Option Outcome × Db)
      → (after_fail R sha dump settings link' it payload a r).0 ≡ success
      → (r.0 ≡ some success)
        × ((after_fail R sha dump settings link' it payload a r).1 ≡ (
            if a.es_definitivo
            then failed_for_good it.smart_code (intentos_or_zero it.intentos + 1) ∷ []
            else []))
  unfolding after_fail
  notices-after_fail a (some success, db') h = elim (Bool-cases a.es_definitivo) [
    | inl y ↦ simp y (refl, refl)
    | inr n ↦ simp n (refl, refl)
  ]
  notices-after_fail a (some not_owner, db') h = cc
  notices-after_fail a (some version_mismatch, db') h = cc
  notices-after_fail a (some item_not_found, db') h = cc
  notices-after_fail a (some script_error, db') h = cc
  notices-after_fail a (none, db') h = cc

  -- When `registrar_fallo` applies a failure on a consistent queue, it does so to the version that
  -- the worker claimed. It is the last attempt exactly when the attempt counts and the limit is
  -- reached: then the item is in FAILED_FINAL, out of the pending set and of the schedule, and one
  -- e-mail is sent. Else it is PENDING again and scheduled after the interval, which a counted
  -- attempt multiplies by its number, and nothing is sent. The payload stays, no claim is left, and
  -- the lost answer of the last DELETE changes none of this.
  pub failure_reschedules_or_ends :
      (c : Bool)
      → IsConsistent R db
      → (failed c).0 ≡ success
      → (stored : Item) × (get db (item_key it.id) ≡ some (item_text stored))
        × (version_or_one stored.version ≡ version_or_one it.version)
        × Failed R it.id (args c) stored (failed c).2
        × ((args c).es_definitivo ≡ c && is_last)
        × ((args c).proximo_reintento
            ≡ now
              + settings.retry_interval_ms * (if c then intentos_or_zero it.intentos + 1 else 1))
        × ((failed c).1 ≡ (
            if c && is_last
            then failed_for_good it.smart_code (intentos_or_zero it.intentos + 1) ∷ []
            else []))
  unfolding registrar_fallo
  failure_reschedules_or_ends c inv h =
      let (answered, sent) = notices-after_fail (args c) _ h in
      let (last, _, next) = args-facts c in
      let (replied, same) = call-answered R link db _ success answered in
      let (stored, e, v, state) =
        register_failure_state R it.id db w (version_or_one it.version) (args c) inv
          (outcome_answer-reply _ success replied) in
      (
        stored,
        e,
        v,
        after_fail-Failed (args c) stored _ (λ _. rw (same, outcome_answer-commands _) state) h,
        last,
        next,
        rw (← last) sent,
      )
