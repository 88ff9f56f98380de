-- ===== src/Queue/Service/Newest.antt =====
-- `encolar_despacho`: what is queued is what was asked last.
use ms_integracion_smartsupe.Prelude.{
  ℕ, ◌+◌, String, ◌≡◌, refl, Bool, true, false, Option, none, some, List, arith, eq_iff, str_eq,
  Bool-cases, Option-cases, inl, inr,
}
use ms_integracion_smartsupe.Status.{pending}
use ms_integracion_smartsupe.Item.{Item}
use ms_integracion_smartsupe.Classification.{
  Payload, infer_operation_type, infer_operation_type-ne-empty,
}
use ms_integracion_smartsupe.Redis.{
  Redis, Command, item_key, index_key, counter_key, item_text, reference, pending_set,
  read_item-cases, reference_of, count_of, reference_of-some, run, get-run, sismember-run,
}
use ms_integracion_smartsupe.Remote.{Link, call-reached, call-keeps}
use ms_integracion_smartsupe.Idempotency.Payload.{compute_payload_hash}
use ms_integracion_smartsupe.Queue.Script.Enqueue.{
  EnqueueArgs, EnqueueReply, enqueued, enqueue_error, enqueue, insert_new,
}
use ms_integracion_smartsupe.Queue.Consistent.{IsConsistent}
use ms_integracion_smartsupe.Queue.Keeps.Producer.{enqueue-Advance}
use ms_integracion_smartsupe.Queue.Service.{
  Settings, Notice, enqueue_answer, enqueue_args, encolar_despacho, announce,
}

module _ (R : Redis) where
  open R use {Db, get, sismember, scard}

  -- The slot of the event holds `it`, with the event's content and nothing of an earlier one.
  pub record Holds (a : EnqueueArgs) (it : Item) (db : Db) : Type 0 where
    pub id : ℕ
    pub slot : get db (index_key a.smart_code a.operacion) ≡ some (reference id)
    pub stored : get db (item_key id) ≡ some (item_text it)
    pub waiting : sismember db pending_set id ≡ true
    pub payload : it.payload_json ≡ a.payload_json
    pub hash : it.payload_hash ≡ some a.payload_hash
    pub not_sent : it.sfc_completado ≡ false
    pub no_response : it.sfc_response ≡ none
    pub first_attempt : it.intentos ≡ some 1
    pub state : it.estado ≡ pending

  module _ (db : Db) (a : EnqueueArgs) where
    abbrev after : Db
    after = run R db (enqueue R db a).1

    module _ (b : Bool) (it : Item) (n : ℕ) (h : (enqueue R db a).0 ≡ enqueued b it n) where
      overwrite-Holds :
          (x : ℕ) (old : Item)
          → get db (index_key a.smart_code a.operacion) ≡ some (reference x)
          → sismember db pending_set x ≡ true
          → get db (item_key x) ≡ some (item_text old)
          → Holds a it after
      unfolding enqueue
      overwrite-Holds x old i p e = record {
        id = x;
        slot = ground (
          arith,
          get-run R db (enqueue R db a).1 (index_key a.smart_code a.operacion),
          eq_iff a.smart_code a.smart_code,
          eq_iff a.operacion a.operacion,
          i,
          p,
          e,
          h,
        );
        stored = ground (arith, get-run R db (enqueue R db a).1 (item_key (x)), i, p, e, h);
        waiting = ground (arith, sismember-run R db (enqueue R db a).1 pending_set (x), i, p, e, h);
        payload = ground (arith, i, p, e, h);
        hash = ground (arith, i, p, e, h);
        not_sent = ground (arith, i, p, e, h);
        no_response = ground (arith, i, p, e, h);
        first_attempt = ground (arith, i, p, e, h);
        state = ground (arith, i, p, e, h);
      }

      insert-Holds :
          (enqueue R db a ≡ insert_new a (scard db pending_set) (count_of (get db counter_key)))
          → Holds a it after
      unfolding insert_new
      insert-Holds q = elim (Option-cases (count_of (get db counter_key))) [
        | inl z ↦ absurd (ground (arith, q, z, h))
        | inr (m, c) ↦ record {
          id = m + 1;
          slot = ground (
            arith,
            get-run R db (enqueue R db a).1 (index_key a.smart_code a.operacion),
            eq_iff a.smart_code a.smart_code,
            eq_iff a.operacion a.operacion,
            q,
            c,
            h,
          );
          stored = ground (arith, get-run R db (enqueue R db a).1 (item_key (m + 1)), q, c, h);
          waiting =
              ground (arith, sismember-run R db (enqueue R db a).1 pending_set (m + 1), q, c, h);
          payload = ground (arith, q, c, h);
          hash = ground (arith, q, c, h);
          not_sent = ground (arith, q, c, h);
          no_response = ground (arith, q, c, h);
          first_attempt = ground (arith, q, c, h);
          state = ground (arith, q, c, h);
        }
      ]

      -- What ENQUEUE replies is what its slot then holds.
      pub enqueue-Holds : Holds a it after
      unfolding enqueue
      enqueue-Holds =
          elim (Option-cases (reference_of (get db (index_key a.smart_code a.operacion)))) [
            | inl z ↦ insert-Holds (rw (z, enqueue))
            | inr (x, r) ↦ elim (Bool-cases (sismember db pending_set x)) [
              | inr q ↦ insert-Holds (rw (r, enqueue, q))
              | inl p ↦ elim (read_item-cases (get db (item_key x))) [
                | inl m ↦ insert-Holds (rw (r, enqueue, p, m))
                | inr (inl u) ↦ absurd (ground (arith, r, p, u, h))
                | inr (inr (old, e, d)) ↦ overwrite-Holds x old (reference_of-some _ x r) p e
              ]
            ]
          ]

  enqueue_answer-inverse :
      (r : EnqueueReply × List Command) (x : Bool × Item × ℕ)
      → (enqueue_answer r).0 ≡ some x
      → (r.0 ≡ enqueued x.0 x.1 x.2) × ((enqueue_answer r).1 ≡ r.1)
  enqueue_answer-inverse (enqueued b it n, cs) x e = (cc, refl)
  enqueue_answer-inverse (enqueue_error, cs) x e = cc

  enqueue_answer-commands : (r : EnqueueReply × List Command) → (enqueue_answer r).1 ≡ r.1
  enqueue_answer-commands (enqueued b it n, cs) = refl
  enqueue_answer-commands (enqueue_error, cs) = refl

  answered :
      (db : Db) (a : EnqueueArgs) (x : Bool × Item × ℕ)
      → (enqueue_answer (enqueue R db a)).0 ≡ some x
      → Holds a x.1 (run R db (enqueue_answer (enqueue R db a)).1)
  answered db a x e =
      let (replied, same) = enqueue_answer-inverse (enqueue R db a) x e in
      rw (same) (enqueue-Holds db a x.0 x.1 x.2 replied)

  announced :
      (sha dump : Payload → String) (settings : Settings) (smart_code : String)
      (r : Option (Bool × Item × ℕ) × Db) (it : Item)
      → (announce R sha dump settings smart_code r).0 ≡ some it
      → (b : Bool) × (n : ℕ) × (r.0 ≡ some (b, it, n))
        × ((announce R sha dump settings smart_code r).2 ≡ r.1)
  unfolding announce
  announced sha dump settings smart_code (none, db) it e = cc
  announced sha dump settings smart_code (some (b, x, n), db) it e = (b, n, cc, refl)

  announced-keyspace :
      (sha dump : Payload → String) (settings : Settings) (smart_code : String)
      (r : Option (Bool × Item × ℕ) × Db)
      → (announce R sha dump settings smart_code r).2 ≡ r.1
  unfolding announce
  announced-keyspace sha dump settings smart_code (none, db) = refl
  announced-keyspace sha dump settings smart_code (some x, db) = refl

module _ (R : Redis) (sha dump : Payload → String) (settings : Settings) (link : Link) (db : R.Db)
    (smart_code tipo_operacion : String) (p : Payload) (error correlation_id : String)
    (now : ℕ) where
  abbrev event : EnqueueArgs
  event = enqueue_args R sha dump settings smart_code tipo_operacion p error correlation_id now

  abbrev pub queued : Option Item × List Notice × R.Db
  queued =
      encolar_despacho R sha dump settings link db smart_code tipo_operacion p error correlation_id
        now

  -- When `encolar_despacho` returns an item, the slot of the case and of the operation inferred
  -- from the payload holds that item, pending, with the payload and the hash of this call, not
  -- sent, with no response of the SFC and at its first attempt, whatever the slot held before.
  pub encolar_newest :
      (it : Item)
      → queued.0 ≡ some it
      → (id : ℕ) × (R.get queued.2 (index_key smart_code (infer_operation_type p))
          ≡ some (reference id))
        × (R.get queued.2 (item_key id) ≡ some (item_text it))
        × (R.sismember queued.2 pending_set id ≡ true)
        × (it.payload_json ≡ dump p)
        × (it.payload_hash ≡ some (compute_payload_hash sha p))
        × (it.sfc_completado ≡ false)
        × (it.sfc_response ≡ none)
        × (it.intentos ≡ some 1)
        × (it.estado ≡ pending)
  unfolding encolar_despacho enqueue_args
  encolar_newest it h =
      let (b, n, replied, same) = announced R sha dump settings smart_code _ it h in
      let held =
        call-reached R (λ db'. enqueue_answer (enqueue R db' event))
          (λ x db'. Holds R event x.1 db') (λ db' x e. answered R db' event x e) link db (b, it, n)
          replied in
      (
        held.id,
        rw (same) held.slot,
        rw (same) held.stored,
        rw (same) held.waiting,
        held.payload,
        held.hash,
        held.not_sent,
        held.no_response,
        held.first_attempt,
        held.state,
      )

  -- `encolar_despacho` leaves the queue consistent, whatever its call comes to.
  pub encolar_despacho-IsConsistent :
      IsConsistent R db → str_eq smart_code "" ≡ false → IsConsistent R queued.2
  unfolding encolar_despacho enqueue_args
  encolar_despacho-IsConsistent inv named =
      rw (announced-keyspace R sha dump settings smart_code _) (
        call-keeps R (λ db'. enqueue_answer (enqueue R db' event)) (IsConsistent R)
          (λ db' h.
            rw (enqueue_answer-commands R (enqueue R db' event))
              (enqueue-Advance R db' h event named (infer_operation_type-ne-empty p)).consistent)
          link db inv)
