-- ===== src/Scheduler/Completion.antt =====
-- A turn that ends in success completed the content that was sent and told.
use ms_integracion_smartsupe.Prelude.{
  ℕ, String, ◌≡◌, ◌∙◌, ap, refl, Bool, true, false, Option, none, some, Bool-cases, inl, inr,
}
use ms_integracion_smartsupe.Status.{completed}
use ms_integracion_smartsupe.Item.{Item, version_or_one}
use ms_integracion_smartsupe.Classification.{Payload}
use ms_integracion_smartsupe.Redis.{Redis, item_key, item_text}
use ms_integracion_smartsupe.Remote.{Link, call-answered}
use ms_integracion_smartsupe.Queue.Script.Types.{
  Outcome, success, not_owner, item_not_found, version_mismatch, script_error,
}
use ms_integracion_smartsupe.Queue.Script.Claim.{claimed, claim_item}
use ms_integracion_smartsupe.Queue.Script.Finish.{mark_success}
use ms_integracion_smartsupe.Queue.Consistent.{IsConsistent}
use ms_integracion_smartsupe.Queue.History.Reach.{Reaches, Reaches-trans, Reaches-play}
use ms_integracion_smartsupe.Queue.Race.Lease.{leased, completed_is_claimed}
use ms_integracion_smartsupe.Queue.Service.{Settings, marcar_exitoso}
use ms_integracion_smartsupe.Queue.Service.Persist.{outcome_answer-commands, outcome_answer-reply}
use ms_integracion_smartsupe.Scheduler.{
  Turn, SfcReply, sfc_result, sfc_error, sfc_raises, CrmReply, crm_notified, crm_refused,
  crm_raises, Step, fail_turn, after_persist, after_sfc, paso_sfc, after_mark, after_crm, paso_crm,
  procesar_item,
}
use ms_integracion_smartsupe.Scheduler.Steps.{TurnIsNamed, paso_sfc-Reaches}

-- A test is not both.
absurd {ℓ} : {A : Type ℓ} {b : Bool} → b ≡ false → b ≡ true → A
absurd f t = cc

module _ (R : Redis) (sha dump : Payload → String) (settings : Settings)
    (load : String → Option Payload) (es_falla_texto is_success_text : String → Bool) where
  open R use {Db, get}

  -- A step is over without a success.
  abbrev Unsuccessful : Step R sha dump settings load es_falla_texto is_success_text → Type 0
  Unsuccessful s = s.result.despachado_exito ≡ false

  fail_turn-Unsuccessful :
      (t : Turn) (db : Db) (it : Item) (w m : String) (c i : Bool)
      → Unsuccessful
          (fail_turn R sha dump settings load es_falla_texto is_success_text t db it w m c i)
  unfolding fail_turn
  fail_turn-Unsuccessful t db it w m c i = refl

  after_persist-Unsuccessful :
      (it : Item) (m : String) (r : Option Outcome × Db)
      → Unsuccessful (after_persist R sha dump settings load es_falla_texto is_success_text it m r)
  after_persist-Unsuccessful it m (none, db) = refl
  after_persist-Unsuccessful it m (some success, db) = refl
  after_persist-Unsuccessful it m (some not_owner, db) = refl
  after_persist-Unsuccessful it m (some item_not_found, db) = refl
  after_persist-Unsuccessful it m (some version_mismatch, db) = refl
  after_persist-Unsuccessful it m (some script_error, db) = refl

  after_sfc-Unsuccessful :
      (t : Turn) (db : Db) (it : Item) (w : String) (r : SfcReply)
      → Unsuccessful (after_sfc R sha dump settings load es_falla_texto is_success_text t db it w r)
  unfolding after_sfc
  after_sfc-Unsuccessful t db it w (sfc_raises f) =
      fail_turn-Unsuccessful t db it w f.message true _
  after_sfc-Unsuccessful t db it w (sfc_error m) = fail_turn-Unsuccessful t db it w m true _
  after_sfc-Unsuccessful t db it w (sfc_result m) = after_persist-Unsuccessful it m _

  paso_sfc-Unsuccessful :
      (t : Turn) (db : Db) (it : Item) (w : String)
      → Unsuccessful (paso_sfc R sha dump settings load es_falla_texto is_success_text t db it w)
  unfolding paso_sfc
  paso_sfc-Unsuccessful t db it w = elim (Bool-cases it.sfc_completado) [
    | inl y ↦ simp y refl
    | inr n ↦ simp n (after_sfc-Unsuccessful t _ it w t.sfc)
  ]

  after_mark-success :
      (it : Item) (r : Option Outcome × Db)
      → (after_mark R sha dump settings load es_falla_texto is_success_text it
          r).result.despachado_exito
        ≡ true
      → r.0 ≡ some success
  after_mark-success it (none, db) h = cc
  after_mark-success it (some success, db) h = refl
  after_mark-success it (some not_owner, db) h = cc
  after_mark-success it (some item_not_found, db) h = cc
  after_mark-success it (some version_mismatch, db) h = cc
  after_mark-success it (some script_error, db) h = cc

  abbrev pub Completed : Db → Item → Type 0
  Completed db it =
      (it' : Item) × (get db (item_key it.id) ≡ some (item_text it'))
      × (it'.estado ≡ completed)
      × (it'.payload_json ≡ it.payload_json)
      × (it'.payload_hash ≡ it.payload_hash)

  after_mark-db :
      (it : Item) (r : Option Outcome × Db)
      → (after_mark R sha dump settings load es_falla_texto is_success_text it r).db ≡ r.1
  after_mark-db it (none, db) = refl
  after_mark-db it (some o, db) = refl

  module _ (db0 : Db) (inv : IsConsistent R db0) (w : String) (px : ℕ) (it : Item)
      (given : (claim_item R db0 it.id w px).0 ≡ claimed it) where
    mark-Completed :
        (link : Link) (db : Db) (now : ℕ)
        → Reaches R (leased R db0 it.id w px it) db
        → (marcar_exitoso R sha dump settings link db it.id w (version_or_one it.version) now).0
          ≡ some success
        → Completed
            (marcar_exitoso R sha dump settings link db it.id w (version_or_one it.version) now).1
            it
    unfolding marcar_exitoso
    mark-Completed link db now f h =
        let (answered, same) = call-answered R link db _ success h in
        let reply = outcome_answer-reply _ success answered in
        let (it', e, state, payload, hash) =
          completed_is_claimed R db0 inv it.id px now w w it f.events f.named given (
            ap (λ d. (mark_success R d it.id w (version_or_one it.version) now).0) f.played
            ∙ reply) in
        (it', rw (same, outcome_answer-commands _) (rw (f.played) at e), state, payload, hash)

    after_crm-completes :
        (t : Turn) (r : CrmReply) (db : Db)
        → Reaches R (leased R db0 it.id w px it) db
        → (after_crm R sha dump settings load es_falla_texto is_success_text t db it w
            r).result.despachado_exito
          ≡ true
        → Completed
            (after_crm R sha dump settings load es_falla_texto is_success_text t db it w r).db
            it
    unfolding after_crm
    after_crm-completes t (crm_raises f) db reach h =
        absurd (fail_turn-Unsuccessful t db it w f.message true f.es_transitoria) h
    after_crm-completes t (crm_refused d m) db reach h =
        absurd (fail_turn-Unsuccessful t db it w m _ false) h
    after_crm-completes t crm_notified db reach h =
        rw (after_mark-db it _)
          (mark-Completed t.mark_link db t.now reach (after_mark-success it _ h))

    -- A worker claims an item from a consistent queue and runs its turn, whatever the SFC and the
    -- CRM answer, whatever calls are lost and whatever other clients do: if the turn counts as a
    -- success, the item is completed with the payload and the hash that the worker claimed.
    pub success_completes :
        (t : Turn)
        → TurnIsNamed t
        → (procesar_item R sha dump settings load es_falla_texto is_success_text t
            (leased R db0 it.id w px it)
            it
            w).result.despachado_exito
          ≡ true
        → Completed
            (procesar_item R sha dump settings load es_falla_texto is_success_text t
              (leased R db0 it.id w px it)
              it
              w).db
            it
    unfolding procesar_item paso_crm
    success_completes t (_, sfc, crm) h =
        let s : Step R sha dump settings load es_falla_texto is_success_text =
          paso_sfc R sha dump settings load es_falla_texto is_success_text t
            (leased R db0 it.id w px it) it w in
        elim (Bool-cases s.continuar) [
          | inl y ↦ rw y (
              after_crm-completes t t.crm _
                (Reaches-trans R
                  (paso_sfc-Reaches R sha dump settings load es_falla_texto is_success_text t _ it w
                    sfc)
                  (Reaches-play R s.db t.during_crm crm))
                (rw y at h))
          | inr n ↦ absurd (paso_sfc-Unsuccessful t (leased R db0 it.id w px it) it w) (rw n at h)
        ]
