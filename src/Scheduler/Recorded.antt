-- ===== src/Scheduler/Recorded.antt =====
-- The CRM hears of a case only once the SFC's answer is on record.
use ms_integracion_smartsupe.Prelude.{
  ℕ, String, ◌≡◌, ◌∙◌, sym, refl, ap, Bool, true, false, Option, none, some, List, ◌⊎◌, inl, inr,
  Bool-cases, arith,
}
use ms_integracion_smartsupe.Item.{Item, version_or_one}
use ms_integracion_smartsupe.Classification.{Payload}
use ms_integracion_smartsupe.Redis.{Redis, idempotency_key, record_text}
use ms_integracion_smartsupe.Idempotency.Payload.{completed_key, completed_record}
use ms_integracion_smartsupe.Queue.Script.Types.{
  Outcome, success, not_owner, item_not_found, version_mismatch, script_error,
}
use ms_integracion_smartsupe.Queue.History.{play}
use ms_integracion_smartsupe.Queue.Service.{Settings, Notice}
use ms_integracion_smartsupe.Queue.Service.Persist.{stored}
use ms_integracion_smartsupe.Scheduler.{
  Turn, SfcReply, sfc_result, sfc_error, sfc_raises, sends_to_sfc, with_effect, Step, fail_turn,
  failed_with, after_persist, after_sfc, paso_sfc, procesar_item, payload_or_empty,
}
use ms_integracion_smartsupe.Scheduler.Contacts.{tells, procesar_item-contacts}

-- A test is not both.
absurd {ℓ} : {A : Type ℓ} {b : Bool} → b ≡ false → b ≡ true → A
absurd f t = cc

module _ (R : Redis) (sha dump : Payload → String) (settings : Settings)
    (load : String → Option Payload) (es_falla_texto is_success_text : String → Bool) where
  open R use {Db, get}

  -- The COMPLETED record of the item with this response is under its key.
  abbrev pub IsRecorded : Db → Item → String → ℕ → Type 0
  IsRecorded db it response now =
      get db (
        idempotency_key (
          completed_key sha it.smart_code (payload_or_empty (load it.payload_json))
            it.payload_hash))
      ≡ some (
          record_text (
            completed_record sha it.smart_code (payload_or_empty (load it.payload_json))
              (some response) it.payload_hash now))

  failed_with-stops :
      (infra : Bool) (r : Outcome × List Notice × Db)
      → (failed_with R sha dump settings load es_falla_texto is_success_text infra r).continuar
        ≡ false
  failed_with-stops infra (o, notices, db) = refl

  fail_turn-stops :
      (t : Turn) (db : Db) (it : Item) (w m : String) (c i : Bool)
      → (fail_turn R sha dump settings load es_falla_texto is_success_text t db it w m c
          i).continuar
        ≡ false
  unfolding fail_turn
  fail_turn-stops t db it w m c i = refl

  after_persist-continues :
      (it : Item) (m : String) (r : Option Outcome × Db)
      → (after_persist R sha dump settings load es_falla_texto is_success_text it m r).continuar
        ≡ true
      → (r.0 ≡ some success)
        × ((after_persist R sha dump settings load es_falla_texto is_success_text it m r).db ≡ r.1)
  after_persist-continues it m (none, db) h = cc
  after_persist-continues it m (some success, db) h = (refl, refl)
  after_persist-continues it m (some not_owner, db) h = cc
  after_persist-continues it m (some item_not_found, db) h = cc
  after_persist-continues it m (some version_mismatch, db) h = cc
  after_persist-continues it m (some script_error, db) h = cc

  after_sfc-continues :
      (t : Turn) (db : Db) (it : Item) (w : String) (r : SfcReply)
      → (after_sfc R sha dump settings load es_falla_texto is_success_text t db it w r).continuar
        ≡ true
      → (response : String) × (r ≡ sfc_result response)
        × IsRecorded
            (after_sfc R sha dump settings load es_falla_texto is_success_text t db it w r).db
            it
            response
            t.now
  unfolding after_sfc
  after_sfc-continues t db it w (sfc_raises f) h =
      absurd (fail_turn-stops t db it w f.message true f.es_transitoria) h
  after_sfc-continues t db it w (sfc_error m) h =
      absurd (fail_turn-stops t db it w m true (es_falla_texto m)) h
  after_sfc-continues t db it w (sfc_result m) h =
      let (o, same) = after_persist-continues it m _ h in
      (
        m,
        refl,
        rw same (
            stored R sha dump settings 3 t.persist_links db it.id w (version_or_one it.version)
              it.smart_code (payload_or_empty (load it.payload_json)) (some m) it.payload_hash t.now
              o),
      )

  paso_sfc-fresh :
      (t : Turn) (db : Db) (it : Item) (w : String)
      → it.sfc_completado ≡ false
      → paso_sfc R sha dump settings load es_falla_texto is_success_text t db it w
        ≡ with_effect R sha dump settings load es_falla_texto is_success_text (sends_to_sfc it) (
            after_sfc R sha dump settings load es_falla_texto is_success_text t
              (play R db t.during_sfc)
              it
              w
              t.sfc)
  unfolding paso_sfc
  paso_sfc-fresh t db it w n = simp n refl

  -- Whatever fails in the turn, the CRM is told of the case only if the SFC had answered: the item
  -- was claimed with that on it, or the SFC answers in this turn and, before the CRM is told, the
  -- COMPLETED record with the response is stored under the key of the case, operation and payload.
  pub told-IsRecorded :
      (t : Turn) (db : Db) (it : Item) (w : String)
      → tells
          (procesar_item R sha dump settings load es_falla_texto is_success_text t db it w).effects
        ≡ 1
      → (it.sfc_completado ≡ true)
        ⊎ ((response : String) × (t.sfc ≡ sfc_result response)
            × IsRecorded
                (paso_sfc R sha dump settings load es_falla_texto is_success_text t db it w).db
                it
                response
                t.now)
  told-IsRecorded t db it w h =
      let (_, told) =
        procesar_item-contacts R sha dump settings load es_falla_texto is_success_text t db it w in
      let s : Step R sha dump settings load es_falla_texto is_success_text =
        paso_sfc R sha dump settings load es_falla_texto is_success_text t db it w in
      elim (Bool-cases it.sfc_completado) [
        | inl y ↦ inl y
        | inr n ↦ elim (Bool-cases s.continuar) [
          | inl y ↦
              let fresh = paso_sfc-fresh t db it w n in
              inr (
                rw fresh (
                  after_sfc-continues t (play R db t.during_sfc) it w t.sfc
                    (ap (λ s'. s'.continuar) (sym fresh) ∙ y)))
          | inr stops ↦ ground (arith, h, rw stops at told)
        ]
      ]
