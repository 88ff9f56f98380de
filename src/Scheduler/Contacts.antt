-- ===== src/Scheduler/Contacts.antt =====
-- How often a turn sends to the SFC and tells the CRM.
use ms_integracion_smartsupe.Prelude.{
  ℕ, ◌+◌, String, ◌≡◌, ◌∙◌, refl, ap, Bool, true, Option, none, some, List, [], ◌∷◌, ◌++◌,
  Bool-cases, inl, inr, arith, if◌then◌else◌,
}
use ms_integracion_smartsupe.Item.{Item}
use ms_integracion_smartsupe.Classification.{Payload, infer_operation_type}
use ms_integracion_smartsupe.Redis.{Redis}
use ms_integracion_smartsupe.Queue.Script.Types.{
  Outcome, success, not_owner, item_not_found, version_mismatch, script_error,
}
use ms_integracion_smartsupe.Queue.History.{play}
use ms_integracion_smartsupe.Queue.Service.{Settings, Notice, registrar_fallo}
use ms_integracion_smartsupe.Scheduler.{
  Turn, SfcReply, sfc_result, sfc_error, sfc_raises, CrmReply, crm_notified, crm_refused,
  crm_raises, Effect, sends_to_sfc, tells_crm, cleans_checkpoint, alerts_duplicate_risk, notifies,
  announces_recovery, notifications, Step, fail_turn, failed_with, after_persist, after_sfc,
  paso_sfc, after_mark, after_crm, paso_crm, procesar_item, cleaning, es_cierre_operation,
  payload_or_empty,
}

abbrev pub sends : List Effect → ℕ
sends [] = 0
sends (sends_to_sfc it ∷ es) = sends es + 1
sends (_ ∷ es) = sends es

abbrev pub tells : List Effect → ℕ
tells [] = 0
tells (tells_crm it ∷ es) = tells es + 1
tells (_ ∷ es) = tells es

pub sends-append : (es ds : List Effect) → sends (es ++ ds) ≡ sends es + sends ds
sends-append [] ds = omega arith
sends-append (sends_to_sfc it ∷ es) ds =
    let rest : sends (es ++ ds) ≡ sends es + sends ds = sends-append es ds in omega arith
sends-append (tells_crm it ∷ es) ds = sends-append es ds
sends-append (cleans_checkpoint c ∷ es) ds = sends-append es ds
sends-append (alerts_duplicate_risk c ∷ es) ds = sends-append es ds
sends-append (notifies n ∷ es) ds = sends-append es ds
sends-append (announces_recovery n ∷ es) ds = sends-append es ds

pub tells-append : (es ds : List Effect) → tells (es ++ ds) ≡ tells es + tells ds
tells-append [] ds = omega arith
tells-append (tells_crm it ∷ es) ds =
    let rest : tells (es ++ ds) ≡ tells es + tells ds = tells-append es ds in omega arith
tells-append (sends_to_sfc it ∷ es) ds = tells-append es ds
tells-append (cleans_checkpoint c ∷ es) ds = tells-append es ds
tells-append (alerts_duplicate_risk c ∷ es) ds = tells-append es ds
tells-append (notifies n ∷ es) ds = tells-append es ds
tells-append (announces_recovery n ∷ es) ds = tells-append es ds

-- Neither system is contacted.
abbrev Silent : List Effect → Type 0
Silent es = (sends es ≡ 0) × (tells es ≡ 0)

notifications-Silent : (ns : List Notice) → Silent (notifications ns)
notifications-Silent [] = (refl, refl)
notifications-Silent (n ∷ ns) = notifications-Silent ns

module _ (R : Redis) (sha dump : Payload → String) (settings : Settings)
    (load : String → Option Payload) (es_falla_texto is_success_text : String → Bool) where
  open R use {Db}

  failed_with-Silent :
      (infra : Bool) (r : Outcome × List Notice × Db)
      → Silent (failed_with R sha dump settings load es_falla_texto is_success_text infra r).effects
  failed_with-Silent infra (o, notices, db) = notifications-Silent notices

  fail_turn-Silent :
      (t : Turn) (db : Db) (it : Item) (w m : String) (c i : Bool)
      → Silent
          (fail_turn R sha dump settings load es_falla_texto is_success_text t db it w m c
            i).effects
  unfolding fail_turn
  fail_turn-Silent t db it w m c i = failed_with-Silent i (
      registrar_fallo R sha dump settings t.fail_link t.release_link db it (load it.payload_json) m
        w c t.now)

  cleaning-Silent :
      (it : Item) (m : String)
      → Silent (cleaning R sha dump settings load es_falla_texto is_success_text it m)
  cleaning-Silent it m =
      elim (Bool-cases (
        es_cierre_operation R sha dump settings load es_falla_texto is_success_text
          (infer_operation_type (payload_or_empty (load it.payload_json))))) [
            | inl y ↦ elim (Bool-cases (is_success_text m)) [
              | inl z ↦ simp (y, z) (refl, refl)
              | inr z ↦ simp (y, z) (refl, refl)
            ]
            | inr n ↦ simp n (refl, refl)
          ]

  after_persist-Silent :
      (it : Item) (m : String) (r : Option Outcome × Db)
      → Silent
          (after_persist R sha dump settings load es_falla_texto is_success_text it m r).effects
  after_persist-Silent it m (none, db) = (refl, refl)
  after_persist-Silent it m (some success, db) = cleaning-Silent it m
  after_persist-Silent it m (some not_owner, db) = (refl, refl)
  after_persist-Silent it m (some item_not_found, db) = (refl, refl)
  after_persist-Silent it m (some version_mismatch, db) = (refl, refl)
  after_persist-Silent it m (some script_error, db) = (refl, refl)

  after_sfc-Silent :
      (t : Turn) (db : Db) (it : Item) (w : String) (r : SfcReply)
      → Silent
          (after_sfc R sha dump settings load es_falla_texto is_success_text t db it w r).effects
  unfolding after_sfc
  after_sfc-Silent t db it w (sfc_raises f) = fail_turn-Silent t db it w f.message true _
  after_sfc-Silent t db it w (sfc_error m) = fail_turn-Silent t db it w m true _
  after_sfc-Silent t db it w (sfc_result m) = after_persist-Silent it m _

  after_mark-Silent :
      (it : Item) (r : Option Outcome × Db)
      → Silent (after_mark R sha dump settings load es_falla_texto is_success_text it r).effects
  after_mark-Silent it (none, db) = (refl, refl)
  after_mark-Silent it (some o, db) = (refl, refl)

  after_crm-Silent :
      (t : Turn) (db : Db) (it : Item) (w : String) (r : CrmReply)
      → Silent
          (after_crm R sha dump settings load es_falla_texto is_success_text t db it w r).effects
  unfolding after_crm
  after_crm-Silent t db it w (crm_raises f) = fail_turn-Silent t db it w f.message true _
  after_crm-Silent t db it w (crm_refused d m) = fail_turn-Silent t db it w m _ _
  after_crm-Silent t db it w crm_notified = after_mark-Silent it _

  pub paso_sfc-contacts :
      (t : Turn) (db : Db) (it : Item) (w : String)
      → (sends (paso_sfc R sha dump settings load es_falla_texto is_success_text t db it w).effects
          ≡ (if it.sfc_completado then 0 else 1))
        × (tells
              (paso_sfc R sha dump settings load es_falla_texto is_success_text t db it w).effects
            ≡ 0)
  unfolding paso_sfc
  paso_sfc-contacts t db it w = elim (Bool-cases it.sfc_completado) [
    | inl y ↦ simp y (refl, refl)
    | inr n ↦
        let (s, u) = after_sfc-Silent t (play R db t.during_sfc) it w t.sfc in
        simp n (ap (λ k. k + 1) s, u)
  ]

  paso_crm-contacts :
      (t : Turn) (db : Db) (it : Item) (w : String)
      → (sends (paso_crm R sha dump settings load es_falla_texto is_success_text t db it w).effects
          ≡ 0)
        × (tells
              (paso_crm R sha dump settings load es_falla_texto is_success_text t db it w).effects
            ≡ 1)
  unfolding paso_crm
  paso_crm-contacts t db it w =
      let (s, u) = after_crm-Silent t (play R db t.during_crm) it w t.crm in (s, ap (λ k. k + 1) u)

  -- A turn sends the item to the SFC once, or not at all where the SFC has it already, and tells
  -- the CRM once, where the step of the SFC lets it go on, or else not at all.
  pub procesar_item-contacts :
      (t : Turn) (db : Db) (it : Item) (w : String)
      → (sends
            (procesar_item R sha dump settings load es_falla_texto is_success_text t db it
              w).effects
          ≡ (if it.sfc_completado then 0 else 1))
        × (tells
              (procesar_item R sha dump settings load es_falla_texto is_success_text t db it
                w).effects
            ≡ (if (paso_sfc R sha dump settings load es_falla_texto is_success_text t db it
                  w).continuar
                then 1
                else 0))
  unfolding procesar_item
  procesar_item-contacts t db it w =
      let s : Step R sha dump settings load es_falla_texto is_success_text =
        paso_sfc R sha dump settings load es_falla_texto is_success_text t db it w in
      let (sent, told) = paso_sfc-contacts t db it w in
      elim (Bool-cases s.continuar) [
        | inl y ↦
            let (sent', told') = paso_crm-contacts t s.db it w in
            simp y (
              sends-append s.effects _ ∙ (omega (arith, sent, sent')),
              tells-append s.effects _ ∙ (omega (arith, told, told')),
            )
        | inr n ↦ simp n (sent, told)
      ]
