-- ===== src/Scheduler/Steps.antt =====
-- A turn and a cycle of the scheduler are histories of scripts.
use ms_integracion_smartsupe.Prelude.{
  ℕ, ◌+◌, String, ◌≡◌, refl, Bool, true, ◌&&◌, leb, Option, none, some, List, [], ◌∷◌, Bool-cases,
  inl, inr, if◌then◌else◌,
}
use ms_integracion_smartsupe.Item.{Item}
use ms_integracion_smartsupe.Classification.{Payload}
use ms_integracion_smartsupe.Redis.{Redis}
use ms_integracion_smartsupe.Remote.{Link}
use ms_integracion_smartsupe.Lock.{RedisLock}
use ms_integracion_smartsupe.Queue.Script.Types.{
  Outcome, success, not_owner, item_not_found, version_mismatch, script_error,
}
use ms_integracion_smartsupe.Queue.Consistent.{IsConsistent}
use ms_integracion_smartsupe.Queue.History.{AllNamed, play}
use ms_integracion_smartsupe.Queue.History.Reach.{
  Reaches, Reaches-refl, Reaches-trans, Reaches-play, Reaches-IsConsistent,
}
use ms_integracion_smartsupe.Queue.Service.{Settings, Notice, reclamar_item}
use ms_integracion_smartsupe.Queue.Service.Reach.{
  marcar_exitoso-Reaches, marcar_sfc_completado-Reaches, reclamar_item-Reaches,
  registrar_fallo-Reaches, diferir_pendientes-Reaches, acquire-Reaches, release-Reaches,
}
use ms_integracion_smartsupe.Scheduler.{
  Turn, SfcReply, sfc_result, sfc_error, sfc_raises, CrmReply, crm_notified, crm_refused,
  crm_raises, Effect, ItemResult, Step, fail_turn, failed_with, after_persist, after_sfc, paso_sfc,
  after_mark, after_crm, paso_crm, procesar_item,
}
use ms_integracion_smartsupe.Scheduler.Cycle.{
  Cycle, ciclo, reclamar_y_procesar, has_lock, process_claimed, with_lock, after_item,
}

-- What other clients do in the turn is named.
abbrev pub TurnIsNamed : Turn → Type 0
TurnIsNamed t = AllNamed t.before_claim × AllNamed t.during_sfc × AllNamed t.during_crm

module _ (R : Redis) (sha dump : Payload → String) (settings : Settings)
    (load : String → Option Payload) (es_falla_texto is_success_text : String → Bool) where
  open R use {Db}

  failed_with-db :
      (infra : Bool) (r : Outcome × List Notice × Db)
      → (failed_with R sha dump settings load es_falla_texto is_success_text infra r).db ≡ r.2
  failed_with-db infra (o, notices, db) = refl

  fail_turn-Reaches :
      (t : Turn) (db : Db) (it : Item) (w m : String) (c i : Bool)
      → Reaches R db
          (fail_turn R sha dump settings load es_falla_texto is_success_text t db it w m c i).db
  unfolding fail_turn
  fail_turn-Reaches t db it w m c i = rw (failed_with-db i _) (
      registrar_fallo-Reaches R sha dump settings t.fail_link t.release_link db it
        (load it.payload_json) m w c t.now)

  after_persist-db :
      (it : Item) (m : String) (r : Option Outcome × Db)
      → (after_persist R sha dump settings load es_falla_texto is_success_text it m r).db ≡ r.1
  after_persist-db it m (none, db) = refl
  after_persist-db it m (some success, db) = refl
  after_persist-db it m (some not_owner, db) = refl
  after_persist-db it m (some item_not_found, db) = refl
  after_persist-db it m (some version_mismatch, db) = refl
  after_persist-db it m (some script_error, db) = refl

  after_sfc-Reaches :
      (t : Turn) (db : Db) (it : Item) (w : String) (r : SfcReply)
      → Reaches R db
          (after_sfc R sha dump settings load es_falla_texto is_success_text t db it w r).db
  unfolding after_sfc
  after_sfc-Reaches t db it w (sfc_raises f) = fail_turn-Reaches t db it w f.message true _
  after_sfc-Reaches t db it w (sfc_error m) = fail_turn-Reaches t db it w m true _
  after_sfc-Reaches t db it w (sfc_result m) = rw (after_persist-db it m _) (
      marcar_sfc_completado-Reaches R sha dump settings 3 t.persist_links db it.id w _ it.smart_code
        _ _ it.payload_hash t.now)

  pub paso_sfc-Reaches :
      (t : Turn) (db : Db) (it : Item) (w : String)
      → AllNamed t.during_sfc
      → Reaches R db (paso_sfc R sha dump settings load es_falla_texto is_success_text t db it w).db
  unfolding paso_sfc
  paso_sfc-Reaches t db it w h = elim (Bool-cases it.sfc_completado) [
    | inl y ↦ simp y (Reaches-refl R db)
    | inr n ↦
        simp n
          (Reaches-trans R (Reaches-play R db t.during_sfc h) (after_sfc-Reaches t _ it w t.sfc))
  ]

  after_mark-db :
      (it : Item) (r : Option Outcome × Db)
      → (after_mark R sha dump settings load es_falla_texto is_success_text it r).db ≡ r.1
  after_mark-db it (none, db) = refl
  after_mark-db it (some o, db) = refl

  after_crm-Reaches :
      (t : Turn) (db : Db) (it : Item) (w : String) (r : CrmReply)
      → Reaches R db
          (after_crm R sha dump settings load es_falla_texto is_success_text t db it w r).db
  unfolding after_crm
  after_crm-Reaches t db it w (crm_raises f) = fail_turn-Reaches t db it w f.message true _
  after_crm-Reaches t db it w (crm_refused d m) = fail_turn-Reaches t db it w m _ _
  after_crm-Reaches t db it w crm_notified =
      rw (after_mark-db it _)
        (marcar_exitoso-Reaches R sha dump settings t.mark_link db it.id w _ t.now)

  paso_crm-Reaches :
      (t : Turn) (db : Db) (it : Item) (w : String)
      → AllNamed t.during_crm
      → Reaches R db (paso_crm R sha dump settings load es_falla_texto is_success_text t db it w).db
  unfolding paso_crm
  paso_crm-Reaches t db it w h =
      Reaches-trans R (Reaches-play R db t.during_crm h) (after_crm-Reaches t _ it w t.crm)

  -- A turn is a history.
  pub procesar_item-Reaches :
      (t : Turn) (db : Db) (it : Item) (w : String)
      → TurnIsNamed t
      → Reaches R db
          (procesar_item R sha dump settings load es_falla_texto is_success_text t db it w).db
  unfolding procesar_item
  procesar_item-Reaches t db it w (_, sfc, crm) =
      let s : Step R sha dump settings load es_falla_texto is_success_text =
        paso_sfc R sha dump settings load es_falla_texto is_success_text t db it w in
      elim (Bool-cases s.continuar) [
        | inl y ↦
            simp y
              (Reaches-trans R (paso_sfc-Reaches t db it w sfc) (paso_crm-Reaches t s.db it w crm))
        | inr n ↦ simp n (paso_sfc-Reaches t db it w sfc)
      ]

  module _ (despacho_lock : String → String) (token : ℕ → String) where
    process_claimed-Reaches :
        (t : Turn) (w : String) (db : Db) (r : Option Item × Db)
        → TurnIsNamed t
        → Reaches R db r.1
        → Reaches R db
            (process_claimed R sha dump settings load es_falla_texto is_success_text despacho_lock
              token t w r).2
    process_claimed-Reaches t w db (none, db') h f = f
    process_claimed-Reaches t w db (some it, db') h f =
        Reaches-trans R f (procesar_item-Reaches t db' it w h)

    with_lock-Reaches :
        (t : Turn) (it : Item) (w : String) (db : Db) (r : RedisLock × Db)
        → TurnIsNamed t
        → Reaches R db r.1
        → Reaches R db
            (with_lock R sha dump settings load es_falla_texto is_success_text despacho_lock token t
              it w r).2
    with_lock-Reaches t it w db (l, db') h f = elim (Bool-cases (has_lock l)) [
      | inl y ↦ simp y (
          Reaches-trans R
            (process_claimed-Reaches t w db
              (reclamar_item R sha dump settings t.claim_link (play R db' t.before_claim) it.id w
                60)
              h
              (Reaches-trans R f (
                Reaches-trans R (Reaches-play R db' t.before_claim h.0)
                  (reclamar_item-Reaches R sha dump settings t.claim_link _ it.id w 60))))
            (release-Reaches R t.unlock_link _ l))
      | inr n ↦ simp n f
    ]

    pub reclamar_y_procesar-Reaches :
        (t : Turn) (db : Db) (it : Item) (w : String)
        → TurnIsNamed t
        → Reaches R db
            (reclamar_y_procesar R sha dump settings load es_falla_texto is_success_text
              despacho_lock token t db it w).2
    unfolding reclamar_y_procesar
    reclamar_y_procesar-Reaches t db it w h =
        with_lock-Reaches t it w db _ h (acquire-Reaches R t.lock_link db _)

    after_item-Reaches :
        (defer_links : ℕ → Link) (now : ℕ) (its : List Item) (db : Db) (c : Cycle Db)
        (r : Option ItemResult × List Effect × Db) (next : Cycle Db → Cycle Db)
        → Reaches R db r.2
        → ((d : Cycle Db) → Reaches R db d.db → Reaches R db (next d).db)
        → Reaches R db
            (after_item R sha dump settings load es_falla_texto is_success_text despacho_lock token
              defer_links now its c r next).db
    after_item-Reaches defer_links now its db c (none, effects, db') next f k = k _ f
    after_item-Reaches defer_links now its db c (some r, effects, db') next f k =
        elim (Bool-cases (
          r.es_falla_infraestructura
          && leb 3 (if r.es_falla_infraestructura then c.fallas_consecutivas + 1 else 0))) [
            | inl y ↦ simp y (
                Reaches-trans R f (
                  diferir_pendientes-Reaches R sha dump settings defer_links
                    (some settings.retry_interval_ms) now its 0 db'))
            | inr n ↦ simp n (k _ f)
          ]

    ciclo-Reaches :
        (turns : ℕ → Turn) (defer_links : ℕ → Link) (now : ℕ) (w : String) (db : Db)
        → ((i : ℕ) → TurnIsNamed (turns i))
        → (its : List Item) (c : Cycle Db) → Reaches R db c.db
        → Reaches R db
            (ciclo R sha dump settings load es_falla_texto is_success_text despacho_lock token turns
              defer_links now w its c).db
    unfolding ciclo
    ciclo-Reaches turns defer_links now w db h [] c f = f
    ciclo-Reaches turns defer_links now w db h (it ∷ its) c f =
        after_item-Reaches defer_links now its db c _ _
          (Reaches-trans R f (reclamar_y_procesar-Reaches (turns it.id) c.db it w (h it.id)))
          (λ d g. ciclo-Reaches turns defer_links now w db h its d g)

    -- The retry cycle of the scheduler, with whatever the SFC and the CRM answer, whatever calls
    -- are lost and whatever other clients do meanwhile, leaves a consistent queue consistent.
    pub ciclo-IsConsistent :
        (turns : ℕ → Turn) (defer_links : ℕ → Link) (now : ℕ) (w : String) (its : List Item)
        (c : Cycle Db)
        → ((i : ℕ) → TurnIsNamed (turns i))
        → IsConsistent R c.db
        → IsConsistent R
            (ciclo R sha dump settings load es_falla_texto is_success_text despacho_lock token turns
              defer_links now w its c).db
    ciclo-IsConsistent turns defer_links now w its c h inv =
        Reaches-IsConsistent R
          (ciclo-Reaches turns defer_links now w c.db h its c (Reaches-refl R c.db)) inv
