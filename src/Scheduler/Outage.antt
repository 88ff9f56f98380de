-- ===== src/Scheduler/Outage.antt =====
-- An outage of the SFC: how often a cycle sends before it gives up.
use ms_integracion_smartsupe.Prelude.{
  ℕ, ◌+◌, ◌*◌, ◌⊎◌, sym, ◌∙◌, ◌≤◌, ◌<◌, String, ◌≡◌, refl, Bool, true, false, Option, none, some,
  List, [], ◌∷◌, ◌++◌, Bool-cases, inl, inr, arith, leb, if◌then◌else◌,
}
use ms_integracion_smartsupe.Item.{Item}
use ms_integracion_smartsupe.Classification.{Payload}
use ms_integracion_smartsupe.Redis.{Redis}
use ms_integracion_smartsupe.Remote.{Link}
use ms_integracion_smartsupe.Lock.{RedisLock}
use ms_integracion_smartsupe.Queue.History.{play}
use ms_integracion_smartsupe.Queue.Service.{Settings}
use ms_integracion_smartsupe.Scheduler.{
  Turn, sfc_raises, Failure, Effect, ItemResult, Step, fail_turn, after_sfc, paso_sfc,
  procesar_item,
}
use ms_integracion_smartsupe.Scheduler.Contacts.{
  sends, tells, sends-append, tells-append, procesar_item-contacts,
}
use ms_integracion_smartsupe.Scheduler.Cycle.{
  Cycle, ciclo, reclamar_y_procesar, has_lock, process_claimed, release_after, with_lock,
  after_item, counted_in, start, infra_threshold,
}

-- The SFC raises a transient failure. The webhook of the CRM may answer anything.
pub record IsOutage (t : Turn) : Type 0 where
  pub sfc_failure : Failure
  pub sfc_fails : t.sfc ≡ sfc_raises sfc_failure
  pub sfc_transient : sfc_failure.es_transitoria ≡ true

one_of_two : (b : Bool) → (if b then 0 else 1) + (if b then 1 else 0) ≡ 1
one_of_two true = refl
one_of_two false = refl

module _ (R : Redis) (sha dump : Payload → String) (settings : Settings)
    (load : String → Option Payload) (es_falla_texto is_success_text : String → Bool) where
  open R use {Db}

  -- A step that is over with a failure of the infrastructure.
  abbrev GivesUp : Step R sha dump settings load es_falla_texto is_success_text → Type 0
  GivesUp s = (s.continuar ≡ false) × (s.result.es_falla_infraestructura ≡ true)

  fail_turn-GivesUp :
      (t : Turn) (db : Db) (it : Item) (w m : String) (c i : Bool)
      → i ≡ true
      → GivesUp (fail_turn R sha dump settings load es_falla_texto is_success_text t db it w m c i)
  unfolding fail_turn
  fail_turn-GivesUp t db it w m c i h = (refl, h)

  after_sfc-GivesUp :
      (t : Turn) (db : Db) (it : Item) (w : String)
      → IsOutage t
      → GivesUp (after_sfc R sha dump settings load es_falla_texto is_success_text t db it w t.sfc)
  unfolding after_sfc
  after_sfc-GivesUp t db it w o =
      simp o.sfc_fails (fail_turn-GivesUp t db it w o.sfc_failure.message true _ o.sfc_transient)

  turn-infra :
      (t : Turn) (db : Db) (it : Item) (w : String)
      → IsOutage t
      → it.sfc_completado ≡ false
      → (procesar_item R sha dump settings load es_falla_texto is_success_text t db it
          w).result.es_falla_infraestructura
        ≡ true
  unfolding paso_sfc procesar_item
  turn-infra t db it w o n =
      let (stops, infra) = after_sfc-GivesUp t (play R db t.during_sfc) it w o in
      simp (n, stops) infra

  paso_sfc-outage :
      (t : Turn) (db : Db) (it : Item) (w : String)
      → IsOutage t
      → (paso_sfc R sha dump settings load es_falla_texto is_success_text t db it w).continuar
        ≡ it.sfc_completado
  unfolding paso_sfc
  paso_sfc-outage t db it w o = elim (Bool-cases it.sfc_completado) [
    | inl y ↦ simp y refl
    | inr n ↦ simp n (after_sfc-GivesUp t (play R db t.during_sfc) it w o).0
  ]

  -- One system is contacted, and where it is the SFC the turn is a failure of the infrastructure.
  abbrev IsOneContact : ItemResult → List Effect → Type 0
  IsOneContact r effects =
      (sends effects + tells effects ≡ 1)
      × ((r.es_falla_infraestructura ≡ true) ⊎ (tells effects ≡ 1))

  turn-IsOneContact :
      (t : Turn) (db : Db) (it : Item) (w : String)
      → IsOutage t
      → IsOneContact
          (procesar_item R sha dump settings load es_falla_texto is_success_text t db it w).result
          (procesar_item R sha dump settings load es_falla_texto is_success_text t db it w).effects
  turn-IsOneContact t db it w o =
      let (sent, told0) =
        procesar_item-contacts R sha dump settings load es_falla_texto is_success_text t db it w in
      let told = rw (paso_sfc-outage t db it w o) at told0 in
      (
        omega (arith, sent, told, one_of_two it.sfc_completado),
        elim (Bool-cases it.sfc_completado) [
          | inl y ↦ inr (simp y at told)
          | inr n ↦ inl (turn-infra t db it w o n)
        ],
      )

  module _ (despacho_lock : String → String) (token : ℕ → String) where
    -- What an item is to the cycle in an outage: nothing, or one contact.
    abbrev IsOneItem : Option ItemResult × List Effect × Db → Type 0
    IsOneItem (none, effects, db) = (sends effects ≡ 0) × (tells effects ≡ 0)
    IsOneItem (some r, effects, db) = IsOneContact r effects

    process_claimed-outage :
        (t : Turn) (w : String) (l : RedisLock) (r : Option Item × Db)
        → IsOutage t
        → IsOneItem (
            release_after R sha dump settings load es_falla_texto is_success_text despacho_lock
              token t l
              (process_claimed R sha dump settings load es_falla_texto is_success_text despacho_lock
                token t w r))
    process_claimed-outage t w l (none, db) o = (refl, refl)
    process_claimed-outage t w l (some it, db) o = turn-IsOneContact t db it w o

    with_lock-outage :
        (t : Turn) (it : Item) (w : String) (r : RedisLock × Db)
        → IsOutage t
        → IsOneItem (
            with_lock R sha dump settings load es_falla_texto is_success_text despacho_lock token t
              it w r)
    with_lock-outage t it w (l, db) o = elim (Bool-cases (has_lock l)) [
      | inl y ↦ simp y (process_claimed-outage t w l _ o)
      | inr n ↦ simp n (refl, refl)
    ]

    reclamar_y_procesar-outage :
        (t : Turn) (db : Db) (it : Item) (w : String)
        → IsOutage t
        → IsOneItem (
            reclamar_y_procesar R sha dump settings load es_falla_texto is_success_text
              despacho_lock token t db it w)
    unfolding reclamar_y_procesar
    reclamar_y_procesar-outage t db it w o = with_lock-outage t it w _ o

    -- From here to the end of the cycle: what is sent, with the failures counted so far, is at most
    -- three and two for each time that the CRM is told.
    abbrev Bounded : Cycle Db → Cycle Db → Type 0
    Bounded c final =
        sends final.effects + c.fallas_consecutivas + 2 * tells c.effects
        ≤ sends c.effects + infra_threshold + 2 * tells final.effects

    after_item-outage :
        (defer_links : ℕ → Link) (now : ℕ) (its : List Item) (c : Cycle Db)
        (r : Option ItemResult × List Effect × Db) (next : Cycle Db → Cycle Db)
        → IsOneItem r
        → c.fallas_consecutivas < infra_threshold
        → ((d : Cycle Db) → d.fallas_consecutivas < infra_threshold → Bounded d (next d))
        → Bounded c (
            after_item R sha dump settings load es_falla_texto is_success_text despacho_lock token
              defer_links now its c r next)
    after_item-outage defer_links now its c (none, effects, db) next (no_send, no_tell) few go =
        let s = sends-append c.effects effects in
        let u = tells-append c.effects effects in
        let rest = go (record c { effects = c.effects ++ effects; db = db }) few in
        omega (arith, s, u, no_send, no_tell, rest)
    after_item-outage defer_links now its c (some r, effects, db) next (one, which) few go =
        let s = sends-append c.effects effects in
        let u = tells-append c.effects effects in
        let n : ℕ = c.fallas_consecutivas + 1 in
        let counted : Cycle Db =
          counted_in R sha dump settings load es_falla_texto is_success_text despacho_lock token c
            effects db r in
        elim (Bool-cases r.es_falla_infraestructura) [
          | inl infra ↦ elim (Bool-cases (leb infra_threshold n)) [
            | inl many ↦ simp (infra, many) (omega (arith, s, u, one, few))
            | inr below ↦
                let rest =
                  go (record counted { fallas_consecutivas = n }) (ground (arith, below)) in
                simp (infra, below) (omega (arith, s, u, one, rest))
          ]
          | inr calm ↦
              let told : tells effects ≡ 1 = elim which [
                | inl bad ↦ (let b : Path Bool false true = sym calm ∙ bad in cc)
                | inr e ↦ e
              ] in
              let rest = go (record counted { fallas_consecutivas = 0 }) (omega arith) in
              simp calm (omega (arith, s, u, one, told, few, rest))
        ]

    ciclo-outage :
        (turns : ℕ → Turn) (defer_links : ℕ → Link) (now : ℕ) (w : String)
        → ((i : ℕ) → IsOutage (turns i))
        → (its : List Item) (c : Cycle Db) → c.fallas_consecutivas < infra_threshold
        → Bounded c (
            ciclo R sha dump settings load es_falla_texto is_success_text despacho_lock token turns
              defer_links now w its c)
    unfolding ciclo
    ciclo-outage turns defer_links now w o [] c few = omega arith
    ciclo-outage turns defer_links now w o (it ∷ its) c few =
        after_item-outage defer_links now its c
          (reclamar_y_procesar R sha dump settings load es_falla_texto is_success_text despacho_lock
            token (turns it.id) c.db it w)
          (ciclo R sha dump settings load es_falla_texto is_success_text despacho_lock token turns
            defer_links now w its)
          (reclamar_y_procesar-outage (turns it.id) c.db it w (o it.id)) few
          (λ d. ciclo-outage turns defer_links now w o its d)

    -- While the SFC raises transient failures, a cycle sends to it at most three times, and twice
    -- more for each item that was sent before and of which the CRM is told in the cycle, however
    -- long the batch is, whatever the CRM answers and whatever other clients do.
    pub outage_sends_few :
        (turns : ℕ → Turn) (defer_links : ℕ → Link) (now : ℕ) (w : String) (its : List Item)
        (db : Db)
        → ((i : ℕ) → IsOutage (turns i))
        → sends
            (ciclo R sha dump settings load es_falla_texto is_success_text despacho_lock token turns
              defer_links now w its
              (start R sha dump settings load es_falla_texto is_success_text despacho_lock token
                db)).effects
          ≤ infra_threshold
            + 2
              * tells
                  (ciclo R sha dump settings load es_falla_texto is_success_text despacho_lock token
                    turns defer_links now w its
                    (start R sha dump settings load es_falla_texto is_success_text despacho_lock
                      token db)).effects
    outage_sends_few turns defer_links now w its db o =
        let bound =
          ciclo-outage turns defer_links now w o its
            (start R sha dump settings load es_falla_texto is_success_text despacho_lock token db)
            (omega arith) in
        omega (arith, bound)
