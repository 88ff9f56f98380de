-- ===== src/Scheduler/Cycle.antt =====
-- `_reclamar_y_procesar_si_lock_disponible` and `reintentar_despachos_pendientes_job`.
use ms_integracion_smartsupe.Prelude.{
  ℕ, ◌+◌, String, Bool, false, ◌&&◌, not, ◌==◌, leb, ltb, Option, none, some, List, [], ◌∷◌, ◌++◌,
  if◌then◌else◌,
}
use ms_integracion_smartsupe.Item.{Item}
use ms_integracion_smartsupe.Classification.{Payload}
use ms_integracion_smartsupe.Redis.{Redis}
use ms_integracion_smartsupe.Remote.{Link}
use ms_integracion_smartsupe.Lock.{RedisLock, acquire, release}
use ms_integracion_smartsupe.Queue.History.{play}
use ms_integracion_smartsupe.Queue.Service.{Settings, reclamar_item, diferir_pendientes}
use ms_integracion_smartsupe.Queue.Service.Reports.{contar_pendientes}
use ms_integracion_smartsupe.Scheduler.{Turn, Effect, announces_recovery, ItemResult, procesar_item}

-- `UMBRAL_FALLAS_INFRA_CONSECUTIVAS_PARA_DIFERIR`
abbrev pub infra_threshold : ℕ
infra_threshold = 3

-- A lock that `acquire` has been called on was taken: `acquired`, and no error of Redis.
abbrev pub has_lock : RedisLock → Bool
has_lock l = l.acquired && not l.redis_error

-- The counters of the cycle, its effects and Redis.
pub record Cycle (D : Type 0) : Type 0 where
  pub fallas_consecutivas : ℕ
  pub exitos : ℕ
  pub fallidos : ℕ
  pub effects : List Effect
  pub db : D

-- `despacho_lock` names the lock of a case; `token` is the `uuid4` that a lock object draws.
module _ (R : Redis) (sha dump : Payload → String) (settings : Settings)
    (load : String → Option Payload) (es_falla_texto is_success_text : String → Bool)
    (despacho_lock : String → String) (token : ℕ → String) where
  open R use {Db}

  abbrev pub lock_of : Item → RedisLock
  lock_of it = record {
    key = despacho_lock it.smart_code;
    owner_token = token it.id;
    lease_segundos = 180;
    acquired = false;
    redis_error = false;
  }

  -- The item as it is stored, not as it was listed, is processed.
  abbrev pub process_claimed :
      Turn → String → Option Item × Db → Option ItemResult × List Effect × Db
  process_claimed t w (none, db) = (none, [], db)
  process_claimed t w (some it, db) =
      let s = procesar_item R sha dump settings load es_falla_texto is_success_text t db it w in
      (some s.result, s.effects, s.db)

  abbrev pub release_after :
      Turn → RedisLock → Option ItemResult × List Effect × Db → Option ItemResult × List Effect × Db
  release_after t l (r, effects, db) = (r, effects, (release R t.unlock_link db l).1)

  abbrev pub with_lock :
      Turn → Item → String → RedisLock × Db → Option ItemResult × List Effect × Db
  with_lock t it w (l, db) =
      if has_lock l
      then release_after t l (
          process_claimed t w
            (reclamar_item R sha dump settings t.claim_link (play R db t.before_claim) it.id w 60))
      else (none, [], db)

  unfoldable pub reclamar_y_procesar :
      Turn → Db → Item → String → Option ItemResult × List Effect × Db
  reclamar_y_procesar t db it w = with_lock t it w (acquire R t.lock_link db (lock_of it))

  abbrev count_if : Bool → ℕ
  count_if b = if b then 1 else 0

  -- What one result does to the counters of the cycle.
  abbrev pub counted_in : Cycle Db → List Effect → Db → ItemResult → Cycle Db
  counted_in c effects db r = record {
    fallas_consecutivas = if r.es_falla_infraestructura then c.fallas_consecutivas + 1 else 0;
    exitos = c.exitos + count_if r.despachado_exito;
    fallidos = c.fallidos + count_if r.fallido;
    effects = c.effects ++ effects;
    db = db;
  }

  -- After an item: the rest of the batch is deferred, or the loop goes on with it.
  abbrev pub after_item :
      (ℕ → Link)
      → ℕ
      → List Item
      → Cycle Db
      → Option ItemResult × List Effect × Db
      → (Cycle Db → Cycle Db)
      → Cycle Db
  after_item defer_links now its c (none, effects, db) next =
      next (record c { effects = c.effects ++ effects; db = db })
  after_item defer_links now its c (some r, effects, db) next =
      let c' = counted_in c effects db r in
      if r.es_falla_infraestructura && leb infra_threshold c'.fallas_consecutivas
      then record c' {
        db =
            (diferir_pendientes R sha dump settings defer_links c'.db its
              (some settings.retry_interval_ms) now 0).1;
      }
      else next c'

  -- The loop over `pendientes`.
  unfoldable pub ciclo : (ℕ → Turn) → (ℕ → Link) → ℕ → String → List Item → Cycle Db → Cycle Db
  ciclo turns defer_links now w [] c = c
  ciclo turns defer_links now w (it ∷ its) c =
      let next = ciclo turns defer_links now w its in
      after_item defer_links now its c (reclamar_y_procesar (turns it.id) c.db it w) next

  -- `_notificar_autorrecuperacion_si_aplica`; an exception is logged.
  abbrev recovery : ℕ → Option ℕ → List Effect
  recovery exitos none = []
  recovery exitos (some restantes) =
      if ltb 0 exitos && restantes == 0 then announces_recovery exitos ∷ [] else []

  abbrev pub start : Db → Cycle Db
  start db = record { fallas_consecutivas = 0; exitos = 0; fallidos = 0; effects = []; db = db }

  -- The part of the job between its lock and its metrics, for a batch that is not empty.
  unfoldable pub lote : (ℕ → Turn) → (ℕ → Link) → Link → ℕ → String → List Item → Db → Cycle Db
  lote turns defer_links count_link now w pendientes db =
      let c = ciclo turns defer_links now w pendientes (start db) in
      record c { effects = c.effects ++ recovery c.exitos (contar_pendientes R count_link c.db).0 }

  abbrev pub job_lock : String → String → RedisLock
  job_lock key owner_token = record {
    key = key;
    owner_token = owner_token;
    lease_segundos = 60;
    acquired = false;
    redis_error = false;
  }

  -- What the job does under its lock with the listing: nothing for an exception or an empty one.
  abbrev run_listed :
      (ℕ → Turn) → (ℕ → Link) → Link → ℕ → String → Option (List Item) → Db → Cycle Db
  run_listed turns defer_links count_link now w none db = start db
  run_listed turns defer_links count_link now w (some []) db = start db
  run_listed turns defer_links count_link now w (some (it ∷ its)) db =
      lote turns defer_links count_link now w (it ∷ its) db

  -- The `finally` of the job.
  abbrev unlocked : Link → RedisLock → Cycle Db → Cycle Db
  unlocked unlock_link l c = record c { db = (release R unlock_link c.db l).1 }

  abbrev run_locked :
      (ℕ → Turn)
      → (ℕ → Link)
      → Link
      → Link
      → ℕ
      → String
      → (Db → Option (List Item))
      → RedisLock × Db
      → Cycle Db
  run_locked turns defer_links count_link unlock_link now w listado (l, db) =
      if has_lock l
      then unlocked unlock_link l (run_listed turns defer_links count_link now w (listado db) db)
      else start db

  -- `reintentar_despachos_pendientes_job`: `listado` is `obtener_pendientes_para_reintento`, `none`
  -- for an exception. The job's lock is released whatever the cycle comes to. The alert on overdue
  -- cases before the listing and the metrics after it only read.
  unfoldable pub reintentar_job :
      (ℕ → Turn)
      → (ℕ → Link)
      → Link
      → Link
      → Link
      → ℕ
      → String
      → String
      → String
      → (Db → Option (List Item))
      → Db
      → Cycle Db
  reintentar_job turns defer_links lock_link count_link unlock_link now w key owner_token listado
        db =
      run_locked turns defer_links count_link unlock_link now w listado
        (acquire R lock_link db (job_lock key owner_token))
