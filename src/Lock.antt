-- ===== src/Lock.antt =====
-- app/core/distributed_lock.py: a lock of Redis with an owner's token, a lease that a heartbeat
-- renews, and a release that compares before it deletes.
pub mod Spec
pub mod Exclusion
mod Examples
use ms_integracion_smartsupe.Prelude.{
  ℕ, ◌*◌, String, ◌≡◌, Bool, true, false, Option, none, some, List, [], ◌∷◌, if◌then◌else◌,
}
use ms_integracion_smartsupe.Redis.{
  Redis, Command, lock_key, owner, set_px, pexpire, del, owned_by, is_some, run,
}
use ms_integracion_smartsupe.Remote.{Link, call}

-- The fields of `RedisLock` that change, and `owner_token`.
pub record RedisLock : Type 0 where
  pub key : String
  pub owner_token : String
  pub lease_segundos : ℕ
  pub acquired : Bool
  pub redis_error : Bool

module _ (R : Redis) where
  open R use {Db, get}

  -- SET with NX and EX.
  unfoldable pub try_lock : Db → String → String → ℕ → Bool × List Command
  try_lock db key token segundos =
      if is_some (get db (lock_key key))
      then (false, [])
      else (true, set_px (lock_key key) (owner token) (segundos * 1000) ∷ [])

  -- EXTEND_LOCK_LUA_SCRIPT; PEXPIRE replies 1 on a key that exists.
  unfoldable pub extend_lock : Db → String → String → ℕ → Bool × List Command
  extend_lock db key token ms =
      if owned_by (get db (lock_key key)) token
      then (true, pexpire (lock_key key) ms ∷ [])
      else (false, [])

  -- RELEASE_LOCK_LUA_SCRIPT
  unfoldable pub release_lock : Db → String → String → Bool × List Command
  release_lock db key token =
      if owned_by (get db (lock_key key)) token
      then (true, del (lock_key key) ∷ [])
      else (false, [])

  abbrev answer_of : Bool × List Command → Option Bool × List Command
  answer_of (b, cs) = (some b, cs)

  -- What `acquire` makes of the reply.
  abbrev pub on_acquire : RedisLock → Option Bool × Db → RedisLock × Db
  on_acquire l (none, db) = (record l { redis_error = true }, db)
  on_acquire l (some b, db) = (record l { acquired = b; redis_error = false }, db)

  unfoldable pub acquire : Link → Db → RedisLock → RedisLock × Db
  acquire link db l =
      on_acquire l (call R link db (answer_of (try_lock db l.key l.owner_token l.lease_segundos)))

  -- One turn of `_heartbeat_loop` after its sleep: only a reply of Redis switches `acquired` off.
  abbrev pub on_heartbeat : RedisLock → Option Bool × Db → RedisLock × Db
  on_heartbeat l (some false, db) = (record l { acquired = false }, db)
  on_heartbeat l (_, db) = (l, db)

  unfoldable pub heartbeat : Link → Db → RedisLock → RedisLock × Db
  heartbeat link db l =
      if l.acquired
      then on_heartbeat l (
          call R link db (answer_of (extend_lock db l.key l.owner_token (l.lease_segundos * 1000))))
      else (l, db)

  -- `release`; a failure is only logged.
  unfoldable pub release : Link → Db → RedisLock → RedisLock × Db
  release link db l =
      if l.acquired
      then (
        record l { acquired = false },
        (call R link db (answer_of (release_lock db l.key l.owner_token))).1,
      )
      else (l, db)
