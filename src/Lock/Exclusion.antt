-- ===== src/Lock/Exclusion.antt =====
-- One holder at a time.
use ms_integracion_smartsupe.Prelude.{
  ℕ, String, ◌≡◌, Bool, true, false, not, ◌&&◌, none, some, List, [], ◌∷◌, arith, str_eq, eq_iff,
}
use ms_integracion_smartsupe.Redis.{Redis, Command, lock_key, owner, del, run, get-run}
use ms_integracion_smartsupe.Remote.{Link, up, call}
use ms_integracion_smartsupe.Lock.{RedisLock, try_lock, extend_lock, release_lock, acquire, release}
use ms_integracion_smartsupe.Lock.Spec.{
  LockEvent, tries, extends, releases, expires, lock_call, lock_play,
}

-- No event of the history gives the lock `k` of the holder `t` back or ends its lease.
abbrev pub keeps_lock : String → String → LockEvent → Bool
keeps_lock k t (releases j u) = not (str_eq j k && str_eq u t)
keeps_lock k t (expires j) = not (str_eq j k)
keeps_lock k t _ = true

abbrev pub keep_lock : String → String → List LockEvent → Bool
keep_lock k t [] = true
keep_lock k t (e ∷ es) = keeps_lock k t e && keep_lock k t es

module _ (R : Redis) (k t : String) where
  open R use {Db, get}

  held-call :
      (db : Db) (e : LockEvent)
      → get db (lock_key k) ≡ some (owner t)
      → keeps_lock k t e ≡ true
      → get (run R db (lock_call R db e).1) (lock_key k) ≡ some (owner t)
  unfolding lock_call try_lock extend_lock release_lock
  held-call db (tries j u s) h e =
      ground (arith, eq_iff j k, get-run R db (try_lock R db j u s).1 (lock_key k))
  held-call db (extends j u ms) h e =
      ground (arith, eq_iff j k, get-run R db (extend_lock R db j u ms).1 (lock_key k))
  held-call db (releases j u) h e = ground (
    arith,
    eq_iff j k,
    eq_iff t u,
    eq_iff u t,
    get-run R db (release_lock R db j u).1 (lock_key k),
  )
  held-call db (expires j) h e = ground (arith, get-run R db (del (lock_key j) ∷ []) (lock_key k))

  held-play :
      (es : List LockEvent) (db : Db)
      → get db (lock_key k) ≡ some (owner t)
      → keep_lock k t es ≡ true
      → get (lock_play R db es) (lock_key k) ≡ some (owner t)
  unfolding lock_play
  held-play [] db h e = h
  held-play (d ∷ es) db h e =
      held-play es (run R db (lock_call R db d).1) (held-call db d h (ground arith)) (ground arith)

  module _ (db : Db) (s : ℕ) (es : List LockEvent) where
    abbrev pub later : Db
    later = lock_play R (run R db (try_lock R db k t s).1) es

    taken :
        (try_lock R db k t s).0 ≡ true
        → get (run R db (try_lock R db k t s).1) (lock_key k) ≡ some (owner t)
    unfolding try_lock
    taken h = ground (arith, eq_iff k k, get-run R db (try_lock R db k t s).1 (lock_key k))

    -- After a token has taken a lock, and through any history in which it is not released with
    -- that token and its lease does not end, no other token takes, extends or releases it: the
    -- calls reply no and write nothing. The holder's own extension succeeds.
    pub lock_excludes :
        (u : String) (s' ms : ℕ)
        → (try_lock R db k t s).0 ≡ true
        → keep_lock k t es ≡ true
        → str_eq t u ≡ false
        → (try_lock R later k u s' ≡ (false, []))
          × (extend_lock R later k u ms ≡ (false, []))
          × (release_lock R later k u ≡ (false, []))
          × ((extend_lock R later k t ms).0 ≡ true)
    lock_excludes u s' ms h e n =
        let held : get later (lock_key k) ≡ some (owner t) = held-play es _ (taken h) e in
        (
          unfold try_lock in ground (arith, held),
          unfold extend_lock in ground (arith, held),
          unfold release_lock in ground (arith, held),
          unfold extend_lock in ground (arith, held, eq_iff t t),
        )

module _ (R : Redis) (db : R.Db) (l : RedisLock) where
  open R use {get}

  -- An `acquire` that is answered with success holds the lock in Redis; the `release` that follows,
  -- when it is answered, leaves the lock free, and in any case the object does not claim it.
  pub acquire-release :
      (link' : Link)
      → (acquire R up db l).0.acquired ≡ true
      → (get (acquire R up db l).1 (lock_key l.key) ≡ some (owner l.owner_token))
        × ((release R link' (acquire R up db l).1 (acquire R up db l).0).0.acquired ≡ false)
        × (get (release R up (acquire R up db l).1 (acquire R up db l).0).1 (lock_key l.key) ≡ none)
  unfolding acquire release call try_lock release_lock
  acquire-release link' h =
      let tr : Bool × List Command = try_lock R db l.key l.owner_token l.lease_segundos in
      let db1 : R.Db = (acquire R up db l).1 in
      let held : get db1 (lock_key l.key) ≡ some (owner l.owner_token) =
        ground (arith, eq_iff l.key l.key, get-run R db tr.1 (lock_key l.key)) in
      (
        held,
        ground arith,
        ground (
          arith,
          held,
          eq_iff l.key l.key,
          eq_iff l.owner_token l.owner_token,
          get-run R db1 (release_lock R db1 l.key l.owner_token).1 (lock_key l.key),
        ),
      )
