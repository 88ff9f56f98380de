-- ===== src/Lock/Spec.antt =====
-- What a lock promises: a map from names to the token that holds each. Every operation of the
-- lock, and the end of a lease, does to Redis what it does to that map.
use ms_integracion_smartsupe.Prelude.{
  ℕ, String, ◌≡◌, refl, Bool, true, false, Option, none, some, List, [], ◌∷◌, arith, str_eq,
  if◌then◌else◌,
}
use mathlib.Core.Path.{fun_ext}
use ms_integracion_smartsupe.Redis.{
  Redis, Value, Command, lock_key, owner, del, run, get-run, is_some,
}
use ms_integracion_smartsupe.Lock.{try_lock, extend_lock, release_lock}

-- One call of the lock's three scripts, for a name and a token, or the end of a lease.
pub data LockEvent : Type 0 where
  tries : String → String → ℕ → LockEvent
  extends : String → String → ℕ → LockEvent
  releases : String → String → LockEvent
  expires : String → LockEvent

-- The map of holders, changed at one name.
abbrev pub hold : (String → Option String) → String → Option String → String → Option String
hold h k o j = if str_eq k j then o else h j

abbrev pub holds : Option String → String → Bool
holds none t = false
holds (some u) t = str_eq u t

-- What an event does to the holders, and what it replies.
pub spec_step : (String → Option String) → LockEvent → String → Option String
spec_step h (tries k t s) = if is_some (h k) then h else hold h k (some t)
spec_step h (extends k t ms) = h
spec_step h (releases k t) = if holds (h k) t then hold h k none else h
spec_step h (expires k) = hold h k none

pub spec_reply : (String → Option String) → LockEvent → Bool
spec_reply h (tries k t s) = if is_some (h k) then false else true
spec_reply h (extends k t ms) = holds (h k) t
spec_reply h (releases k t) = holds (h k) t
spec_reply h (expires k) = true

pub spec_play : (String → Option String) → List LockEvent → String → Option String
spec_play h [] = h
spec_play h (e ∷ es) = spec_play (spec_step h e) es

abbrev pub holder_of : Option Value → Option String
holder_of (some (owner t)) = some t
holder_of _ = none

-- What lock keys hold is a token.
abbrev pub is_token : Option Value → Bool
is_token none = true
is_token (some (owner t)) = true
is_token (some _) = false

module _ (R : Redis) where
  open R use {Db, get}

  unfoldable pub lock_call : Db → LockEvent → Bool × List Command
  lock_call db (tries k t s) = try_lock R db k t s
  lock_call db (extends k t ms) = extend_lock R db k t ms
  lock_call db (releases k t) = release_lock R db k t
  lock_call db (expires k) = (true, del (lock_key k) ∷ [])

  unfoldable pub lock_play : Db → List LockEvent → Db
  lock_play db [] = db
  lock_play db (e ∷ es) = lock_play (run R db (lock_call db e).1) es

  abbrev pub holders : Db → String → Option String
  holders db k = holder_of (get db (lock_key k))

  abbrev pub HoldsTokens : Db → Type 0
  HoldsTokens db = (k : String) → is_token (get db (lock_key k)) ≡ true

  module _ (db : Db) (tokens : HoldsTokens db) where
    step_tokens : (e : LockEvent) → HoldsTokens (run R db (lock_call db e).1)
    unfolding lock_call try_lock extend_lock release_lock
    step_tokens (tries k t s) j =
        ground (arith, tokens j, get-run R db (try_lock R db k t s).1 (lock_key j))
    step_tokens (extends k t ms) j =
        ground (arith, tokens j, get-run R db (extend_lock R db k t ms).1 (lock_key j))
    step_tokens (releases k t) j =
        ground (arith, tokens j, get-run R db (release_lock R db k t).1 (lock_key j))
    step_tokens (expires k) j =
        ground (arith, tokens j, get-run R db (del (lock_key k) ∷ []) (lock_key j))

    -- One call replies what the map of holders says, and changes it as the map changes.
    step_refines :
        (e : LockEvent)
        → ((lock_call db e).0 ≡ spec_reply (holders db) e)
          × (holders (run R db (lock_call db e).1) ≡ spec_step (holders db) e)
    unfolding lock_call try_lock extend_lock release_lock spec_step spec_reply
    step_refines (tries k t s) = (
      ground (arith, tokens k),
      fun_ext λ j. ground (arith, tokens k, get-run R db (try_lock R db k t s).1 (lock_key j)),
    )
    step_refines (extends k t ms) = (
      ground (arith, tokens k),
      fun_ext λ j. ground (arith, tokens k, get-run R db (extend_lock R db k t ms).1 (lock_key j)),
    )
    step_refines (releases k t) = (
      ground (arith, tokens k),
      fun_ext λ j. ground (arith, tokens k, get-run R db (release_lock R db k t).1 (lock_key j)),
    )
    step_refines (expires k) =
        (refl, fun_ext λ j. ground (arith, get-run R db (del (lock_key k) ∷ []) (lock_key j)))

  -- Over any sequence of calls and ends of leases, from a keyspace whose lock keys hold tokens or
  -- nothing, Redis holds exactly the tokens that the map of holders says, and the next call replies
  -- what that map says.
  pub lock_refines :
      (es : List LockEvent) (e : LockEvent) (db : Db)
      → HoldsTokens db
      → (holders (lock_play db es) ≡ spec_play (holders db) es)
        × ((lock_call (lock_play db es) e).0 ≡ spec_reply (spec_play (holders db) es) e)
  unfolding lock_play spec_play
  lock_refines [] e db h = (refl, (step_refines db h e).0)
  lock_refines (d ∷ es) e db h =
      rw (← (step_refines db h d).1)
        (lock_refines es e (run R db (lock_call db d).1) (step_tokens db h d))
