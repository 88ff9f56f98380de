-- ===== src/Lock/Examples.antt =====
-- Runs of the lock on the keyspace in memory, and instances of the theorems about it.
use ms_integracion_smartsupe.Prelude.{◌≡◌, refl, true, false, List, [], ◌∷◌}
use ms_integracion_smartsupe.Redis.Memory.{memory, empty}
use ms_integracion_smartsupe.Lock.{try_lock, extend_lock, release_lock}
use ms_integracion_smartsupe.Lock.Spec.{
  LockEvent, tries, extends, releases, spec_reply, spec_play, lock_call, lock_play, holders,
  lock_refines,
}
use ms_integracion_smartsupe.Lock.Exclusion.{later, lock_excludes}

-- Two workers at one lock: the second is refused, the first renews it.
abbrev contended : List LockEvent
contended = tries "case" "a" 180 ∷ tries "case" "b" 180 ∷ extends "case" "a" 180000 ∷ []

lock_refines_example :
    (holders memory (lock_play memory empty contended) ≡ spec_play (holders memory empty) contended)
    × ((lock_call memory (lock_play memory empty contended) (releases "case" "b")).0
        ≡ spec_reply (spec_play (holders memory empty) contended) (releases "case" "b"))
lock_refines_example = lock_refines memory contended (releases "case" "b") empty (λ k. refl)

lock_excludes_example :
    (try_lock memory (later memory "case" "a" empty 180 (tries "other" "b" 9 ∷ [])) "case" "b" 180
      ≡ (false, []))
    × (extend_lock memory
          (later memory "case" "a" empty 180 (tries "other" "b" 9 ∷ []))
          "case"
          "b"
          1
        ≡ (false, []))
    × (release_lock memory (later memory "case" "a" empty 180 (tries "other" "b" 9 ∷ [])) "case" "b"
        ≡ (false, []))
    × ((extend_lock memory
          (later memory "case" "a" empty 180 (tries "other" "b" 9 ∷ []))
          "case"
          "a"
          1).0
        ≡ true)
unfolding try_lock
lock_excludes_example =
    lock_excludes memory "case" "a" empty 180 (tries "other" "b" 9 ∷ []) "b" 180 1 refl refl refl
