-- ===== src/Queue/Service/Persist.antt =====
-- `marcar_sfc_completado` over a connection that loses calls and answers.
use ms_integracion_smartsupe.Prelude.{ℕ, String, ◌≡◌, ◌∙◌, refl, Option, some, List, eq_iff}
use ms_integracion_smartsupe.Classification.{Payload}
use ms_integracion_smartsupe.IdempotencyRecord.{IdempotencyKey, IdempotencyRecord}
use ms_integracion_smartsupe.Redis.{Redis, Command, idempotency_key, record_text}
use ms_integracion_smartsupe.Remote.{Link, up, retry-reached, retry-keeps}
use ms_integracion_smartsupe.Idempotency.{already_done}
use ms_integracion_smartsupe.Idempotency.Records.{ttl_ms_default}
use ms_integracion_smartsupe.Idempotency.Payload.{completed_key, completed_record}
use ms_integracion_smartsupe.Idempotency.Barrier.{verified, recorded_answers}
use ms_integracion_smartsupe.Queue.Script.Types.{
  Outcome, success, not_owner, item_not_found, version_mismatch, script_error,
}
use ms_integracion_smartsupe.Queue.Consistent.{IsConsistent}
use ms_integracion_smartsupe.Queue.Keeps.Owner.{mark_sfc_done-Advance}
use ms_integracion_smartsupe.Queue.Service.{Settings, outcome_answer, marcar_sfc_completado}
use ms_integracion_smartsupe.EndToEnd.{record-mark_sfc_done}

-- An answer is the script's reply, and an exception changes none of its writes.
pub outcome_answer-commands : (r : Outcome × List Command) → (outcome_answer r).1 ≡ r.1
outcome_answer-commands (success, cs) = refl
outcome_answer-commands (not_owner, cs) = refl
outcome_answer-commands (item_not_found, cs) = refl
outcome_answer-commands (version_mismatch, cs) = refl
outcome_answer-commands (script_error, cs) = refl

pub outcome_answer-reply :
    (r : Outcome × List Command) (o : Outcome) → (outcome_answer r).0 ≡ some o → r.0 ≡ o
outcome_answer-reply (success, cs) o e = cc
outcome_answer-reply (not_owner, cs) o e = cc
outcome_answer-reply (item_not_found, cs) o e = cc
outcome_answer-reply (version_mismatch, cs) o e = cc
outcome_answer-reply (script_error, cs) o e = cc

module _ (R : Redis) (sha dump : Payload → String) (settings : Settings) (attempts : ℕ)
    (links : ℕ → Link) (db : R.Db) (x : ℕ) (w : String) (v : ℕ) (smart_code : String) (p : Payload)
    (response hash : Option String) (now : ℕ) where
  open R use {Db, get}

  abbrev pub persisted : Option Outcome × Db
  persisted =
      marcar_sfc_completado R sha dump settings attempts links db x w v smart_code p response hash
        now

  -- Whatever calls and answers are lost, over any number of attempts, `marcar_sfc_completado`
  -- leaves the queue consistent when it found it consistent.
  pub marcar_sfc_completado-IsConsistent : IsConsistent R db → IsConsistent R persisted.1
  unfolding marcar_sfc_completado
  marcar_sfc_completado-IsConsistent inv =
      retry-keeps R _ (IsConsistent R)
        (λ db' h.
          rw (outcome_answer-commands _)
            (mark_sfc_done-Advance R db' h x w v now response _ _ _).consistent)
        attempts links db inv

  abbrev key : IdempotencyKey
  key = completed_key sha smart_code p hash

  abbrev done_record : IdempotencyRecord
  done_record = completed_record sha smart_code p response hash now

  pub stored :
      persisted.0 ≡ some success
      → get persisted.1 (idempotency_key key) ≡ some (record_text done_record)
  unfolding marcar_sfc_completado
  stored h =
      retry-reached R _
        (λ o db'. o ≡ success → get db' (idempotency_key key) ≡ some (record_text done_record))
        (λ db' o e s. rw (outcome_answer-commands _) (
          record-mark_sfc_done R db' x w v now response key done_record ttl_ms_default
            (outcome_answer-reply _ o e ∙ s)))
        attempts links db success h refl

  -- Once `marcar_sfc_completado` has returned "completed", whatever calls and answers its attempts
  -- lost, a request for the same case with the same operation and hash whose first read is answered
  -- gets the stored response of the SFC, and nothing is sent or written.
  pub sfc_completado_answers :
      (rehash : String → Option String) (links' : ℕ → Link) (later : ℕ)
      → links' 0 ≡ up
      → persisted.0 ≡ some success
      → verified R rehash links' (λ n d. d) (completed_key sha smart_code p hash) later persisted.1
        ≡ (already_done response, persisted.1)
  unfolding completed_key completed_record
  sfc_completado_answers rehash links' later l h =
      recorded_answers R rehash links' (λ n d. d) key later done_record persisted.1 (stored h)
        ((eq_iff key.payload_hash key.payload_hash).1 refl) l refl
