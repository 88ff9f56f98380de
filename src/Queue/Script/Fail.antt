-- ===== src/Queue/Script/Fail.antt =====
-- REGISTRAR_FALLO_LUA_SCRIPT: the owner of the lease records a failed attempt, for good or until
-- the next one.
use ms_integracion_smartsupe.Prelude.{ℕ, ◌+◌, String, Bool, some, List, [], ◌∷◌, if◌then◌else◌}
use ms_integracion_smartsupe.Status.{pending, failed_final}
use ms_integracion_smartsupe.Item.{Item, intentos_or_zero}
use ms_integracion_smartsupe.Redis.{
  Redis, Command, item_key, claim_key, item_text, pending_set, failed_set, pending_zset, set, del,
  sadd, srem, zadd, zrem,
}
use ms_integracion_smartsupe.Queue.Script.Types.{Outcome, success}
use ms_integracion_smartsupe.Queue.Script.Finish.{as_owner, release_slot}

pub record FailArgs : Type 0 where
  pub error_msg : String
  pub now : ℕ
  pub es_definitivo : Bool
  pub proximo_reintento : ℕ
  pub consumir_intento : Bool

abbrev pub counted : FailArgs → Item → Item
counted a it = record it {
  intentos = if a.consumir_intento then some (intentos_or_zero it.intentos + 1) else it.intentos;
  ultimo_error = a.error_msg;
  updated_at = a.now;
}

unfoldable pub after_failure : FailArgs → Item → Item
after_failure a it =
    if a.es_definitivo
    then record (counted a it) { estado = failed_final }
    else record (counted a it) { estado = pending; proximo_reintento_at = a.proximo_reintento }

module _ (R : Redis) where
  open R use {Db}

  unfoldable pub register_failure : Db → ℕ → String → ℕ → FailArgs → Outcome × List Command
  register_failure db item_id worker_id expected_version a =
      as_owner R db item_id worker_id expected_version λ it. (
        success,
        set (item_key item_id) (item_text (after_failure a it))
            ∷ del (claim_key item_id)
            ∷ (if a.es_definitivo
                then srem pending_set item_id
                  ∷ sadd failed_set item_id
                  ∷ zrem pending_zset item_id
                  ∷ release_slot it
                else zadd pending_zset a.proximo_reintento item_id ∷ []),
      )
