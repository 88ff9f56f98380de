-- ===== src/Queue/Script/Defer.antt =====
-- DIFERIR_ITEM_LUA_SCRIPT: the next attempt of a version is moved while the SFC is down.
use ms_integracion_smartsupe.Prelude.{ℕ, String, List, [], ◌∷◌, ◌==◌, if◌then◌else◌}
use ms_integracion_smartsupe.Item.{Item, version_or_one}
use ms_integracion_smartsupe.Redis.{
  Redis, Command, item_key, claim_key, item_text, pending_zset, set, del, zadd, read_item, missing,
  undecodable, decoded,
}
use ms_integracion_smartsupe.Queue.Script.Types.{
  Outcome, success, item_not_found, version_mismatch, script_error,
}

abbrev pub deferred : ℕ → ℕ → String → Item → Item
deferred proximo now motivo it = record it {
  proximo_reintento_at = proximo;
  updated_at = now;
  ultimo_error = motivo;
}

module _ (R : Redis) where
  open R use {Db, get}

  unfoldable pub defer_item : Db → ℕ → ℕ → ℕ → ℕ → String → Outcome × List Command
  defer_item db registro_id expected_version proximo now motivo =
      elim (read_item (get db (item_key registro_id))) [
        | missing ↦ (item_not_found, [])
        | undecodable ↦ (script_error, [])
        | decoded it ↦
            if version_or_one it.version == expected_version
            then (
              success,
              set (item_key registro_id) (item_text (deferred proximo now motivo it))
                  ∷ zadd pending_zset proximo registro_id
                  ∷ del (claim_key registro_id)
                  ∷ [],
            )
            else (version_mismatch, [])
      ]
