-- ===== src/Queue/Script/Replay.antt =====
-- REPLAY_ITEM_LUA_SCRIPT: an operator puts an item that failed for good back into the queue.
use ms_integracion_smartsupe.Prelude.{
  ℕ, ◌+◌, String, Bool, true, false, not, ◌&&◌, Option, none, some, List, [], ◌∷◌, ◌==◌,
  if◌then◌else◌,
}
use ms_integracion_smartsupe.Status.{SmartStatus, pending, is_failed_final}
use ms_integracion_smartsupe.Item.{Item, version_or_one}
use ms_integracion_smartsupe.Redis.{
  Redis, Command, Value, item_key, item_text, reference, pending_set, failed_set, pending_zset, set,
  sadd, srem, zadd, read_item, missing, undecodable, decoded,
}
use ms_integracion_smartsupe.Queue.Script.Types.{slot_of, has_smart_code}

pub data ReplayReply : Type 0 where
  replayed : String → ℕ → ReplayReply
  replay_not_found replay_error : ReplayReply
  not_failed_final : SmartStatus → ReplayReply
  operacion_tiene_item_mas_reciente : ReplayReply

abbrev pub is_replayed : ReplayReply → Bool
is_replayed (replayed c v) = true
is_replayed _ = false

-- `index_actual and index_actual ~= item_id`
abbrev pub held_by_other : Option Value → ℕ → Bool
held_by_other none item_id = false
held_by_other (some (reference i)) item_id = not (i == item_id)
held_by_other (some _) item_id = true

abbrev pub revived : ℕ → Item → Item
revived now it = record it {
  estado = pending;
  intentos = some 0;
  proximo_reintento_at = now;
  updated_at = now;
  version = some (version_or_one it.version + 1);
}

module _ (R : Redis) where
  open R use {Db, get}

  unfoldable pub replay_item : Db → ℕ → ℕ → ReplayReply × List Command
  replay_item db item_id now = elim (read_item (get db (item_key item_id))) [
    | missing ↦ (replay_not_found, [])
    | undecodable ↦ (replay_error, [])
    | decoded it ↦
        if is_failed_final it.estado
        then if has_smart_code it && held_by_other (get db (slot_of it)) item_id
          then (operacion_tiene_item_mas_reciente, [])
          else (
            replayed it.smart_code (version_or_one it.version + 1),
            set (item_key item_id) (item_text (revived now it))
                ∷ srem failed_set item_id
                ∷ sadd pending_set item_id
                ∷ zadd pending_zset now item_id
                ∷ (if has_smart_code it then set (slot_of it) (reference item_id) ∷ [] else []),
          )
        else (not_failed_final it.estado, [])
  ]
