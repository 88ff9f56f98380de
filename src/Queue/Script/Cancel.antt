-- ===== src/Queue/Script/Cancel.antt =====
-- LEER_PENDIENTE_POR_SMART_CODE_LUA_SCRIPT and CANCELAR_PENDIENTE_POR_SMART_CODE_LUA_SCRIPT: what
-- a synchronous success made obsolete leaves the queue, if it is still what was read.
use ms_integracion_smartsupe.Prelude.{
  ℕ, String, Bool, true, false, ◌||◌, Option, none, some, List, [], ◌∷◌, ◌==◌, str_eq,
  if◌then◌else◌,
}
use ms_integracion_smartsupe.Redis.{
  Redis, Command, item_key, index_key, pending_set, pending_zset, created_zset, del, srem, zrem,
  reference_of, Decoded, read_item, missing, undecodable, decoded,
}

pub data CancelReply : Type 0 where
  cancelled kept cancel_error : CancelReply

abbrev pub is_cancelled : CancelReply → Bool
is_cancelled cancelled = true
is_cancelled _ = false

-- `data["payload_hash"] ~= expected_payload_hash`
abbrev pub same_hash : Option String → String → Bool
same_hash none h = false
same_hash (some g) h = str_eq g h

unfoldable pub cancel_commands : String → String → ℕ → CancelReply × List Command
cancel_commands smart_code operacion item_id = (
  cancelled,
  del (item_key item_id)
      ∷ srem pending_set item_id
      ∷ zrem pending_zset item_id
      ∷ zrem created_zset item_id
      ∷ del (index_key smart_code operacion)
      ∷ [],
)

-- An empty hash, of an item of an older release, is not compared and the item is not decoded.
unfoldable pub cancel_read : String → String → ℕ → String → Decoded → CancelReply × List Command
unfolding cancel_commands
cancel_read c o item_id expected_hash missing = (kept, [])
cancel_read c o item_id expected_hash undecodable =
    if str_eq expected_hash "" then cancel_commands c o item_id else (cancel_error, [])
cancel_read c o item_id expected_hash (decoded it) =
    if str_eq expected_hash "" || same_hash it.payload_hash expected_hash
    then cancel_commands c o item_id
    else (kept, [])

module _ (R : Redis) where
  open R use {Db, get, sismember}

  -- `false` where nothing is pending in the slot, else the item's text.
  unfoldable pub read_pending : Db → String → String → Decoded
  read_pending db smart_code operacion =
      elim (reference_of (get db (index_key smart_code operacion))) [
        | none ↦ missing
        | some item_id ↦
            if sismember db pending_set item_id
            then read_item (get db (item_key item_id))
            else missing
      ]

  unfoldable pub cancel_pending : Db → String → String → ℕ → String → CancelReply × List Command
  unfolding cancel_read
  cancel_pending db smart_code operacion expected_id expected_hash =
      elim (reference_of (get db (index_key smart_code operacion))) [
        | none ↦ (kept, [])
        | some item_id ↦
            if item_id == expected_id
            then if sismember db pending_set item_id
              then cancel_read smart_code operacion item_id expected_hash
                  (read_item (get db (item_key item_id)))
              else (kept, [])
            else (kept, [])
      ]
