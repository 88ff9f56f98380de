-- ===== src/Queue/Script/Finish.antt =====
-- MARK_SUCCESS_LUA_SCRIPT and MARK_SFC_DONE_LUA_SCRIPT: the owner of the lease records that the
-- version it claimed was transmitted.
use ms_integracion_smartsupe.Prelude.{
  ℕ, String, true, Option, none, some, List, [], ◌∷◌, ◌==◌, if◌then◌else◌,
}
use ms_integracion_smartsupe.Status.{sfc_done, completed}
use ms_integracion_smartsupe.Item.{Item, version_or_one}
use ms_integracion_smartsupe.IdempotencyRecord.{IdempotencyKey, IdempotencyRecord}
use ms_integracion_smartsupe.Redis.{
  Redis, Command, item_key, claim_key, old_index_key, idempotency_key, item_text, record_text,
  pending_set, completed_set, pending_zset, set, set_px, del, sadd, srem, zrem, owned_by, read_item,
  missing, undecodable, decoded,
}
use ms_integracion_smartsupe.Queue.Script.Types.{
  Outcome, success, not_owner, item_not_found, version_mismatch, script_error, slot_of,
  has_smart_code,
}

-- The DELs of the two index keys, where the item has a code.
abbrev pub release_slot : Item → List Command
release_slot it =
    if has_smart_code it then del (slot_of it) ∷ del (old_index_key it.smart_code) ∷ [] else []

-- The stored table after SFC_DONE.
abbrev pub with_sfc_done : ℕ → Option String → Item → Item
with_sfc_done now none it = record it { sfc_completado = true; estado = sfc_done; updated_at = now }
with_sfc_done now (some response) it = record it {
  sfc_completado = true;
  estado = sfc_done;
  sfc_response = some response;
  updated_at = now;
}

module _ (R : Redis) where
  open R use {Db, get}

  -- The checks that the transitions of an owner begin with, and then `accept`.
  abbrev pub as_owner :
      Db → ℕ → String → ℕ → (Item → Outcome × List Command) → Outcome × List Command
  as_owner db item_id worker_id expected_version accept =
      if owned_by (get db (claim_key item_id)) worker_id
      then elim (read_item (get db (item_key item_id))) [
        | missing ↦ (item_not_found, del (claim_key item_id) ∷ [])
        | undecodable ↦ (script_error, [])
        | decoded it ↦
            if version_or_one it.version == expected_version
            then accept it
            else (version_mismatch, del (claim_key item_id) ∷ [])
      ]
      else (not_owner, [])

  unfoldable pub mark_success : Db → ℕ → String → ℕ → ℕ → Outcome × List Command
  mark_success db item_id worker_id expected_version now =
      as_owner db item_id worker_id expected_version λ it. (
        success,
        set (item_key item_id) (item_text (record it { estado = completed; updated_at = now }))
            ∷ srem pending_set item_id
            ∷ sadd completed_set item_id
            ∷ zrem pending_zset item_id
            ∷ del (claim_key item_id)
            ∷ release_slot it,
      )

  unfoldable pub mark_sfc_done :
      Db
      → ℕ
      → String
      → ℕ
      → ℕ
      → Option String
      → IdempotencyKey
      → IdempotencyRecord
      → ℕ
      → Outcome × List Command
  mark_sfc_done db item_id worker_id expected_version now response idem_key idem_record ttl_ms =
      as_owner db item_id worker_id expected_version λ it. (
        success,
        set (item_key item_id) (item_text (with_sfc_done now response it))
            ∷ set_px (idempotency_key idem_key) (record_text idem_record) ttl_ms
            ∷ [],
      )
