-- ===== src/Queue/Script/Claim.antt =====
-- CLAIM_ITEM_LUA_SCRIPT and EXTEND_LEASE_LUA_SCRIPT: a worker takes the lease of a pending item,
-- and keeps it.
use ms_integracion_smartsupe.Prelude.{ℕ, String, Bool, true, false, List, [], ◌∷◌, if◌then◌else◌}
use ms_integracion_smartsupe.Status.{processing}
use ms_integracion_smartsupe.Item.{Item}
use ms_integracion_smartsupe.Redis.{
  Redis, Command, item_key, claim_key, item_text, owner, pending_set, set, set_px, pexpire,
  owned_by, read_item, missing, undecodable, decoded, is_some,
}

pub data ClaimReply : Type 0 where
  claimed : Item → ClaimReply
  not_pending item_not_found already_claimed claim_error : ClaimReply

module _ (R : Redis) where
  open R use {Db, get, sismember}

  -- The item is decoded before the claim is set. SET with NX writes where the key is absent.
  unfoldable pub claim_item : Db → ℕ → String → ℕ → ClaimReply × List Command
  claim_item db item_id worker_id lease_px =
      if sismember db pending_set item_id
      then elim (read_item (get db (item_key item_id))) [
        | missing ↦ (item_not_found, [])
        | undecodable ↦ (claim_error, [])
        | decoded it ↦ if is_some (get db (claim_key item_id)) then (already_claimed, []) else (
          claimed (record it { estado = processing }),
          set_px (claim_key item_id) (owner worker_id) lease_px
              ∷ set (item_key item_id) (item_text (record it { estado = processing }))
              ∷ [],
        )
      ]
      else (not_pending, [])

  unfoldable pub extend_lease : Db → ℕ → String → ℕ → Bool × List Command
  extend_lease db item_id worker_id lease_px =
      if owned_by (get db (claim_key item_id)) worker_id
      then (true, pexpire (claim_key item_id) lease_px ∷ [])
      else (false, [])
