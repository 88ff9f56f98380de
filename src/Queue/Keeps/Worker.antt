-- ===== src/Queue/Keeps/Worker.antt =====
-- CLAIM_ITEM, EXTEND_LEASE and DIFERIR_ITEM keep the invariant.
use ms_integracion_smartsupe.Prelude.{
  ℕ, String, ◌≡◌, refl, true, some, List, [], ◌∷◌, arith, ◌==◌, Bool-cases, inl, inr,
}
use ms_integracion_smartsupe.Status.{processing}
use ms_integracion_smartsupe.Item.{Item, operacion_sufijo, version_or_one}
use ms_integracion_smartsupe.Redis.{
  Redis, Command, item_key, claim_key, index_key, counter_key, item_text, owner, set, set_px, del,
  zadd, pending_set, pending_zset, is_some, owned_by, read_item-cases, run, get-run, sismember-run,
  zscore-run,
}
use ms_integracion_smartsupe.Queue.Script.Claim.{claim_item, extend_lease}
use ms_integracion_smartsupe.Queue.Script.Defer.{defer_item, deferred}
use ms_integracion_smartsupe.Queue.Consistent.{IsConsistent, Advance, is_live}
use ms_integracion_smartsupe.Queue.Consistent.Touch.{Touch, Touch-Advance}
use ms_integracion_smartsupe.Queue.Keeps.Cases.{run-nil-Advance, run-pexpire-Advance}

module _ (R : Redis) (db : R.Db) (inv : IsConsistent R db) (x : ℕ) (it : Item)
    (e : R.get db (item_key x) ≡ some (item_text it)) where
  open R use {get, sismember}

  module _ (w : String) (px : ℕ) (p : sismember db pending_set x ≡ true) where
    abbrev taken : Item
    taken = record it { estado = processing }

    abbrev claim_commands : List Command
    claim_commands = set_px (claim_key x) (owner w) px ∷ set (item_key x) (item_text taken) ∷ []

    -- what is pending is live
    pub pending-live : is_live it.estado ≡ true
    pending-live = ground (arith, inv.partition pending_set x)

    claim-Touch : Touch R db (run R db claim_commands) x it taken
    unfolding operacion_sufijo
    claim-Touch = record {
      before = e;
      items = λ id. ground (arith, get-run R db claim_commands (item_key id));
      sets = λ s id. ground (arith, sismember-run R db claim_commands s id);
      indexes = λ c o. ground (arith, get-run R db claim_commands (index_key c o));
      claims = λ id it' u.
          ground
            (arith, get-run R db claim_commands (claim_key id), inv.leased id it' u, pending-live);
      schedule = λ id. ground (arith, zscore-run R db claim_commands pending_zset id);
      counter = ground (arith, get-run R db claim_commands counter_key);
      same_id = refl;
      same_code = refl;
      same_operacion = refl;
      newer = inr (refl, refl, refl);
      same_sets = λ s. ground (arith, pending-live);
    }

  module _ (proximo now : ℕ) (motivo : String) where
    abbrev defer_commands : List Command
    defer_commands =
        set (item_key x) (item_text (deferred proximo now motivo it))
        ∷ zadd pending_zset proximo x
        ∷ del (claim_key x)
        ∷ []

    defer-Touch : Touch R db (run R db defer_commands) x it (deferred proximo now motivo it)
    unfolding operacion_sufijo
    defer-Touch = record {
      before = e;
      items = λ id. ground (arith, get-run R db defer_commands (item_key id));
      sets = λ s id. ground (arith, sismember-run R db defer_commands s id);
      indexes = λ c o. ground (arith, get-run R db defer_commands (index_key c o));
      claims = λ id it' u.
          ground (arith, get-run R db defer_commands (claim_key id), inv.leased id it' u);
      schedule = λ id. ground (arith, zscore-run R db defer_commands pending_zset id);
      counter = ground (arith, get-run R db defer_commands counter_key);
      same_id = refl;
      same_code = refl;
      same_operacion = refl;
      newer = inr (refl, refl, refl);
      same_sets = λ s. refl;
    }

module _ (R : Redis) (db : R.Db) (inv : IsConsistent R db) (x : ℕ) where
  open R use {get, sismember}

  pub claim_item-Advance :
      (w : String) (px : ℕ) → Advance R db (run R db (claim_item R db x w px).1)
  unfolding claim_item
  claim_item-Advance w px = elim (Bool-cases (sismember db pending_set x)) [
    | inr n ↦ rw n (run-nil-Advance R db inv)
    | inl p ↦ elim (read_item-cases (get db (item_key x))) [
      | inl m ↦ rw (p, m) (run-nil-Advance R db inv)
      | inr (inl u) ↦ rw (p, u) (run-nil-Advance R db inv)
      | inr (inr (it, e, d)) ↦ elim (Bool-cases (is_some (get db (claim_key x)))) [
        | inl t ↦ rw (p, d, t) (run-nil-Advance R db inv)
        | inr f ↦
            rw (p, d, f) (Touch-Advance R db _ x it _ (claim-Touch R db inv x it e w px p) inv)
      ]
    ]
  ]

  pub extend_lease-Advance :
      (w : String) (px : ℕ) → Advance R db (run R db (extend_lease R db x w px).1)
  unfolding extend_lease
  extend_lease-Advance w px = elim (Bool-cases (owned_by (get db (claim_key x)) w)) [
    | inl o ↦ rw o (run-pexpire-Advance R db inv x px)
    | inr n ↦ rw n (run-nil-Advance R db inv)
  ]

  pub defer_item-Advance :
      (v proximo now : ℕ) (motivo : String)
      → Advance R db (run R db (defer_item R db x v proximo now motivo).1)
  unfolding defer_item
  defer_item-Advance v proximo now motivo = elim (read_item-cases (get db (item_key x))) [
    | inl m ↦ rw (m, defer_item) (run-nil-Advance R db inv)
    | inr (inl u) ↦ rw (u, defer_item) (run-nil-Advance R db inv)
    | inr (inr (it, e, d)) ↦ elim (Bool-cases (version_or_one it.version == v)) [
      | inl t ↦
          rw (d, defer_item, t)
            (Touch-Advance R db _ x it _ (defer-Touch R db inv x it e proximo now motivo) inv)
      | inr f ↦ rw (d, defer_item, f) (run-nil-Advance R db inv)
    ]
  ]
