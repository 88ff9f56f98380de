-- ===== src/Queue/Keeps/Cases.antt =====
-- The ways in which a script that checks the owner of a lease can end, and the steps that only
-- drop a lease.
use ms_integracion_smartsupe.Prelude.{
  ℕ, String, ◌≡◌, refl, Bool, true, false, some, List, [], ◌∷◌, arith, ◌==◌, Bool-cases, ==_iff,
  inl, inr, if◌then◌else◌,
}
use ms_integracion_smartsupe.Item.{Item, operacion_sufijo, version_or_one}
use ms_integracion_smartsupe.Redis.{
  Redis, Command, item_key, claim_key, index_key, counter_key, item_text, owner, StatusSet, pexpire,
  del, owned_by, pending_zset, Decoded, missing, undecodable, decoded, read_item, read_item-decoded,
  run, run-nil, get-run, sismember-run, zscore-run,
}
use ms_integracion_smartsupe.Queue.Script.Types.{
  Outcome, success, not_owner, item_not_found, version_mismatch, script_error,
}
use ms_integracion_smartsupe.Queue.Script.Finish.{as_owner}
use ms_integracion_smartsupe.Queue.Consistent.{IsConsistent, Advance, same}

module _ (R : Redis) (db : R.Db) (x : ℕ) (w : String) (v : ℕ) where
  open R use {get}

  module _ (accept : Item → Outcome × List Command) (P : Outcome × List Command → Type 0)
      (rejected : P (not_owner, [])) (absent : P (item_not_found, del (claim_key x) ∷ []))
      (garbled : P (script_error, [])) (stale : P (version_mismatch, del (claim_key x) ∷ []))
      (accepted : (it : Item)
        → owned_by (get db (claim_key x)) w ≡ true
        → get db (item_key x) ≡ some (item_text it)
        → (version_or_one it.version == v) ≡ true
        → P (accept it)) where
    version_cases :
        (it : Item) (b : Bool)
        → (version_or_one it.version == v) ≡ b
        → owned_by (get db (claim_key x)) w ≡ true
        → get db (item_key x) ≡ some (item_text it)
        → P (if b then accept it else (version_mismatch, del (claim_key x) ∷ []))
    version_cases it true e o g = accepted it o g e
    version_cases it false e o g = stale

    item_cases :
        (d : Decoded)
        → read_item (get db (item_key x)) ≡ d
        → owned_by (get db (claim_key x)) w ≡ true
        → P (elim d [
          | missing ↦ (item_not_found, del (claim_key x) ∷ [])
          | undecodable ↦ (script_error, [])
          | decoded it ↦
              if version_or_one it.version == v
              then accept it
              else (version_mismatch, del (claim_key x) ∷ [])
        ])
    item_cases missing e o = absent
    item_cases undecodable e o = garbled
    item_cases (decoded it) e o =
        version_cases it (version_or_one it.version == v) refl o (read_item-decoded _ it e)

    pub as_owner_cases : P (as_owner R db x w v accept)
    as_owner_cases = elim (Bool-cases (owned_by (get db (claim_key x)) w)) [
      | inl o ↦ rw o (item_cases (read_item (get db (item_key x))) refl o)
      | inr n ↦ rw n rejected
    ]

module _ (R : Redis) (db : R.Db) (x : ℕ) (w : String) (v : ℕ) where
  open R use {get}

  -- A transition that succeeds found the lease its own, and the version that it expects.
  pub as_owner-eq-success :
      (accept : Item → Outcome × List Command)
      → (as_owner R db x w v accept).0 ≡ success
      → (it : Item) × (get db (item_key x) ≡ some (item_text it))
        × (owned_by (get db (claim_key x)) w ≡ true)
        × (version_or_one it.version ≡ v)
        × (as_owner R db x w v accept ≡ accept it)
  as_owner-eq-success accept =
      as_owner_cases R db x w v accept
        (λ p.
          p.0 ≡ success
          → (it : Item) × (get db (item_key x) ≡ some (item_text it))
            × (owned_by (get db (claim_key x)) w ≡ true)
            × (version_or_one it.version ≡ v)
            × (p ≡ accept it))
        (λ h. cc) (λ h. cc) (λ h. cc) (λ h. cc) (λ it o e t h. (it, e, o, (==_iff _ v).0 t, refl))

module _ (R : Redis) (db : R.Db) (inv : IsConsistent R db) where
  open R use {get, sismember, zscore}

  pub run-nil-Advance : Advance R db (run R db [])
  run-nil-Advance =
      rw (run-nil R db) (record {
        consistent = inv;
        evolves = λ id. same refl;
        counts = λ m c. (m, c, omega arith);
      })

  module _ (cs : List Command)
      (items : (id : ℕ) → get (run R db cs) (item_key id) ≡ get db (item_key id))
      (sets : (s : StatusSet) (id : ℕ) → sismember (run R db cs) s id ≡ sismember db s id)
      (indexes : (c o : String) → get (run R db cs) (index_key c o) ≡ get db (index_key c o))
      (claims : (id : ℕ) (u : String)
        → get (run R db cs) (claim_key id) ≡ some (owner u)
        → get db (claim_key id) ≡ some (owner u))
      (schedule : (id : ℕ) → zscore (run R db cs) pending_zset id ≡ zscore db pending_zset id)
      (counter : get (run R db cs) counter_key ≡ get db counter_key) where
    -- Commands that at most drop leases keep the invariant.
    leases_only-IsConsistent : IsConsistent R (run R db cs)
    leases_only-IsConsistent = record {
      readable = λ id. rw (items id) (inv.readable id);
      partition = λ s id. rw (items id, sets s id) (inv.partition s id);
      named = λ id it e. ground (arith, items id, inv.named id it);
      own_id = λ id it e. ground (arith, items id, inv.own_id id it);
      slot = λ id it e l.
          ground (arith, items id, indexes it.smart_code (operacion_sufijo it), inv.slot id it);
      points = λ c o id it p e. ground (arith, items id, indexes c o, inv.points c o id it);
      leased = λ id it u c e. ground (arith, items id, claims id u, inv.leased id it u);
      scheduled = λ id it e l. ground (arith, items id, schedule id, inv.scheduled id it);
      fresh = λ n id c lt. ground (arith, items id, counter, inv.fresh n id);
      fresh_index = λ n id c o k p. ground (arith, counter, indexes c o, inv.fresh_index n id c o);
    }

    pub leases_only-Advance : Advance R db (run R db cs)
    leases_only-Advance = record {
      consistent = leases_only-IsConsistent;
      evolves = λ id. same (items id);
      counts = λ m c. (m, rw counter at c, omega arith);
    }

  pub run-del_claim-Advance : (x : ℕ) → Advance R db (run R db (del (claim_key x) ∷ []))
  run-del_claim-Advance x =
      let cs : List Command = del (claim_key x) ∷ [] in
      leases_only-Advance cs (λ id. get-run R db cs (item_key id))
        (λ s id. sismember-run R db cs s id) (λ c o. get-run R db cs (index_key c o))
        (λ id u h. ground (arith, get-run R db cs (claim_key id)))
        (λ id. zscore-run R db cs pending_zset id) (get-run R db cs counter_key)

  pub run-pexpire-Advance : (x ms : ℕ) → Advance R db (run R db (pexpire (claim_key x) ms ∷ []))
  run-pexpire-Advance x ms =
      let cs : List Command = pexpire (claim_key x) ms ∷ [] in
      leases_only-Advance cs (λ id. get-run R db cs (item_key id))
        (λ s id. sismember-run R db cs s id) (λ c o. get-run R db cs (index_key c o))
        (λ id u h. ground (arith, get-run R db cs (claim_key id)))
        (λ id. zscore-run R db cs pending_zset id) (get-run R db cs counter_key)
