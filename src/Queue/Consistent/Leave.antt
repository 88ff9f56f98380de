-- ===== src/Queue/Consistent/Leave.antt =====
-- A live item leaves its slot: it is finished, or deleted.
use ms_integracion_smartsupe.Prelude.{
  ℕ, String, ◌≡◌, true, false, Option, none, some, arith, inl, inr, Bool-cases, ◌==◌, if◌then◌else◌,
  eq_iff,
}
use ms_integracion_smartsupe.Item.{Item, operacion_sufijo}
use ms_integracion_smartsupe.Redis.{
  Redis, Value, StatusSet, pending_set, item_key, claim_key, index_key, counter_key, item_text,
  owner, pending_zset, is_some, key_eq,
}
use ms_integracion_smartsupe.Queue.Script.Types.{slot_of}
use ms_integracion_smartsupe.Queue.Consistent.{
  IsConsistent, Advance, Evolves, same, is_live, is_readable, belongs,
}

module _ (R : Redis) (db db' : R.Db) (x : ℕ) (it0 : Item) (rest : Option Value) where
  open R use {get, sismember, zscore}

  pub record Leave : Type 0 where
    pub before : get db (item_key x) ≡ some (item_text it0)
    pub live : is_live it0.estado ≡ true
    pub items : (id : ℕ) → get db' (item_key id) ≡ (if id == x then rest else get db (item_key id))
    pub readable : is_readable rest ≡ true
    pub not_live : belongs rest pending_set ≡ false
    pub codes :
        (it : Item)
        → rest ≡ some (item_text it)
        → (it.id ≡ it0.id)
          × (it.smart_code ≡ it0.smart_code)
          × (operacion_sufijo it ≡ operacion_sufijo it0)
    pub sets :
        (s : StatusSet) (id : ℕ)
        → sismember db' s id ≡ (if id == x then belongs rest s else sismember db s id)
    pub slots :
        (c o : String)
        → get db' (index_key c o)
          ≡ (if key_eq (slot_of it0) (index_key c o) then none else get db (index_key c o))
    pub claims :
        (id : ℕ) (w : String)
        → get db' (claim_key id) ≡ some (owner w)
        → get db (claim_key id) ≡ some (owner w)
    pub released : (it : Item) (w : String) → get db' (claim_key x) ≡ some (owner w) → rest ≡ none
    pub schedule :
        (id : ℕ)
        → (id == x) ≡ false
        → is_some (zscore db pending_zset id) ≡ true
        → is_some (zscore db' pending_zset id) ≡ true
    pub left :
        (id : ℕ)
        → get db' (item_key id) ≡ rest
        → get db (item_key id) ≡ some (item_text it0)
        → Evolves id (get db counter_key) (get db (item_key id)) (get db' (item_key id))
    pub counter : get db' counter_key ≡ get db counter_key

  -- Such a change keeps the invariant.
  pub Leave-IsConsistent : Leave → IsConsistent R db → IsConsistent R db'
  Leave-IsConsistent t inv = record {
    readable = λ id. ground (arith, t.items id, inv.readable id, t.readable);
    partition = λ s id. ground (arith, t.items id, t.sets s id, inv.partition s id);
    named = λ id it e.
        ground (arith, t.items id, inv.named id it, inv.named x it0, t.before, t.codes it);
    own_id = λ id it e.
        ground (arith, t.items id, inv.own_id id it, inv.own_id x it0, t.before, t.codes it);
    slot = λ id it e l. ground (
      arith,
      t.items id,
      inv.slot id it,
      inv.slot x it0,
      t.before,
      t.live,
      t.not_live,
      t.slots it.smart_code (operacion_sufijo it),
      eq_iff it0.smart_code it.smart_code,
      eq_iff (operacion_sufijo it0) (operacion_sufijo it),
    );
    points = λ c o id it p e. ground (
      arith,
      t.items id,
      t.slots c o,
      inv.points c o id it,
      inv.points c o x it0,
      t.before,
      t.codes it,
    );
    leased = λ id it w c e.
        ground (arith, t.items id, t.claims id w, t.released it w, inv.leased id it w);
    scheduled =
        λ id it e l. ground (arith, t.items id, t.schedule id, inv.scheduled id it, t.not_live);
    fresh =
        λ n id c lt. ground (arith, t.items id, t.counter, inv.fresh n id, inv.fresh n x, t.before);
    fresh_index = λ n id c o k p. ground (arith, t.counter, t.slots c o, inv.fresh_index n id c o);
  }

  pub Leave-Advance : Leave → IsConsistent R db → Advance R db db'
  Leave-Advance t inv = record {
    consistent = Leave-IsConsistent t inv;
    evolves = λ id. elim (Bool-cases (id == x)) [
      | inl y ↦ t.left id (ground (arith, t.items id)) (ground (arith, t.before))
      | inr n ↦ same (ground (arith, t.items id))
    ];
    counts = λ m c. (m, ground (arith, t.counter), omega arith);
  }
