-- ===== src/Queue/Consistent/Touch.antt =====
-- A change of one stored item that leaves it in its status set and in its slot.
use ms_integracion_smartsupe.Prelude.{
  ℕ, String, ◌≡◌, true, some, arith, inl, inr, Bool-cases, ◌==◌, if◌then◌else◌,
}
use ms_integracion_smartsupe.Item.{Item, operacion_sufijo}
use ms_integracion_smartsupe.Redis.{
  Redis, StatusSet, pending_set, item_key, claim_key, index_key, counter_key, item_text, owner,
  pending_zset, is_some,
}
use ms_integracion_smartsupe.Queue.Consistent.{
  IsConsistent, Advance, Newer, same, changed, is_live, estado_in,
}

module _ (R : Redis) (db db' : R.Db) (x : ℕ) (it0 it1 : Item) where
  open R use {get, sismember, zscore}

  pub record Touch : Type 0 where
    pub before : get db (item_key x) ≡ some (item_text it0)
    pub items :
        (id : ℕ)
        → get db' (item_key id) ≡ (if id == x then some (item_text it1) else get db (item_key id))
    pub sets : (s : StatusSet) (id : ℕ) → sismember db' s id ≡ sismember db s id
    pub indexes : (c o : String) → get db' (index_key c o) ≡ get db (index_key c o)
    pub claims :
        (id : ℕ) (it : Item) (w : String)
        → get db' (claim_key id) ≡ some (owner w)
        → get db (item_key id) ≡ some (item_text it)
        → is_live it.estado ≡ true
    pub schedule :
        (id : ℕ)
        → is_some (zscore db pending_zset id) ≡ true
        → is_some (zscore db' pending_zset id) ≡ true
    pub counter : get db' counter_key ≡ get db counter_key
    pub same_id : it1.id ≡ it0.id
    pub same_code : it1.smart_code ≡ it0.smart_code
    pub same_operacion : operacion_sufijo it1 ≡ operacion_sufijo it0
    pub newer : Newer it0 it1
    pub same_sets : (s : StatusSet) → estado_in it1.estado s ≡ estado_in it0.estado s

  -- Such a change keeps the invariant.
  pub Touch-IsConsistent : Touch → IsConsistent R db → IsConsistent R db'
  Touch-IsConsistent t inv = record {
    readable = λ id. ground (arith, t.items id, inv.readable id);
    partition = λ s id.
        ground (arith, t.items id, t.sets s id, inv.partition s id, t.before, t.same_sets s);
    named = λ id it e.
        ground (arith, t.items id, inv.named id it, inv.named x it0, t.before, t.same_code);
    own_id = λ id it e.
        ground (arith, t.items id, inv.own_id id it, inv.own_id x it0, t.before, t.same_id);
    slot = λ id it e l. ground (
      arith,
      t.items id,
      inv.slot id it,
      inv.slot x it0,
      t.before,
      t.same_code,
      t.same_operacion,
      t.same_sets pending_set,
      t.indexes it.smart_code (operacion_sufijo it),
    );
    points = λ c o id it p e. ground (
      arith,
      t.items id,
      t.indexes c o,
      inv.points c o id it,
      inv.points c o x it0,
      t.before,
      t.same_code,
      t.same_operacion,
    );
    leased = λ id it w c e.
        ground (
          arith,
          t.items id,
          t.claims id it w,
          t.claims x it0 w,
          t.before,
          t.same_sets pending_set,
        );
    scheduled = λ id it e l. ground (
      arith,
      t.items id,
      t.schedule id,
      inv.scheduled id it,
      inv.scheduled x it0,
      t.before,
      t.same_sets pending_set,
    );
    fresh =
        λ n id c lt. ground (arith, t.items id, t.counter, inv.fresh n id, inv.fresh n x, t.before);
    fresh_index =
        λ n id c o k p. ground (arith, t.counter, t.indexes c o, inv.fresh_index n id c o);
  }

  pub Touch-Advance : Touch → IsConsistent R db → Advance R db db'
  Touch-Advance t inv = record {
    consistent = Touch-IsConsistent t inv;
    evolves = λ id. elim (Bool-cases (id == x)) [
      | inl y ↦ changed it0 it1 (ground (arith, t.before)) (ground (arith, t.items id)) t.newer
      | inr n ↦ same (ground (arith, t.items id))
    ];
    counts = λ m c. (m, ground (arith, t.counter), omega arith);
  }
