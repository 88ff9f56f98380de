-- ===== src/Queue/Consistent/Arrive.antt =====
-- An item takes a slot that no other live item holds: it is new, or revived.
use ms_integracion_smartsupe.Prelude.{
  ℕ, ◌≤◌, ◌<◌, String, ◌≡◌, true, false, none, some, arith, inl, inr, Bool-cases, ==_iff, ◌==◌,
  if◌then◌else◌, eq_iff, str_eq,
}
use ms_integracion_smartsupe.Item.{Item, operacion_sufijo}
use ms_integracion_smartsupe.Redis.{
  Redis, StatusSet, item_key, claim_key, index_key, counter_key, item_text, owner, reference,
  pending_zset, is_some, key_eq, count_of,
}
use ms_integracion_smartsupe.Queue.Script.Types.{slot_of}
use ms_integracion_smartsupe.Queue.Consistent.{
  IsConsistent, Advance, Evolves, same, is_live, estado_in,
}

module _ (R : Redis) (db db' : R.Db) (x : ℕ) (it1 : Item) where
  open R use {get, sismember, zscore}

  pub record Arrive : Type 0 where
    pub live : is_live it1.estado ≡ true
    pub id_of : it1.id ≡ x
    pub code : str_eq it1.smart_code "" ≡ false
    pub items :
        (id : ℕ)
        → get db' (item_key id) ≡ (if id == x then some (item_text it1) else get db (item_key id))
    pub sets :
        (s : StatusSet) (id : ℕ)
        → sismember db' s id ≡ (if id == x then estado_in it1.estado s else sismember db s id)
    pub slots :
        (c o : String)
        → get db' (index_key c o) ≡ (
            if key_eq (slot_of it1) (index_key c o)
            then some (reference x)
            else get db (index_key c o))
    pub vacant :
        (id : ℕ) (it : Item)
        → get db (slot_of it1) ≡ some (reference id)
        → get db (item_key id) ≡ some (item_text it)
        → is_live it.estado ≡ true
        → id ≡ x
    pub pointed :
        (c o : String)
        → get db (index_key c o) ≡ some (reference x)
        → (it1.smart_code ≡ c) × (operacion_sufijo it1 ≡ o)
    pub claims :
        (id : ℕ) (w : String)
        → get db' (claim_key id) ≡ some (owner w)
        → get db (claim_key id) ≡ some (owner w)
    pub schedule :
        (id : ℕ)
        → is_some (zscore db pending_zset id) ≡ true
        → is_some (zscore db' pending_zset id) ≡ true
    pub scheduled : is_some (zscore db' pending_zset x) ≡ true
    pub fresh :
        (n id : ℕ)
        → count_of (get db' counter_key) ≡ some n
        → n < id
        → (get db (item_key id) ≡ none) × ((id == x) ≡ false)
    pub fresh_index :
        (n id : ℕ) (c o : String)
        → count_of (get db' counter_key) ≡ some n
        → get db (index_key c o) ≡ some (reference id)
        → id ≤ n
    pub arrived :
        (id : ℕ)
        → id ≡ x
        → get db' (item_key id) ≡ some (item_text it1)
        → Evolves id (get db counter_key) (get db (item_key id)) (get db' (item_key id))
    pub counts :
        (m : ℕ)
        → count_of (get db' counter_key) ≡ some m
        → (n : ℕ) × (count_of (get db counter_key) ≡ some n) × (n ≤ m)
    pub counted : (n : ℕ) → count_of (get db' counter_key) ≡ some n → x ≤ n

  -- Such a change keeps the invariant.
  pub Arrive-IsConsistent : Arrive → IsConsistent R db → IsConsistent R db'
  Arrive-IsConsistent t inv = record {
    readable = λ id. ground (arith, t.items id, inv.readable id);
    partition = λ s id. ground (arith, t.items id, t.sets s id, inv.partition s id);
    named = λ id it e. ground (arith, t.items id, inv.named id it, t.code);
    own_id = λ id it e. ground (arith, t.items id, inv.own_id id it, t.id_of);
    slot = λ id it e l. ground (
      arith,
      t.items id,
      inv.slot id it,
      t.vacant id it,
      t.slots it.smart_code (operacion_sufijo it),
      eq_iff it1.smart_code it.smart_code,
      eq_iff (operacion_sufijo it1) (operacion_sufijo it),
    );
    points = λ c o id it p e. ground (
      arith,
      t.items id,
      t.slots c o,
      t.pointed c o,
      inv.points c o id it,
      eq_iff it1.smart_code c,
      eq_iff (operacion_sufijo it1) o,
    );
    leased = λ id it w c e. ground (arith, t.items id, t.claims id w, inv.leased id it w, t.live);
    scheduled =
        λ id it e l. ground (arith, t.items id, t.schedule id, t.scheduled, inv.scheduled id it);
    fresh = λ n id c lt. ground (arith, t.items id, t.fresh n id);
    fresh_index = λ n id c o k p. ground (arith, t.slots c o, t.fresh_index n id c o, t.counted n);
  }

  pub Arrive-Advance : Arrive → IsConsistent R db → Advance R db db'
  Arrive-Advance t inv = record {
    consistent = Arrive-IsConsistent t inv;
    evolves = λ id. elim (Bool-cases (id == x)) [
      | inl y ↦ t.arrived id ((==_iff id x).0 y) (ground (arith, t.items id))
      | inr n ↦ same (ground (arith, t.items id))
    ];
    counts = t.counts;
  }
