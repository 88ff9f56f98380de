-- ===== src/Queue/Keeps/Operator.antt =====
-- REPLAY_ITEM and CANCELAR_PENDIENTE keep the invariant.
use ms_integracion_smartsupe.Prelude.{
  ℕ, String, ◌≡◌, refl, true, false, ◌||◌, none, some, List, [], ◌∷◌, arith, ◌==◌, Bool-cases,
  Option-cases, inl, inr, str_eq,
}
use ms_integracion_smartsupe.Status.{is_failed_final}
use ms_integracion_smartsupe.Item.{Item, operacion_sufijo}
use ms_integracion_smartsupe.Redis.{
  Redis, Command, item_key, claim_key, index_key, counter_key, item_text, reference, set, sadd,
  srem, zadd, zrem, del, pending_set, failed_set, pending_zset, created_zset, reference_of,
  reference_of-some, read_item, read_item-cases, run, get-run, sismember-run, zscore-run,
}
use ms_integracion_smartsupe.Queue.Script.Types.{slot_of}
use ms_integracion_smartsupe.Queue.Script.Replay.{replay_item, revived, held_by_other}
use ms_integracion_smartsupe.Queue.Script.Cancel.{
  cancel_pending, cancel_read, cancel_commands, same_hash,
}
use ms_integracion_smartsupe.Queue.Consistent.{IsConsistent, Advance, gone, changed}
use ms_integracion_smartsupe.Queue.Consistent.Leave.{Leave, Leave-Advance}
use ms_integracion_smartsupe.Queue.Consistent.Arrive.{Arrive, Arrive-Advance}
use ms_integracion_smartsupe.Queue.Keeps.Cases.{run-nil-Advance}

module _ (R : Redis) (db : R.Db) (inv : IsConsistent R db) (x now : ℕ) (it : Item)
    (e : R.get db (item_key x) ≡ some (item_text it)) (dead : is_failed_final it.estado ≡ true)
    (free : held_by_other (R.get db (slot_of it)) x ≡ false) where
  open R use {get, sismember}

  abbrev replay_commands : List Command
  replay_commands =
      set (item_key x) (item_text (revived now it))
      ∷ srem failed_set x
      ∷ sadd pending_set x
      ∷ zadd pending_zset now x
      ∷ set (slot_of it) (reference x)
      ∷ []

  replay-Arrive : Arrive R db (run R db replay_commands) x (revived now it)
  unfolding operacion_sufijo
  replay-Arrive = record {
    live = refl;
    id_of = inv.own_id x it e;
    code = inv.named x it e;
    items = λ id. ground (arith, get-run R db replay_commands (item_key id));
    sets =
        λ s id. ground (arith, sismember-run R db replay_commands s id, inv.partition s x, e, dead);
    slots = λ c o. ground (arith, get-run R db replay_commands (index_key c o));
    vacant = λ id it' r e' l. ground (arith, free, r);
    pointed = λ c o r. ground (arith, inv.points c o x it r e);
    claims = λ id u. ground (arith, get-run R db replay_commands (claim_key id));
    schedule = λ id. ground (arith, zscore-run R db replay_commands pending_zset id);
    scheduled = ground (arith, zscore-run R db replay_commands pending_zset x);
    fresh = λ m id k lt.
        ground (arith, get-run R db replay_commands counter_key, inv.fresh m id, inv.fresh m x, e);
    fresh_index = λ m id c o k r.
        ground (arith, get-run R db replay_commands counter_key, inv.fresh_index m id c o);
    arrived = λ id y n. changed it _ (rw y e) n (inl (omega arith));
    counts = λ m k. (m, ground (arith, get-run R db replay_commands counter_key), omega arith);
    counted = λ m k. ground (arith, get-run R db replay_commands counter_key, inv.fresh m x, e);
  }

module _ (R : Redis) (db : R.Db) (inv : IsConsistent R db) (x : ℕ) where
  open R use {get, sismember}

  -- REPLAY_ITEM keeps the invariant.
  pub replay_item-Advance : (now : ℕ) → Advance R db (run R db (replay_item R db x now).1)
  unfolding replay_item
  replay_item-Advance now = elim (read_item-cases (get db (item_key x))) [
    | inl m ↦ rw (m, replay_item) (run-nil-Advance R db inv)
    | inr (inl u) ↦ rw (u, replay_item) (run-nil-Advance R db inv)
    | inr (inr (it, e, d)) ↦ elim (Bool-cases (is_failed_final it.estado)) [
      | inr n ↦ rw (d, replay_item) (simp n (run-nil-Advance R db inv))
      | inl f ↦ elim (Bool-cases (held_by_other (get db (slot_of it)) x)) [
        | inl h ↦ rw (d, replay_item) (simp (f, inv.named x it e, h) (run-nil-Advance R db inv))
        | inr h ↦
            rw (d, replay_item)
              (simp (f, inv.named x it e, h)
                (Arrive-Advance R db _ x _ (replay-Arrive R db inv x now it e f h) inv))
      ]
    ]
  ]

module _ (R : Redis) (db : R.Db) (inv : IsConsistent R db) (c o : String) (x : ℕ) (it : Item)
    (i : R.get db (index_key c o) ≡ some (reference x)) (p : R.sismember db pending_set x ≡ true)
    (e : R.get db (item_key x) ≡ some (item_text it)) where
  open R use {get}

  abbrev cancelling : List Command
  cancelling =
      del (item_key x)
      ∷ srem pending_set x
      ∷ zrem pending_zset x
      ∷ zrem created_zset x
      ∷ del (index_key c o)
      ∷ []

  cancel-Leave : Leave R db (run R db cancelling) x it none
  cancel-Leave = record {
    before = e;
    live = ground (arith, inv.partition pending_set x);
    items = λ id. ground (arith, get-run R db cancelling (item_key id));
    readable = refl;
    not_live = refl;
    left = λ id n o'. gone n;
    codes = λ it' q. cc;
    sets = λ s id.
        ground (
          arith,
          sismember-run R db cancelling s id,
          inv.partition s x,
          inv.partition pending_set x,
        );
    slots =
        λ c' o'. ground (arith, get-run R db cancelling (index_key c' o'), inv.points c o x it i e);
    claims = λ id u. ground (arith, get-run R db cancelling (claim_key id));
    released = λ it' u q. refl;
    schedule = λ id n. ground (arith, zscore-run R db cancelling pending_zset id);
    counter = ground (arith, get-run R db cancelling counter_key);
  }

module _ (R : Redis) (db : R.Db) (inv : IsConsistent R db) (c o : String) where
  open R use {get, sismember}

  cancel_read-Advance :
      (x : ℕ) (h : String)
      → get db (index_key c o) ≡ some (reference x)
      → sismember db pending_set x ≡ true
      → Advance R db (run R db (cancel_read c o x h (read_item (get db (item_key x)))).1)
  unfolding cancel_read cancel_commands
  cancel_read-Advance x h i p = elim (read_item-cases (get db (item_key x))) [
    | inl m ↦ rw m (run-nil-Advance R db inv)
    | inr (inl u) ↦ absurd (ground (arith, u, p, inv.partition pending_set x))
    | inr (inr (it, e, d)) ↦ elim (Bool-cases (str_eq h "" || same_hash it.payload_hash h)) [
      | inl t ↦
          rw d (simp t (Leave-Advance R db _ x it none (cancel-Leave R db inv c o x it i p e) inv))
      | inr f ↦ rw d (simp f (run-nil-Advance R db inv))
    ]
  ]

  -- CANCELAR_PENDIENTE keeps the invariant.
  pub cancel_pending-Advance :
      (expected : ℕ) (h : String) → Advance R db (run R db (cancel_pending R db c o expected h).1)
  unfolding cancel_pending
  cancel_pending-Advance expected h = elim (Option-cases (reference_of (get db (index_key c o)))) [
    | inl z ↦ rw (z, cancel_pending) (run-nil-Advance R db inv)
    | inr (x, r) ↦ elim (Bool-cases (x == expected)) [
      | inr n ↦ rw (r, cancel_pending, n) (run-nil-Advance R db inv)
      | inl y ↦ elim (Bool-cases (sismember db pending_set x)) [
        | inr q ↦ rw (r, cancel_pending, y, q) (run-nil-Advance R db inv)
        | inl p ↦ rw (r, cancel_pending, y, p) (cancel_read-Advance x h (reference_of-some _ x r) p)
      ]
    ]
  ]
