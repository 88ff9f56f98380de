-- ===== src/Queue/Keeps/Producer.antt =====
-- ENQUEUE keeps the invariant.
use ms_integracion_smartsupe.Prelude.{
  ℕ, ◌+◌, ◌≡◌, refl, true, false, some, List, [], ◌∷◌, arith, Bool-cases, Option-cases, inl, inr,
  str_eq,
}
use ms_integracion_smartsupe.Item.{Item, operacion_sufijo}
use ms_integracion_smartsupe.Redis.{
  Redis, Command, item_key, claim_key, index_key, counter_key, item_text, reference, set, incr,
  sadd, zadd, pending_set, pending_zset, created_zset, reference_of, count_of, reference_of-some,
  read_item-cases, run, get-run, sismember-run, zscore-run,
}
use ms_integracion_smartsupe.Queue.Script.Enqueue.{
  EnqueueArgs, enqueue, insert_new, overwritten, fresh_item,
}
use ms_integracion_smartsupe.Queue.Consistent.{IsConsistent, Advance, created, is_live}
use ms_integracion_smartsupe.Queue.Consistent.Touch.{Touch, Touch-Advance}
use ms_integracion_smartsupe.Queue.Consistent.Arrive.{Arrive, Arrive-Advance}
use ms_integracion_smartsupe.Queue.Keeps.Cases.{run-nil-Advance}

module _ (R : Redis) (db : R.Db) (inv : IsConsistent R db) (a : EnqueueArgs)
    (code : str_eq a.smart_code "" ≡ false) (operation : str_eq a.operacion "" ≡ false) where
  open R use {get, sismember}

  module _ (x : ℕ) (it : Item)
      (i : get db (index_key a.smart_code a.operacion) ≡ some (reference x))
      (p : sismember db pending_set x ≡ true) (e : get db (item_key x) ≡ some (item_text it)) where
    abbrev overwrite_commands : List Command
    overwrite_commands =
        set (item_key x) (item_text (overwritten a it))
        ∷ zadd pending_zset a.proximo_reintento x
        ∷ []

    overwrite-Touch : Touch R db (run R db overwrite_commands) x it (overwritten a it)
    unfolding operacion_sufijo
    overwrite-Touch = record {
      before = e;
      items = λ id. ground (arith, get-run R db overwrite_commands (item_key id));
      sets = λ s id. ground (arith, sismember-run R db overwrite_commands s id);
      indexes = λ c o. ground (arith, get-run R db overwrite_commands (index_key c o));
      claims = λ id it' u.
          ground (arith, get-run R db overwrite_commands (claim_key id), inv.leased id it' u);
      schedule = λ id. ground (arith, zscore-run R db overwrite_commands pending_zset id);
      counter = ground (arith, get-run R db overwrite_commands counter_key);
      same_id = refl;
      same_code = refl;
      same_operacion = ground (arith, inv.points a.smart_code a.operacion x it i e, operation);
      newer = inl (omega arith);
      same_sets = λ s. ground (arith, inv.partition pending_set x);
    }

  module _ (n : ℕ) (c : count_of (get db counter_key) ≡ some n)
      (vacant : (id : ℕ) (it : Item)
        → get db (index_key a.smart_code a.operacion) ≡ some (reference id)
        → get db (item_key id) ≡ some (item_text it)
        → is_live it.estado ≡ true
        → id ≡ n + 1) where
    abbrev insert_commands : List Command
    insert_commands =
        incr counter_key
        ∷ set (item_key (n + 1)) (item_text (fresh_item a (n + 1)))
        ∷ sadd pending_set (n + 1)
        ∷ zadd pending_zset a.proximo_reintento (n + 1)
        ∷ zadd created_zset a.now (n + 1)
        ∷ set (index_key a.smart_code a.operacion) (reference (n + 1))
        ∷ []

    insert-Arrive : Arrive R db (run R db insert_commands) (n + 1) (fresh_item a (n + 1))
    unfolding operacion_sufijo
    insert-Arrive = record {
      live = refl;
      id_of = refl;
      code = code;
      items = λ id. ground (arith, get-run R db insert_commands (item_key id));
      sets = λ s id. ground (
        arith,
        sismember-run R db insert_commands s id,
        inv.partition s (n + 1),
        inv.fresh n (n + 1) c,
      );
      slots = λ c' o. ground (arith, get-run R db insert_commands (index_key c' o), operation);
      vacant = λ id it r e l. ground (arith, vacant id it, operation);
      pointed = λ c' o r. ground (arith, inv.fresh_index n (n + 1) c' o c);
      claims = λ id u. ground (arith, get-run R db insert_commands (claim_key id));
      schedule = λ id. ground (arith, zscore-run R db insert_commands pending_zset id);
      scheduled = ground (arith, zscore-run R db insert_commands pending_zset (n + 1));
      fresh = λ m id k lt.
          ground (arith, get-run R db insert_commands counter_key, inv.fresh n id c, c);
      fresh_index = λ m id c' o k r.
          ground (arith, get-run R db insert_commands counter_key, inv.fresh_index n id c' o c, c);
      arrived = λ id y n'. created n c (omega arith);
      counts = λ m k. (n, c, ground (arith, get-run R db insert_commands counter_key, c));
      counted = λ m k. ground (arith, get-run R db insert_commands counter_key, c);
    }

  insert_new-Advance :
      (pendientes : ℕ)
      → ((id : ℕ) (it : Item)
          → get db (index_key a.smart_code a.operacion) ≡ some (reference id)
          → get db (item_key id) ≡ some (item_text it)
          → is_live it.estado ≡ true
          → ⊥)
      → Advance R db (run R db (insert_new a pendientes (count_of (get db counter_key))).1)
  unfolding insert_new
  insert_new-Advance pendientes vacant = elim (Option-cases (count_of (get db counter_key))) [
    | inl z ↦ rw z (run-nil-Advance R db inv)
    | inr (n, c) ↦ rw c (
        Arrive-Advance R db _ (n + 1) _
          (insert-Arrive n c (λ id it r e l. absurd (vacant id it r e l))) inv)
  ]

  -- ENQUEUE keeps the invariant.
  pub enqueue-Advance : Advance R db (run R db (enqueue R db a).1)
  unfolding enqueue
  enqueue-Advance =
      elim (Option-cases (reference_of (get db (index_key a.smart_code a.operacion)))) [
        | inl z ↦ rw (z, enqueue) (insert_new-Advance _ (λ id it r e l. ground (arith, z)))
        | inr (x, r) ↦ elim (Bool-cases (sismember db pending_set x)) [
          | inr q ↦
              rw (r, enqueue, q)
                (insert_new-Advance _
                  (λ id it r' e l. ground (arith, r, q, inv.partition pending_set x)))
          | inl p ↦ elim (read_item-cases (get db (item_key x))) [
            | inl m ↦
                rw (r, enqueue, p, m) (insert_new-Advance _ (λ id it r' e l. ground (arith, r, m)))
            | inr (inl u) ↦ rw (r, enqueue, p, u) (run-nil-Advance R db inv)
            | inr (inr (it, e, d)) ↦
                rw (r, enqueue, p, d)
                  (Touch-Advance R db _ x it _ (overwrite-Touch x it (reference_of-some _ x r) p e)
                    inv)
          ]
        ]
      ]
