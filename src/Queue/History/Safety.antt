-- ===== src/Queue/History/Safety.antt =====
-- What holds of the keyspace after any history.
use ms_integracion_smartsupe.Prelude.{
  ℕ, ◌≡◌, refl, sym, ◌∙◌, true, false, Option, none, some, List, [], ◌∷◌, arith,
}
use ms_integracion_smartsupe.Item.{Item, operacion_sufijo}
use ms_integracion_smartsupe.Redis.{
  Redis, StatusSet, pending_set, item_key, index_key, item_text, corrupt_text, reference, owner,
  count, record_text, Value, Key, run, pending_zset, is_some,
}
use ms_integracion_smartsupe.Queue.Consistent.{IsConsistent, Advance, belongs, is_live}
use ms_integracion_smartsupe.Queue.Keeps.Cases.{run-del_claim-Advance}
use ms_integracion_smartsupe.Queue.Keeps.Owner.{
  mark_success-Advance, mark_sfc_done-Advance, register_failure-Advance,
}
use ms_integracion_smartsupe.Queue.Keeps.Worker.{
  claim_item-Advance, extend_lease-Advance, defer_item-Advance,
}
use ms_integracion_smartsupe.Queue.Keeps.Outside.{
  remember-Advance, forget-Advance, try_lock-Advance, extend_lock-Advance, release_lock-Advance,
}
use ms_integracion_smartsupe.Queue.Keeps.Producer.{enqueue-Advance}
use ms_integracion_smartsupe.Queue.Keeps.Operator.{replay_item-Advance, cancel_pending-Advance}
use ms_integracion_smartsupe.Queue.History.{
  Event, enqueues, claims, extends, succeeds, sfc_finishes, fails, replays, defers, cancels,
  lease_ends, remembers, forgets, locks, renews, unlocks, IsNamed, AllNamed, commands, play,
}

-- What is live is an item.
belongs-pending :
    (o : Option Value)
    → belongs o pending_set ≡ true
    → (it : Item) × (o ≡ some (item_text it)) × (is_live it.estado ≡ true)
belongs-pending (some (item_text it)) h = (it, refl, h)
belongs-pending none h = cc
belongs-pending (some corrupt_text) h = cc
belongs-pending (some (reference i)) h = cc
belongs-pending (some (owner w)) h = cc
belongs-pending (some (count n)) h = cc
belongs-pending (some (record_text t)) h = cc

module _ (R : Redis) where
  open R use {Db, get, sismember, zscore}

  pub event-Advance :
      (db : Db) (e : Event)
      → IsNamed e
      → IsConsistent R db
      → Advance R db (run R db (commands R db e))
  unfolding commands
  event-Advance db (enqueues a) h inv = enqueue-Advance R db inv a h.0 h.1
  event-Advance db (claims x w px) h inv = claim_item-Advance R db inv x w px
  event-Advance db (extends x w px) h inv = extend_lease-Advance R db inv x w px
  event-Advance db (succeeds x w v now) h inv = mark_success-Advance R db inv x w v now
  event-Advance db (sfc_finishes x w v now r k t ttl) h inv =
      mark_sfc_done-Advance R db inv x w v now r k t ttl
  event-Advance db (fails x w v a) h inv = register_failure-Advance R db inv x w v a
  event-Advance db (replays x now) h inv = replay_item-Advance R db inv x now
  event-Advance db (defers x v proximo now motivo) h inv =
      defer_item-Advance R db inv x v proximo now motivo
  event-Advance db (cancels c o x t) h inv = cancel_pending-Advance R db inv c o x t
  event-Advance db (lease_ends x) h inv = run-del_claim-Advance R db inv x
  event-Advance db (remembers k r ttl) h inv = remember-Advance R db inv k r ttl
  event-Advance db (forgets k) h inv = forget-Advance R db inv k
  event-Advance db (locks k t s) h inv = try_lock-Advance R db inv k t s
  event-Advance db (renews k t ms) h inv = extend_lock-Advance R db inv k t ms
  event-Advance db (unlocks k t) h inv = release_lock-Advance R db inv k t

  -- Every interleaving of the queue's scripts, started from a consistent keyspace, ends in a
  -- consistent one, provided that each enqueued event has a smart code and an operation.
  pub play-IsConsistent :
      (db : Db) (es : List Event) → AllNamed es → IsConsistent R db → IsConsistent R (play R db es)
  unfolding play
  play-IsConsistent db [] h inv = inv
  play-IsConsistent db (e ∷ es) h inv =
      play-IsConsistent (run R db (commands R db e)) es h.1 (event-Advance db e h.0 inv).consistent

  -- After any such history, from a consistent keyspace, two pending items with the same smart code
  -- and the same operation are one item: an obligation that is pending has one slot in the queue.
  pub play_one_per_slot :
      (db : Db) (es : List Event) (i j : ℕ) (a b : Item)
      → AllNamed es
      → IsConsistent R db
      → get (play R db es) (item_key i) ≡ some (item_text a)
      → get (play R db es) (item_key j) ≡ some (item_text b)
      → sismember (play R db es) pending_set i ≡ true
      → sismember (play R db es) pending_set j ≡ true
      → a.smart_code ≡ b.smart_code
      → operacion_sufijo a ≡ operacion_sufijo b
      → i ≡ j
  play_one_per_slot db es i j a b h inv ea eb pa pb same_code same_operation =
      let inv' : IsConsistent R (play R db es) = play-IsConsistent db es h inv in
      ground (
        arith,
        inv'.partition pending_set i,
        inv'.partition pending_set j,
        inv'.slot i a ea,
        inv'.slot j b eb,
      )

  -- After any such history an id is in the pending, the completed or the failed set exactly when
  -- its stored item has a state of that set: PENDIENTE, PROCESSING and SFC_DONE are pending.
  pub play_sets :
      (db : Db) (es : List Event) (s : StatusSet) (i : ℕ)
      → AllNamed es
      → IsConsistent R db
      → sismember (play R db es) s i ≡ belongs (get (play R db es) (item_key i)) s
  play_sets db es s i h inv = (play-IsConsistent db es h inv).partition s i

  -- After any history of these events, from a consistent keyspace, an item that is in the pending
  -- set can be read and has a time in `pending_zset`, so that the retry cycle finds it. The purge is
  -- no event of such a history.
  pub play_scheduled :
      (db : Db) (es : List Event) (i : ℕ)
      → AllNamed es
      → IsConsistent R db
      → sismember (play R db es) pending_set i ≡ true
      → (it : Item) × (get (play R db es) (item_key i) ≡ some (item_text it))
        × (is_live it.estado ≡ true)
        × (is_some (zscore (play R db es) pending_zset i) ≡ true)
  play_scheduled db es i h inv p =
      let inv' : IsConsistent R (play R db es) = play-IsConsistent db es h inv in
      let (it, e, l) = belongs-pending _ (sym (inv'.partition pending_set i) ∙ p) in
      (it, e, l, inv'.scheduled i it e l)

module _ (R : Redis) (db : R.Db) (empty : (k : Key) → R.get db k ≡ none) where
  open R use {sismember}

  -- A keyspace with no keys is consistent.
  pub no_keys-IsConsistent :
      ((s : StatusSet) (i : ℕ) → sismember db s i ≡ false) → IsConsistent R db
  no_keys-IsConsistent sets = record {
    readable = λ id. rw (empty (item_key id));
    partition = λ s id. rw (empty (item_key id), sets s id);
    named = λ id it e. ground (arith, empty (item_key id));
    own_id = λ id it e. ground (arith, empty (item_key id));
    slot = λ id it e l. ground (arith, empty (item_key id));
    points = λ c o id it p e. ground (arith, empty (item_key id));
    leased = λ id it w c e. ground (arith, empty (item_key id));
    scheduled = λ id it e l. ground (arith, empty (item_key id));
    fresh = λ n id c lt. empty (item_key id);
    fresh_index = λ n id c o k p. ground (arith, empty (index_key c o));
  }
