-- ===== src/Queue/Service/Purge.antt =====
-- `_purgar_estado`: the items of one status set that are older than the retention are deleted. The
-- ids are those that the scan of the set gave; the GET of the id `i` sees the keyspace `seen i`,
-- and the pipeline runs later, as one transaction.
use ms_integracion_smartsupe.Prelude.{
  ℕ, ◌+◌, ◌≡◌, refl, Bool, true, false, Option, none, some, List, [], ◌∷◌, ◌++◌, ◌∙◌, ◌==◌, ◌||◌,
  Bool-cases, inl, inr, arith, leb, length, if◌then◌else◌,
}
use ms_integracion_smartsupe.Status.{is_failed_final}
use ms_integracion_smartsupe.Item.{Item}
use ms_integracion_smartsupe.Redis.{
  Redis, Command, StatusSet, set_eq, pending_set, completed_set, failed_set, created_zset, item_key,
  item_text, del, srem, zrem, Decoded, missing, undecodable, decoded, read_item, run, get-run,
  sismember-run,
}
use ms_integracion_smartsupe.Remote.{Link, up, request_lost, reply_lost, call}
use ms_integracion_smartsupe.Queue.Consistent.{IsConsistent}
use ms_integracion_smartsupe.Queue.Script.Types.{slot_of}
use ms_integracion_smartsupe.Queue.Script.Replay.{replay_item, held_by_other, is_replayed}

-- `a_eliminar` and `inconsistentes`.
pub record Sorted : Type 0 where
  pub a_eliminar : List ℕ
  pub inconsistentes : List ℕ

abbrev pub sorted_with : ℕ → Decoded → ℕ → Option Sorted → Option Sorted
sorted_with id d limite none = none
sorted_with id missing limite (some s) = some (record s { inconsistentes = id ∷ s.inconsistentes })
sorted_with id undecodable limite (some s) = none
sorted_with id (decoded it) limite (some s) =
    if leb it.updated_at limite then some (record s { a_eliminar = id ∷ s.a_eliminar }) else some s

abbrev pub drop_ids : StatusSet → List ℕ → List Command
drop_ids s [] = []
drop_ids s (id ∷ ids) = srem s id ∷ drop_ids s ids

abbrev pub delete_items : StatusSet → List ℕ → List Command
delete_items s [] = []
delete_items s (id ∷ ids) =
    del (item_key id) ∷ srem s id ∷ zrem created_zset id ∷ delete_items s ids

module _ (R : Redis) where
  open R use {Db, get, sismember}

  -- The loop over the ids; `none` is an exception of `json.loads`.
  unfoldable pub sort_ids : (ℕ → Db) → ℕ → List ℕ → Option Sorted
  sort_ids seen limite [] = some (record { a_eliminar = []; inconsistentes = [] })
  sort_ids seen limite (id ∷ ids) =
      sorted_with id (read_item (get (seen id) (item_key id))) limite (sort_ids seen limite ids)

  abbrev pub execute_purge : Link → Db → StatusSet → List ℕ → List ℕ → Option ℕ × Db
  execute_purge link db s [] [] = (some 0, db)
  execute_purge link db s inconsistentes a_eliminar =
      call R link db
        (some (length a_eliminar), drop_ids s inconsistentes ++ delete_items s a_eliminar)

  abbrev pub purge_sorted : Link → Db → StatusSet → Option Sorted → Option ℕ × Db
  purge_sorted link db s none = (none, db)
  purge_sorted link db s (some t) = execute_purge link db s t.inconsistentes t.a_eliminar

  unfoldable pub purgar_estado : (ℕ → Db) → Link → Db → StatusSet → ℕ → List ℕ → Option ℕ × Db
  purgar_estado seen link db s limite ids = purge_sorted link db s (sort_ids seen limite ids)

  abbrev add_purged : ℕ → Option ℕ × Db → ℕ × Db
  add_purged total (none, db) = (0, db)
  add_purged total (some n, db) = (total + n, db)

  abbrev purge_next : Option ℕ × Db → (Db → Option ℕ × Db) → ℕ × Db
  purge_next (none, db) next = (0, db)
  purge_next (some n, db) next = add_purged n (next db)

  -- `purgar_registros_antiguos`: the completed items, and after them, with `others` between, those
  -- that failed for good; an exception of either is logged and gives 0.
  unfoldable pub purgar_registros_antiguos :
      (ℕ → Db) → (ℕ → Db) → Link → Link → (Db → Db) → Db → ℕ → ℕ → List ℕ → List ℕ → ℕ × Db
  purgar_registros_antiguos seen seen' link link' others db limite_exitoso limite_dlq ids ids' =
      purge_next (purgar_estado seen link db completed_set limite_exitoso ids)
        (λ db'. purgar_estado seen' link' (others db') failed_set limite_dlq ids')

  -- An item that failed for good and is older than the retention may be replayed by an operator
  -- after the purge has read it and before its pipeline runs. Then the replay succeeds, and the
  -- pipeline deletes the item while its id stays in the pending set: the obligation is lost.
  pub purge_loses_replayed :
      (db : Db) (x limite now : ℕ) (it : Item)
      → get db (item_key x) ≡ some (item_text it)
      → is_failed_final it.estado ≡ true
      → leb it.updated_at limite ≡ true
      → held_by_other (get db (slot_of it)) x ≡ false
      → let replayed = run R db (replay_item R db x now).1 in
        let purged = (purgar_estado (λ _. db) up replayed failed_set limite (x ∷ [])).1 in
        (is_replayed (replay_item R db x now).0 ≡ true)
        × (get purged (item_key x) ≡ none)
        × (sismember purged pending_set x ≡ true)
  unfolding replay_item purgar_estado sort_ids call
  purge_loses_replayed db x limite now it e f old free =
      let cs : List Command = (replay_item R db x now).1 in
      (
        ground arith,
        ground (arith, get-run R (run R db cs) (delete_items failed_set (x ∷ [])) (item_key x)),
        ground (
          arith,
          sismember-run R (run R db cs) (delete_items failed_set (x ∷ [])) pending_set x,
          sismember-run R db cs pending_set x,
        ),
      )

abbrev pub has : ℕ → List ℕ → Bool
has x [] = false
has x (i ∷ is) = (i == x) || has x is

module _ (R : Redis) (s : StatusSet) (other : set_eq s pending_set ≡ false) (x : ℕ) where
  open R use {Db, get, sismember}

  delete_items-keeps :
      (db : Db) (ids : List ℕ)
      → has x ids ≡ false
      → (get (run R db (delete_items s ids)) (item_key x) ≡ get db (item_key x))
        × (sismember (run R db (delete_items s ids)) pending_set x ≡ sismember db pending_set x)
  unfolding run
  delete_items-keeps db [] h = (refl, refl)
  delete_items-keeps db (i ∷ ids) h =
      let first : List Command = del (item_key i) ∷ srem s i ∷ zrem created_zset i ∷ [] in
      let (item, waits) = delete_items-keeps (run R db first) ids (ground arith) in
      (
        item ∙ ground (arith, get-run R db first (item_key x)),
        waits ∙ ground (arith, sismember-run R db first pending_set x),
      )

  purge-keeps :
      (db : Db) (is ids : List ℕ)
      → has x ids ≡ false
      → let db' = run R db (drop_ids s is ++ delete_items s ids) in
        (get db' (item_key x) ≡ get db (item_key x))
        × (sismember db' pending_set x ≡ sismember db pending_set x)
  unfolding run
  purge-keeps db [] ids h = delete_items-keeps db ids h
  purge-keeps db (i ∷ is) ids h =
      let first : List Command = srem s i ∷ [] in
      let (item, waits) = purge-keeps (run R db first) is ids h in
      (
        item ∙ get-run R db first (item_key x),
        waits ∙ ground (arith, sismember-run R db first pending_set x),
      )

  Kept : Db → Option ℕ × Db → Type 0
  Kept db r =
      (get r.1 (item_key x) ≡ get db (item_key x))
      × (sismember r.1 pending_set x ≡ sismember db pending_set x)

  call-Kept :
      (link : Link) (db : Db) (n : ℕ) (is ids : List ℕ)
      → has x ids ≡ false
      → Kept db (call R link db (some n, drop_ids s is ++ delete_items s ids))
  unfolding call Kept
  call-Kept up db n is ids h = purge-keeps db is ids h
  call-Kept request_lost db n is ids h = (refl, refl)
  call-Kept reply_lost db n is ids h = purge-keeps db is ids h

  execute-Kept :
      (link : Link) (db : Db) (is ids : List ℕ)
      → has x ids ≡ false
      → Kept db (execute_purge R link db s is ids)
  unfolding Kept
  execute-Kept link db [] [] h = (refl, refl)
  execute-Kept link db (i ∷ is) ids h = call-Kept link db (length ids) (i ∷ is) ids h
  execute-Kept link db [] (i ∷ ids) h = call-Kept link db (length (i ∷ ids)) [] (i ∷ ids) h

  abbrev to_delete : Option Sorted → List ℕ
  to_delete none = []
  to_delete (some t) = t.a_eliminar

  has-sorted_with :
      (i : ℕ) (d : Decoded) (limite : ℕ) (o : Option Sorted)
      → has x (to_delete (sorted_with i d limite o)) ≡ true
      → ((i == x) || has x (to_delete o)) ≡ true
  has-sorted_with i d limite none h = cc
  has-sorted_with i missing limite (some t) h = ground arith
  has-sorted_with i undecodable limite (some t) h = cc
  has-sorted_with i (decoded it) limite (some t) h = ground arith

  has-sort_ids :
      (seen : ℕ → Db) (limite : ℕ) (ids : List ℕ)
      → has x (to_delete (sort_ids R seen limite ids)) ≡ true
      → has x ids ≡ true
  unfolding sort_ids
  has-sort_ids seen limite [] h = h
  has-sort_ids seen limite (i ∷ ids) h =
      let step = has-sorted_with i _ limite (sort_ids R seen limite ids) h in
      elim (Bool-cases (has x (to_delete (sort_ids R seen limite ids)))) [
        | inl y ↦ ground (arith, has-sort_ids seen limite ids y)
        | inr n ↦ ground (arith, step, n)
      ]

  -- What waits is in no other status set.
  pending-alone :
      (db : Db) → IsConsistent R db → sismember db pending_set x ≡ true → sismember db s x ≡ false
  pending-alone db inv p = ground (arith, inv.partition pending_set x, inv.partition s x)

  purge_sorted-Kept :
      (link : Link) (db : Db) (o : Option Sorted)
      → has x (to_delete o) ≡ false
      → Kept db (purge_sorted R link db s o)
  unfolding Kept
  purge_sorted-Kept link db none h = (refl, refl)
  purge_sorted-Kept link db (some t) h = execute-Kept link db t.inconsistentes t.a_eliminar h

  -- The purge of the completed or of the failed items leaves an item that waits when the set is
  -- scanned as it is: whatever the reads see, whatever other clients do before the pipeline runs,
  -- and whether or not the pipeline or its answer is lost. The queue is consistent when the set is
  -- scanned, and the scan gives members of the set only.
  pub purge_keeps_waiting :
      (scanned : Db) (seen : ℕ → Db) (link : Link) (db : Db) (limite : ℕ) (ids : List ℕ)
      → IsConsistent R scanned
      → ((i : ℕ) → has i ids ≡ true → sismember scanned s i ≡ true)
      → sismember scanned pending_set x ≡ true
      → (get (purgar_estado R seen link db s limite ids).1 (item_key x) ≡ get db (item_key x))
        × (sismember (purgar_estado R seen link db s limite ids).1 pending_set x
            ≡ sismember db pending_set x)
  unfolding purgar_estado Kept
  purge_keeps_waiting scanned seen link db limite ids inv members waits =
      purge_sorted-Kept link db (sort_ids R seen limite ids)
        (elim (Bool-cases (has x (to_delete (sort_ids R seen limite ids)))) [
          | inl y ↦ absurd (
              ground (
                arith,
                members x (has-sort_ids seen limite ids y),
                pending-alone scanned inv waits,
              ))
          | inr n ↦ n
        ])
