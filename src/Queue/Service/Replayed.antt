-- ===== src/Queue/Service/Replayed.antt =====
-- `reencolar_item_fallido`: an operator puts an item that failed for good back, and its record of
-- the idempotency store is QUEUED again.
use ms_integracion_smartsupe.Prelude.{
  ℕ, ◌+◌, String, ◌≡◌, ◌∙◌, refl, true, Option, none, some, List, [], arith, str_eq, if◌then◌else◌,
  inl, inr, Bool-cases,
}
use ms_integracion_smartsupe.Status.{is_failed_final}
use ms_integracion_smartsupe.Item.{Item, version_or_one}
use ms_integracion_smartsupe.Classification.{Payload}
use ms_integracion_smartsupe.Redis.{
  Redis, Command, Decoded, missing, undecodable, decoded, item_key, item_text, read_item,
  read_item-cases, run, get-run,
}
use ms_integracion_smartsupe.Remote.{Link, up, request_lost, reply_lost, call, call-answered}
use ms_integracion_smartsupe.Idempotency.Records.{registrar_encolado, store_record-keeps_item}
use ms_integracion_smartsupe.Queue.Script.Replay.{
  ReplayReply, replayed, replay_not_found, replay_error, not_failed_final,
  operacion_tiene_item_mas_reciente, replay_item, revived,
}

-- An error of the script is an exception.
abbrev pub replay_answer : ReplayReply × List Command → Option ReplayReply × List Command
replay_answer (replay_error, cs) = (none, cs)
replay_answer (r, cs) = (some r, cs)

abbrev pub replay_note : String
replay_note = "Reencolado manualmente por un administrador tras fallo definitivo."

-- `load` is `json.loads` of a `payload_json`; `attempts` and `links` are those of
-- `registrar_encolado`, whose failure is only logged.
module _ (R : Redis) (sha : Payload → String) (load : String → Option Payload) (attempts : ℕ)
    (links : ℕ → Link) (link' : Link) (id ttl_ms now : ℕ) where
  open R use {Db, get}

  abbrev register_payload : String → Option Payload → Db → Db
  register_payload smart_code none db = db
  register_payload smart_code (some p) db =
      (registrar_encolado R sha attempts links db smart_code p replay_note (some id) ttl_ms now).1

  abbrev register_item : String → Option Decoded × Db → Db
  register_item smart_code (some (decoded it), db) =
      register_payload smart_code (load it.payload_json) db
  register_item smart_code (_, db) = db

  abbrev register_again : String → Db → Db
  register_again smart_code db =
      if str_eq smart_code ""
      then db
      else register_item smart_code (call R link' db (some (read_item (get db (item_key id))), []))

  after_replay : Option ReplayReply × Db → Option ReplayReply × Db
  after_replay (some (replayed smart_code version), db) =
      (some (replayed smart_code version), register_again smart_code db)
  after_replay (r, db) = (r, db)

  -- `none` is the reason "error_redis".
  unfoldable pub reencolar_item_fallido : Link → Db → Option ReplayReply × Db
  unfolding after_replay
  reencolar_item_fallido link db =
      after_replay (call R link db (replay_answer (replay_item R db id now)))

  register_payload-keeps :
      (smart_code : String) (o : Option Payload) (db : Db)
      → get (register_payload smart_code o db) (item_key id) ≡ get db (item_key id)
  unfolding registrar_encolado
  register_payload-keeps smart_code none db = refl
  register_payload-keeps smart_code (some p) db =
      store_record-keeps_item R attempts links db _ _ ttl_ms id

  register_item-keeps :
      (smart_code : String) (r : Option Decoded × Db)
      → get (register_item smart_code r) (item_key id) ≡ get r.1 (item_key id)
  register_item-keeps smart_code (none, db) = refl
  register_item-keeps smart_code (some missing, db) = refl
  register_item-keeps smart_code (some undecodable, db) = refl
  register_item-keeps smart_code (some (decoded it), db) =
      register_payload-keeps smart_code (load it.payload_json) db

  read-keeps :
      (l : Link) (d : Option Decoded) (db : Db)
      → get (call R l db (d, [])).1 (item_key id) ≡ get db (item_key id)
  unfolding call run
  read-keeps up d db = refl
  read-keeps request_lost d db = refl
  read-keeps reply_lost d db = refl

  register_again-keeps :
      (smart_code : String) (db : Db)
      → get (register_again smart_code db) (item_key id) ≡ get db (item_key id)
  register_again-keeps smart_code db = elim (Bool-cases (str_eq smart_code "")) [
    | inl y ↦ rw y refl
    | inr n ↦ rw n (register_item-keeps smart_code _ ∙ read-keeps link' _ db)
  ]

  abbrev Revived : Db → Db → String → ℕ → Type 0
  Revived db db' smart_code version =
      (it : Item) × (get db (item_key id) ≡ some (item_text it))
      × (is_failed_final it.estado ≡ true)
      × (smart_code ≡ it.smart_code)
      × (version ≡ version_or_one it.version + 1)
      × (get db' (item_key id) ≡ some (item_text (revived now it)))

  replay_item-Revived :
      (db : Db) (c : String) (v : ℕ)
      → (replay_item R db id now).0 ≡ replayed c v
      → Revived db (run R db (replay_item R db id now).1) c v
  unfolding replay_item
  replay_item-Revived db c v h = elim (read_item-cases (get db (item_key id))) [
    | inl m ↦ absurd (ground (arith, m, h))
    | inr (inl u) ↦ absurd (ground (arith, u, h))
    | inr (inr (it, e, d)) ↦ (
      it,
      e,
      ground (arith, e, h),
      ground (arith, e, h),
      ground (arith, e, h),
      ground (arith, e, h, get-run R db (replay_item R db id now).1 (item_key id)),
    )
  ]

  answer-inverse :
      (r : ReplayReply × List Command) (c : String) (v : ℕ)
      → (replay_answer r).0 ≡ some (replayed c v)
      → (r.0 ≡ replayed c v) × ((replay_answer r).1 ≡ r.1)
  answer-inverse (replayed d u, cs) c v e = (cc, refl)
  answer-inverse (replay_not_found, cs) c v e = cc
  answer-inverse (replay_error, cs) c v e = cc
  answer-inverse (not_failed_final s, cs) c v e = cc
  answer-inverse (operacion_tiene_item_mas_reciente, cs) c v e = cc

  after_replay-inverse :
      (r : Option ReplayReply × Db) (c : String) (v : ℕ)
      → (after_replay r).0 ≡ some (replayed c v)
      → (r.0 ≡ some (replayed c v)) × (get (after_replay r).1 (item_key id) ≡ get r.1 (item_key id))
  unfolding after_replay
  after_replay-inverse (some (replayed d u), db) c v e = (e, register_again-keeps d db)
  after_replay-inverse (some replay_not_found, db) c v e = cc
  after_replay-inverse (some replay_error, db) c v e = cc
  after_replay-inverse (some (not_failed_final s), db) c v e = cc
  after_replay-inverse (some operacion_tiene_item_mas_reciente, db) c v e = cc
  after_replay-inverse (none, db) c v e = cc

  -- When `reencolar_item_fallido` reports a replay, the item had failed for good, the reply names
  -- its case and the next version, and the item is PENDING again under that version, with no
  -- attempt counted and its payload kept, whatever calls are lost in the registration that follows.
  pub reencolar_revives :
      (link : Link) (db : Db) (c : String) (v : ℕ)
      → (reencolar_item_fallido link db).0 ≡ some (replayed c v)
      → (it : Item) × (get db (item_key id) ≡ some (item_text it))
        × (is_failed_final it.estado ≡ true)
        × (c ≡ it.smart_code)
        × (v ≡ version_or_one it.version + 1)
        × (get (reencolar_item_fallido link db).1 (item_key id) ≡ some (item_text (revived now it)))
  unfolding reencolar_item_fallido
  reencolar_revives link db c v h =
      let (answered, kept) =
        after_replay-inverse (call R link db (replay_answer (replay_item R db id now))) c v h in
      let (answer, same) = call-answered R link db _ _ answered in
      let (reply, commands) = answer-inverse (replay_item R db id now) c v answer in
      let (it, e, f, code, version, stored) = replay_item-Revived db c v reply in
      (it, e, f, code, version, kept ∙ rw (same, commands) stored)
