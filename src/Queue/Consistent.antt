-- ===== src/Queue/Consistent.antt =====
-- The invariant of the queue's keyspace, which every script keeps.
pub mod Touch
pub mod Leave
pub mod Arrive
use ms_integracion_smartsupe.Prelude.{
  ℕ, ◌≤◌, ◌<◌, String, ◌≡◌, ◌⊎◌, Bool, true, false, Option, none, some, str_eq,
}
use ms_integracion_smartsupe.Status.{
  SmartStatus, pending, processing, sfc_done, completed, is_failed_final,
}
use ms_integracion_smartsupe.Item.{Item, operacion_sufijo, version_or_one}
use ms_integracion_smartsupe.Redis.{
  Redis, Value, StatusSet, pending_set, completed_set, failed_set, item_key, claim_key, index_key,
  counter_key, item_text, owner, reference, pending_zset, count_of, is_some,
}
use ms_integracion_smartsupe.Queue.Script.Types.{slot_of}

abbrev pub is_live : SmartStatus → Bool
is_live pending = true
is_live processing = true
is_live sfc_done = true
is_live _ = false

abbrev pub is_completed : SmartStatus → Bool
is_completed completed = true
is_completed _ = false

-- The status set that an item with this `estado` belongs to.
abbrev pub estado_in : SmartStatus → StatusSet → Bool
estado_in e pending_set = is_live e
estado_in e completed_set = is_completed e
estado_in e failed_set = is_failed_final e

abbrev pub belongs : Option Value → StatusSet → Bool
belongs (some (item_text it)) s = estado_in it.estado s
belongs _ s = false

abbrev pub is_readable : Option Value → Bool
is_readable none = true
is_readable (some (item_text it)) = true
is_readable (some _) = false

module _ (R : Redis) where
  open R use {Db, get, sismember, zscore}

  pub record IsConsistent (db : Db) : Type 0 where
    pub readable : (id : ℕ) → is_readable (get db (item_key id)) ≡ true
    pub partition : (s : StatusSet) (id : ℕ) → sismember db s id ≡ belongs (get db (item_key id)) s
    pub named :
        (id : ℕ) (it : Item)
        → get db (item_key id) ≡ some (item_text it)
        → str_eq it.smart_code "" ≡ false
    pub own_id : (id : ℕ) (it : Item) → get db (item_key id) ≡ some (item_text it) → it.id ≡ id
    pub slot :
        (id : ℕ) (it : Item)
        → get db (item_key id) ≡ some (item_text it)
        → is_live it.estado ≡ true
        → get db (slot_of it) ≡ some (reference id)
    pub points :
        (c o : String) (id : ℕ) (it : Item)
        → get db (index_key c o) ≡ some (reference id)
        → get db (item_key id) ≡ some (item_text it)
        → (it.smart_code ≡ c) × (operacion_sufijo it ≡ o)
    pub leased :
        (id : ℕ) (it : Item) (w : String)
        → get db (claim_key id) ≡ some (owner w)
        → get db (item_key id) ≡ some (item_text it)
        → is_live it.estado ≡ true
    pub scheduled :
        (id : ℕ) (it : Item)
        → get db (item_key id) ≡ some (item_text it)
        → is_live it.estado ≡ true
        → is_some (zscore db pending_zset id) ≡ true
    pub fresh :
        (n id : ℕ) → count_of (get db counter_key) ≡ some n → n < id → get db (item_key id) ≡ none
    pub fresh_index :
        (n id : ℕ) (c o : String)
        → count_of (get db counter_key) ≡ some n
        → get db (index_key c o) ≡ some (reference id)
        → id ≤ n

-- The version of `it'` is higher, or it is the same and so is the content.
abbrev pub Newer : Item → Item → Type 0
Newer it it' =
    (version_or_one it.version < version_or_one it'.version)
    ⊎ ((version_or_one it'.version ≡ version_or_one it.version)
        × (it'.payload_json ≡ it.payload_json)
        × (it'.payload_hash ≡ it.payload_hash))

-- What a script does to one item: nothing, delete it, put a newer one, or create it under an id
-- that was not in use.
pub data Evolves (id : ℕ) (c o o' : Option Value) : Type 0 where
  same : o' ≡ o → Evolves id c o o'
  gone : o' ≡ none → Evolves id c o o'
  changed :
      (it it' : Item)
      → o ≡ some (item_text it)
      → o' ≡ some (item_text it')
      → Newer it it'
      → Evolves id c o o'
  created : (n : ℕ) → count_of c ≡ some n → n < id → Evolves id c o o'

module _ (R : Redis) where
  open R use {Db, get}

  -- One script takes the keyspace from `db` to `db'`: the invariant holds after it, every item
  -- evolves, and the counter does not go back.
  pub record Advance (db db' : Db) : Type 0 where
    pub consistent : IsConsistent R db'
    pub evolves :
        (id : ℕ) → Evolves id (get db counter_key) (get db (item_key id)) (get db' (item_key id))
    pub counts :
        (m : ℕ)
        → count_of (get db' counter_key) ≡ some m
        → (n : ℕ) × (count_of (get db counter_key) ≡ some n) × (n ≤ m)
