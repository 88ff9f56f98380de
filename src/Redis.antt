-- ===== src/Redis.antt =====
-- Redis as the scripts and services see it: a record of operations with their documented
-- behaviour. The server is not part of the repository, so it is a parameter everywhere.
-- A key is given by its parts; the sets are those of `status:<estado>`, the sorted sets are
-- `pending_zset` and `created_zset`.
pub mod Memory
use ms_integracion_smartsupe.Prelude.{
  ℕ, ◌+◌, ◌-◌, String, Bool, true, false, ◌&&◌, Option, none, some, List, [], ◌∷◌, ◌==◌, str_eq,
  ◌≡◌, ◌⊎◌, inl, inr, refl, arith, eq_iff, if◌then◌else◌,
}
use ms_integracion_smartsupe.Item.{Item}
use ms_integracion_smartsupe.IdempotencyRecord.{IdempotencyKey, IdempotencyRecord}

-- `{sfc:queue}:item:<id>`, `…:claim:<id>`, `…:index:<smart_code>:<operacion>`,
-- `…:index:<smart_code>` (the format of older releases), `…:counter`, and the key of an
-- idempotency record; a lock's key is named by its text.
pub data Key : Type 0 where
  item_key claim_key : ℕ → Key
  index_key : String → String → Key
  old_index_key : String → Key
  counter_key : Key
  idempotency_key : IdempotencyKey → Key
  lock_key : String → Key

-- What a string key holds. An item's text is given by what `cjson.decode` reads from it.
pub data Value : Type 0 where
  item_text : Item → Value
  corrupt_text : Value
  reference : ℕ → Value
  owner : String → Value
  count : ℕ → Value
  record_text : IdempotencyRecord → Value

pub data StatusSet : Type 0 where
  pending_set completed_set failed_set : StatusSet

pub data SortedSet : Type 0 where
  pending_zset created_zset : SortedSet

pub data Command : Type 0 where
  set : Key → Value → Command
  set_px : Key → Value → ℕ → Command
  incr : Key → Command
  pexpire : Key → ℕ → Command
  del : Key → Command
  sadd srem : StatusSet → ℕ → Command
  zadd : SortedSet → ℕ → ℕ → Command
  zrem : SortedSet → ℕ → Command

abbrev pub key_eq : Key → Key → Bool
key_eq (item_key a) (item_key b) = a == b
key_eq (claim_key a) (claim_key b) = a == b
key_eq (index_key a o) (index_key b p) = str_eq a b && str_eq o p
key_eq (old_index_key a) (old_index_key b) = str_eq a b
key_eq counter_key counter_key = true
key_eq (idempotency_key a) (idempotency_key b) =
    str_eq a.smart_code b.smart_code
    && (str_eq a.operation b.operation && str_eq a.payload_hash b.payload_hash)
key_eq (lock_key a) (lock_key b) = str_eq a b
key_eq _ _ = false

abbrev pub set_eq : StatusSet → StatusSet → Bool
set_eq pending_set pending_set = true
set_eq completed_set completed_set = true
set_eq failed_set failed_set = true
set_eq _ _ = false

abbrev pub zset_eq : SortedSet → SortedSet → Bool
zset_eq pending_zset pending_zset = true
zset_eq created_zset created_zset = true
zset_eq _ _ = false

-- INCR counts from 0 where the key does not exist, and fails on what is no number.
abbrev pub incremented : Option Value → Option Value
incremented none = some (count 1)
incremented (some (count n)) = some (count (n + 1))
incremented (some v) = some v

-- The documented effect of a command on one reply: GET, PTTL, SISMEMBER, SCARD, ZSCORE.
abbrev pub get_after : Command → Key → Option Value → Option Value
get_after (set j v) k o = if key_eq j k then some v else o
get_after (set_px j v ms) k o = if key_eq j k then some v else o
get_after (incr j) k o = if key_eq j k then incremented o else o
get_after (del j) k o = if key_eq j k then none else o
get_after _ k o = o

-- SET without PX drops the expiry; PEXPIRE has an effect on a key that exists.
abbrev pub pttl_after : Command → Key → Bool → Option ℕ → Option ℕ
pttl_after (set j v) k here t = if key_eq j k then none else t
pttl_after (set_px j v ms) k here t = if key_eq j k then some ms else t
pttl_after (pexpire j ms) k here t = if key_eq j k && here then some ms else t
pttl_after (del j) k here t = if key_eq j k then none else t
pttl_after _ k here t = t

abbrev pub sismember_after : Command → StatusSet → ℕ → Bool → Bool
sismember_after (sadd s i) r j b = if set_eq s r && i == j then true else b
sismember_after (srem s i) r j b = if set_eq s r && i == j then false else b
sismember_after _ r j b = b

abbrev pub zscore_after : Command → SortedSet → ℕ → Option ℕ → Option ℕ
zscore_after (zadd z t i) y j o = if zset_eq z y && i == j then some t else o
zscore_after (zrem z i) y j o = if zset_eq z y && i == j then none else o
zscore_after _ y j o = o

abbrev pub scard_after : Command → StatusSet → (ℕ → Bool) → ℕ → ℕ
scard_after (sadd s i) r here n = if set_eq s r then (if here i then n else n + 1) else n
scard_after (srem s i) r here n = if set_eq s r then (if here i then n - 1 else n) else n
scard_after _ r here n = n

-- What a script reads: the id in an index key, the worker in a claim, the number in the counter,
-- the item.
abbrev pub reference_of : Option Value → Option ℕ
reference_of (some (reference i)) = some i
reference_of _ = none

abbrev pub count_of : Option Value → Option ℕ
count_of none = some 0
count_of (some (count n)) = some n
count_of _ = none

abbrev pub owned_by : Option Value → String → Bool
owned_by (some (owner w)) v = str_eq w v
owned_by _ v = false

pub data Decoded : Type 0 where
  missing undecodable : Decoded
  decoded : Item → Decoded

abbrev pub read_item : Option Value → Decoded
read_item none = missing
read_item (some (item_text it)) = decoded it
read_item (some _) = undecodable

abbrev pub is_some {ℓ} : {A : Type ℓ} → Option A → Bool
is_some none = false
is_some (some a) = true

pub record Redis : Type 1 where
  pub Db : Type 0
  pub get : Db → Key → Option Value
  pub pttl : Db → Key → Option ℕ
  pub sismember : Db → StatusSet → ℕ → Bool
  pub scard : Db → StatusSet → ℕ
  pub zscore : Db → SortedSet → ℕ → Option ℕ
  pub exec : Db → Command → Db
  pub get-exec : (db : Db) (c : Command) (k : Key) → get (exec db c) k ≡ get_after c k (get db k)
  pub pttl-exec :
      (db : Db) (c : Command) (k : Key)
      → pttl (exec db c) k ≡ pttl_after c k (is_some (get db k)) (pttl db k)
  pub sismember-exec :
      (db : Db) (c : Command) (s : StatusSet) (i : ℕ)
      → sismember (exec db c) s i ≡ sismember_after c s i (sismember db s i)
  pub scard-exec :
      (db : Db) (c : Command) (s : StatusSet)
      → scard (exec db c) s ≡ scard_after c s (sismember db s) (scard db s)
  pub zscore-exec :
      (db : Db) (c : Command) (z : SortedSet) (i : ℕ)
      → zscore (exec db c) z i ≡ zscore_after c z i (zscore db z i)

-- What one reply is after a list of commands.
abbrev pub get_all : List Command → Key → Option Value → Option Value
get_all [] k o = o
get_all (c ∷ cs) k o = get_all cs k (get_after c k o)

abbrev pub sismember_all : List Command → StatusSet → ℕ → Bool → Bool
sismember_all [] s i b = b
sismember_all (c ∷ cs) s i b = sismember_all cs s i (sismember_after c s i b)

abbrev pub zscore_all : List Command → SortedSet → ℕ → Option ℕ → Option ℕ
zscore_all [] z i o = o
zscore_all (c ∷ cs) z i o = zscore_all cs z i (zscore_after c z i o)

abbrev pub pttl_all : List Command → Key → Option Value → Option ℕ → Option ℕ
pttl_all [] k o t = t
pttl_all (c ∷ cs) k o t = pttl_all cs k (get_after c k o) (pttl_after c k (is_some o) t)

module _ (R : Redis) where
  open R use {
    Db, get, pttl, sismember, zscore, exec, get-exec, pttl-exec, sismember-exec, zscore-exec,
  }

  -- A script is atomic: its commands run in order, with nothing in between.
  unfoldable pub run : Db → List Command → Db
  run db [] = db
  run db (c ∷ cs) = run (exec db c) cs

  pub get-run :
      (db : Db) (cs : List Command) (k : Key) → get (run db cs) k ≡ get_all cs k (get db k)
  unfolding run
  get-run db [] k = refl
  get-run db (c ∷ cs) k = rw (← get-exec db c k) (get-run (exec db c) cs k)

  pub sismember-run :
      (db : Db) (cs : List Command) (s : StatusSet) (i : ℕ)
      → sismember (run db cs) s i ≡ sismember_all cs s i (sismember db s i)
  unfolding run
  sismember-run db [] s i = refl
  sismember-run db (c ∷ cs) s i = rw (← sismember-exec db c s i) (sismember-run (exec db c) cs s i)

  pub zscore-run :
      (db : Db) (cs : List Command) (z : SortedSet) (i : ℕ)
      → zscore (run db cs) z i ≡ zscore_all cs z i (zscore db z i)
  unfolding run
  zscore-run db [] z i = refl
  zscore-run db (c ∷ cs) z i = rw (← zscore-exec db c z i) (zscore-run (exec db c) cs z i)

  pub pttl-run :
      (db : Db) (cs : List Command) (k : Key)
      → pttl (run db cs) k ≡ pttl_all cs k (get db k) (pttl db k)
  unfolding run
  pttl-run db [] k = refl
  pttl-run db (c ∷ cs) k = rw (← get-exec db c k, ← pttl-exec db c k) (pttl-run (exec db c) cs k)

  pub run-nil : (db : Db) → run db [] ≡ db
  unfolding run
  run-nil db = refl

-- An item that was read is what the key holds.
pub read_item-decoded :
    (o : Option Value) (it : Item) → read_item o ≡ decoded it → o ≡ some (item_text it)
read_item-decoded o it h = ground arith

pub reference_of-some :
    (o : Option Value) (i : ℕ) → reference_of o ≡ some i → o ≡ some (reference i)
reference_of-some o i h = ground arith

pub owned_by-owner : (o : Option Value) (w : String) → owned_by o w ≡ true → o ≡ some (owner w)
owned_by-owner (some (owner u)) w h = ground (arith, eq_iff u w)
owned_by-owner none w h = cc
owned_by-owner (some (item_text it)) w h = cc
owned_by-owner (some corrupt_text) w h = cc
owned_by-owner (some (reference i)) w h = cc
owned_by-owner (some (count n)) w h = cc
owned_by-owner (some (record_text t)) w h = cc

pub read_item-cases :
    (o : Option Value)
    → (read_item o ≡ missing)
      ⊎ (read_item o ≡ undecodable)
      ⊎ ((it : Item) × (o ≡ some (item_text it)) × (read_item o ≡ decoded it))
read_item-cases none = inl refl
read_item-cases (some (item_text it)) = inr (inr (it, refl, refl))
read_item-cases (some corrupt_text) = inr (inl refl)
read_item-cases (some (reference i)) = inr (inl refl)
read_item-cases (some (owner w)) = inr (inl refl)
read_item-cases (some (count n)) = inr (inl refl)
read_item-cases (some (record_text t)) = inr (inl refl)
