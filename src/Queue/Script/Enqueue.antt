-- ===== src/Queue/Script/Enqueue.antt =====
-- ENQUEUE_LUA_SCRIPT: a new event of a case takes the slot of its operation, or overwrites the
-- item that is pending there.
use ms_integracion_smartsupe.Prelude.{
  ℕ, ◌+◌, String, Bool, true, false, Option, none, some, List, [], ◌∷◌, if◌then◌else◌,
}
use ms_integracion_smartsupe.Status.{pending}
use ms_integracion_smartsupe.Item.{Item, version_or_one}
use ms_integracion_smartsupe.Redis.{
  Redis, Command, item_key, index_key, counter_key, item_text, reference, pending_set, pending_zset,
  created_zset, set, incr, sadd, zadd, reference_of, count_of, read_item, missing, undecodable,
  decoded,
}

pub record EnqueueArgs : Type 0 where
  pub smart_code : String
  pub tipo_operacion : String
  pub payload_json : String
  pub error_inicial : String
  pub max_intentos : ℕ
  pub now : ℕ
  pub proximo_reintento : ℕ
  pub correlation_id : String
  pub payload_hash : String
  pub operacion : String

-- `{is_new, data, pendientes_previos}`, or an error of `cjson.decode` or of INCR.
pub data EnqueueReply : Type 0 where
  enqueued : Bool → Item → ℕ → EnqueueReply
  enqueue_error : EnqueueReply

-- What the overwriting branch leaves of the stored table.
abbrev pub overwritten : EnqueueArgs → Item → Item
overwritten a data' = record data' {
  payload_json = a.payload_json;
  payload_hash = some a.payload_hash;
  ultimo_error = a.error_inicial;
  updated_at = a.now;
  proximo_reintento_at = a.proximo_reintento;
  correlation_id = a.correlation_id;
  es_duplicado = true;
  version = some (version_or_one data'.version + 1);
  estado = pending;
  sfc_completado = false;
  sfc_response = none;
  intentos = some 1;
  operacion = a.operacion;
}

abbrev pub fresh_item : EnqueueArgs → ℕ → Item
fresh_item a item_id = record {
  id = item_id;
  smart_code = a.smart_code;
  tipo_operacion = a.tipo_operacion;
  payload_json = a.payload_json;
  payload_hash = some a.payload_hash;
  operacion = a.operacion;
  estado = pending;
  sfc_completado = false;
  sfc_response = none;
  intentos = some 1;
  max_intentos = a.max_intentos;
  ultimo_error = a.error_inicial;
  proximo_reintento_at = a.proximo_reintento;
  created_at = a.now;
  updated_at = a.now;
  correlation_id = a.correlation_id;
  es_duplicado = false;
  version = some 1;
}

unfoldable pub overwrite : EnqueueArgs → ℕ → ℕ → Item → EnqueueReply × List Command
overwrite a existing_id pendientes it = (
  enqueued false (overwritten a it) pendientes,
  set (item_key existing_id) (item_text (overwritten a it))
      ∷ zadd pending_zset a.proximo_reintento existing_id
      ∷ [],
)

unfoldable pub insert_new : EnqueueArgs → ℕ → Option ℕ → EnqueueReply × List Command
insert_new a pendientes none = (enqueue_error, [])
insert_new a pendientes (some last) =
    let item_id = last + 1 in
    (
      enqueued true (fresh_item a item_id) pendientes,
      incr counter_key
          ∷ set (item_key item_id) (item_text (fresh_item a item_id))
          ∷ sadd pending_set item_id
          ∷ zadd pending_zset a.proximo_reintento item_id
          ∷ zadd created_zset a.now item_id
          ∷ set (index_key a.smart_code a.operacion) (reference item_id)
          ∷ [],
    )

module _ (R : Redis) where
  open R use {Db, get, sismember, scard}

  unfoldable pub enqueue : Db → EnqueueArgs → EnqueueReply × List Command
  unfolding overwrite insert_new
  enqueue db a =
      let pendientes = scard db pending_set in
      let insertion = insert_new a pendientes (count_of (get db counter_key)) in
      elim (reference_of (get db (index_key a.smart_code a.operacion))) [
        | none ↦ insertion
        | some existing_id ↦
            if sismember db pending_set existing_id
            then elim (read_item (get db (item_key existing_id))) [
              | missing ↦ insertion
              | undecodable ↦ (enqueue_error, [])
              | decoded it ↦ overwrite a existing_id pendientes it
            ]
            else insertion
      ]
