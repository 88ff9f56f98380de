-- ===== src/Auth.antt =====
-- app/core/auth.py: the access token of the SFC, cached in a process and shared through Redis, its
-- renewal by one instance at a time, and the recovery from a 401. What one process does runs under
-- its local lock, so it is a sequence of steps. Times are milliseconds.
pub mod Waiting
pub mod Success
pub mod Rejected
pub mod Malformed
pub mod Contacts
mod Examples
use ms_integracion_smartsupe.Prelude.{
  ℕ, zero, suc, ◌+◌, String, Bool, true, false, not, ◌&&◌, Option, none, some, List, [], ◌∷◌, ◌++◌,
  ltb, leb, if◌then◌else◌, str_eq,
}

-- The cache of `SfcAuthManager`, which is also the record that Redis holds. A token is `none` where
-- it is falsy.
pub record Tokens : Type 0 where
  pub access_token : Option String
  pub refresh_token : Option String
  pub access_exp : Option ℕ
  pub refresh_exp : Option ℕ

abbrev pub un_minuto : ℕ
un_minuto = 60000

abbrev pub vigente : ℕ → Option String → Option ℕ → Bool
vigente ahora (some t) (some exp) = ltb (ahora + un_minuto) exp
vigente ahora _ _ = false

-- `_is_access_token_valid`
unfoldable pub is_access_token_valid : ℕ → Tokens → Bool
is_access_token_valid ahora m = vigente ahora m.access_token m.access_exp

-- `_is_refresh_token_valid`
unfoldable pub is_refresh_token_valid : ℕ → Tokens → Bool
is_refresh_token_valid ahora m = vigente ahora m.refresh_token m.refresh_exp

-- What `GET` of the shared record gives: an exception, no record, or a record that
-- `_save_to_redis` wrote.
pub data Lectura : Type 0 where
  ilegible : Lectura
  vacio : Lectura
  registro : Tokens → Lectura

-- `_load_from_redis`
abbrev pub load_from_redis : Lectura → Tokens → Tokens
load_from_redis ilegible m = m
load_from_redis vacio m = m
load_from_redis (registro r) m = r

-- What `login` or `refresh` answers: an error, an exception or a body that is no JSON object; or
-- an object with its two tokens, `none` where they are missing.
pub data Respuesta : Type 0 where
  rechazo : Respuesta
  emision : Option String → Option String → Respuesta

abbrev pub or_else : Option String → Option String → Option String
or_else none d = d
or_else (some t) d = some t

-- What the process sends: to the SFC, and to Redis.
pub data Envio : Type 0 where
  login : Envio
  refresh : Envio
  guardado : Tokens → Envio

abbrev pub contactos : List Envio → ℕ
contactos [] = 0
contactos (login ∷ es) = suc (contactos es)
contactos (refresh ∷ es) = suc (contactos es)
contactos (guardado r ∷ es) = contactos es

-- Whether a call returned, what it left in the cache, and what it sent.
pub record Paso : Type 0 where
  pub exito : Bool
  pub cache : Tokens
  pub envios : List Envio

abbrev pub con_envio : Envio → Paso → Paso
con_envio e p = record p { envios = e ∷ p.envios }

-- The SFC's answers to a renewal.
pub record Respuestas : Type 0 where
  pub a_refresh : Respuesta
  pub a_login : Respuesta

-- `_save_to_redis`, after a step that succeeded; its failure is only logged.
abbrev pub y_guardar : Bool → Paso → Paso
y_guardar compartido p =
    if compartido && p.exito then record p { envios = p.envios ++ (guardado p.cache ∷ []) } else p

-- A turn of the loop: whether there is a client of Redis, whether the lock is taken, what the
-- record holds then and after the wait, the time at both, and the SFC's answers.
pub record Vuelta : Type 0 where
  pub conectado : Bool
  pub adquirido : Bool
  pub tras_lock : Lectura
  pub ahora : ℕ
  pub respuestas : Respuestas
  pub tras_espera : Lectura
  pub luego : ℕ

abbrev pub sin_pasos : Tokens → Paso
sin_pasos m = record { exito = true; cache = m; envios = [] }

-- `LOCK_WAIT_TIMEOUT_SECONDS`
abbrev pub espera_maxima : ℕ
espera_maxima = 10000

-- After the wait: the token of another instance, or the next turn.
abbrev pub tras_dormir : Vuelta → Tokens → (Tokens → Option Paso) → Option Paso
tras_dormir v m seguir = if is_access_token_valid v.luego m then some (sin_pasos m) else seguir m

-- The turns that the wait can take at 250 ms each, and one more.
abbrev pub vueltas_maximas : ℕ
vueltas_maximas = 41

-- INVALIDATE_IF_MATCHES_LUA_SCRIPT on the record.
abbrev pub same_token : Option String → String → Bool
same_token none t = false
same_token (some s) t = str_eq s t

abbrev pub invalidar_si_coincide : String → Lectura → Lectura
invalidar_si_coincide rechazado (registro r) =
    if same_token r.access_token rechazado then vacio else registro r
invalidar_si_coincide rechazado l = l

abbrev pub olvidar : String → Tokens → Tokens
olvidar rechazado m =
    if same_token m.access_token rechazado then record m { access_token = none } else m

-- `jwt.decode` without its signature: `none` is an exception, `some none` a payload with no `exp`.
module _ (jwt_decode : String → Option (Option ℕ)) where
  -- The last line of `_save_tokens_local`.
  abbrev pub con_refresh_exp : Option ℕ → Tokens → Paso
  con_refresh_exp none m = record { exito = false; cache = m; envios = [] }
  con_refresh_exp (some exp) m = record {
    exito = true;
    cache = record m { refresh_exp = some exp };
    envios = [];
  }

  abbrev pub con_access_exp : Option ℕ → Option ℕ → Tokens → Paso
  con_access_exp none r m = record { exito = false; cache = m; envios = [] }
  con_access_exp (some exp) r m = con_refresh_exp r (record m { access_exp = some exp })

  abbrev pub decodificado : Option String → Option (Option ℕ)
  decodificado none = none
  decodificado (some t) = jwt_decode t

  -- Both payloads are decoded before either expiry is stored.
  abbrev pub con_expiraciones : Option (Option ℕ) → Option (Option ℕ) → Tokens → Paso
  con_expiraciones (some a) (some r) m = con_access_exp a r m
  con_expiraciones _ _ m = record { exito = false; cache = m; envios = [] }

  -- `_save_tokens_local`: the tokens are stored before they are decoded.
  unfoldable pub save_tokens_local : Option String → Option String → Tokens → Paso
  save_tokens_local access refresh' m =
      con_expiraciones (decodificado access) (decodificado refresh')
        (record m { access_token = access; refresh_token = refresh' })

  abbrev pub tras_login : Respuesta → Tokens → Paso
  tras_login rechazo m = record { exito = false; cache = m; envios = [] }
  tras_login (emision access refresh') m = save_tokens_local access refresh' m

  -- `_login`
  unfoldable pub hacer_login : Respuesta → Tokens → Paso
  hacer_login r m = con_envio login (tras_login r m)

  abbrev pub tras_refresh : Respuesta → Tokens → Paso
  tras_refresh rechazo m = record { exito = false; cache = m; envios = [] }
  tras_refresh (emision access refresh') m =
      save_tokens_local access (or_else refresh' m.refresh_token) m

  -- `_refresh_access_token`
  unfoldable pub refresh_access_token : Respuesta → Tokens → Paso
  refresh_access_token r m = con_envio refresh (tras_refresh r m)

  -- After `_refresh_access_token`: its failure leads to a login.
  abbrev pub o_login : Bool → Respuestas → Paso → Paso
  o_login compartido rs p =
      if p.exito
      then p
      else let p' = y_guardar compartido (hacer_login rs.a_login p.cache) in
        record p' { envios = p.envios ++ p'.envios }

  -- The renewal that `_renovar_token_directo_local` makes, and with `compartido` the one that
  -- `_renovar_token_coordinado` makes with the lock.
  unfoldable pub renovar : Bool → ℕ → Respuestas → Tokens → Paso
  renovar compartido ahora rs m =
      if is_refresh_token_valid ahora m
      then o_login compartido rs (y_guardar compartido (refresh_access_token rs.a_refresh m))
      else y_guardar compartido (hacer_login rs.a_login m)

  -- With the distributed lock.
  abbrev pub con_lock : Vuelta → Tokens → Paso
  con_lock v m =
      if is_access_token_valid v.ahora (load_from_redis v.tras_lock m)
      then sin_pasos (load_from_redis v.tras_lock m)
      else renovar true v.ahora v.respuestas (load_from_redis v.tras_lock m)

  abbrev pub vuelta : ℕ → Vuelta → Tokens → (Tokens → Option Paso) → Option Paso
  vuelta inicio v m seguir =
      if not v.conectado
      then some (renovar false v.ahora v.respuestas m)
      else if v.adquirido
      then some (con_lock v m)
      else if leb (inicio + espera_maxima) v.ahora
      then some (renovar false v.ahora v.respuestas m)
      else tras_dormir v (load_from_redis v.tras_espera m) seguir

  module _ (vueltas : ℕ → Vuelta) (inicio : ℕ) where
    -- The loop of `_renovar_token_coordinado` from turn `i`, with fuel; `none` is its end.
    unfoldable pub renovar_coordinado : ℕ → ℕ → Tokens → Option Paso
    renovar_coordinado zero i m = none
    renovar_coordinado (suc n) i m =
        let seguir = renovar_coordinado n (suc i) in vuelta inicio (vueltas i) m seguir

    abbrev pub tras_lectura : ℕ → Tokens → Option Paso
    tras_lectura ahora m =
        if is_access_token_valid ahora m
        then some (sin_pasos m)
        else renovar_coordinado vueltas_maximas 0 m

    -- `_get_valid_token_unlocked`, with the SFC's answers to a renewal without Redis.
    unfoldable pub get_valid_token_unlocked : Bool → Lectura → Respuestas → ℕ → Tokens → Option Paso
    get_valid_token_unlocked hay_redis l rs ahora m =
        if is_access_token_valid ahora m
        then some (sin_pasos m)
        else if hay_redis
        then tras_lectura ahora (load_from_redis l m)
        else some (renovar false ahora rs m)

    -- `async_auth_flow` after a 401 to a request with the token: the script runs, or is lost, and
    -- then the record is read. The retry is sent where the step succeeds.
    unfoldable pub recuperar_401 :
        String → Bool → Bool → Lectura → Respuestas → ℕ → Tokens → Option Paso
    recuperar_401 rechazado invalidado hay_redis l rs ahora m =
        get_valid_token_unlocked hay_redis
          (if invalidado then invalidar_si_coincide rechazado l else l) rs ahora
          (olvidar rechazado m)

    -- `get_valid_token`: the fast path without the local lock, and what runs under it.
    unfoldable pub get_valid_token : Bool → Lectura → Respuestas → ℕ → ℕ → Tokens → Option Paso
    get_valid_token hay_redis l rs ahora luego m =
        if is_access_token_valid ahora m
        then some (sin_pasos m)
        else get_valid_token_unlocked hay_redis l rs luego m
