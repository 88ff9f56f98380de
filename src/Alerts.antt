-- ===== src/Alerts.antt =====
-- app/services/email_service.py: which alerts are sent. The table of the last sends is a dict in its
-- order, with a bound on its size; times are milliseconds of `time.monotonic`, and an alert is sent
-- by a task that may fail later.
pub mod Bounded
pub mod Window
mod Examples
use ms_integracion_smartsupe.Prelude.{
  ℕ, ◌-◌, ◌*◌, String, Bool, true, false, Option, none, some, List, [], ◌∷◌, length, ltb, leb,
  str_eq, if◌then◌else◌,
}

-- `_ULTIMO_ENVIO_POR_CLAVE`
abbrev pub Tabla : Type 0
Tabla = List (String × ℕ)

-- `VENTANA_DEDUP_SEGUNDOS`
abbrev pub ventana : ℕ
ventana = 900000

-- `MAX_ENTRADAS_DEDUP`
abbrev pub max_entradas : ℕ
max_entradas = 500

-- `dict.get`
abbrev pub lookup : String → Tabla → Option ℕ
lookup k [] = none
lookup k ((j, ts) ∷ t) = if str_eq k j then some ts else lookup k t

-- `dict[k] = ts` keeps the place of a key that is there.
abbrev pub poner : String → ℕ → Tabla → Tabla
poner k ts [] = (k, ts) ∷ []
poner k ts ((j, us) ∷ t) = if str_eq k j then (j, ts) ∷ t else (j, us) ∷ poner k ts t

abbrev pub quitar : String → Tabla → Tabla
quitar k [] = []
quitar k ((j, ts) ∷ t) = if str_eq k j then t else (j, ts) ∷ quitar k t

-- `_purgar_entradas_expiradas`
unfoldable pub purgar_expiradas : ℕ → Tabla → Tabla
purgar_expiradas ahora [] = []
purgar_expiradas ahora ((j, ts) ∷ t) =
    let resto = purgar_expiradas ahora t in
    if leb ventana (ahora - ts) then resto else (j, ts) ∷ resto

-- `min(tabla, key=tabla.get)`, of the entries after a first: the first of the least.
abbrev pub mas_vieja : String → ℕ → Tabla → String
mas_vieja k ts [] = k
mas_vieja k ts ((j, us) ∷ t) =
    mas_vieja (if ltb us ts then j else k) (if ltb us ts then us else ts) t

unfoldable pub quitar_mas_vieja : Tabla → Tabla
quitar_mas_vieja [] = []
quitar_mas_vieja ((k, ts) ∷ t) = quitar (mas_vieja k ts t) ((k, ts) ∷ t)

abbrev pub lleno : Tabla → Bool
lleno t = leb max_entradas (length t)

-- What makes room for a new entry.
unfoldable pub hacer_lugar : ℕ → Tabla → Tabla
hacer_lugar ahora t =
    let t' = purgar_expiradas ahora t in
    if lleno t then if lleno t' then quitar_mas_vieja t' else t' else t

abbrev pub reciente : ℕ → Option ℕ → Bool
reciente ahora none = false
reciente ahora (some ts) = ltb (ahora - ts) ventana

-- `_deberia_enviar`
unfoldable pub deberia_enviar : ℕ → Option String → Tabla → Bool × Tabla
deberia_enviar ahora none t = (true, t)
deberia_enviar ahora (some k) t =
    if reciente ahora (lookup k t) then (false, t) else (true, poner k ahora (hacer_lugar ahora t))

-- `_liberar_dedup_si_fallo`, with what `_enviar_smtp_sync` returned.
unfoldable pub liberar_si_fallo : Bool → String → Tabla → Tabla
liberar_si_fallo exito k t = if exito then t else quitar k t

-- What happens to the table: an alert with its key, or the end of a send.
pub data Evento : Type 0 where
  aviso : ℕ → Option String → Evento
  fin : Bool → String → Evento

unfoldable pub aplicar : Evento → Tabla → Tabla
aplicar (aviso ahora k) t = (deberia_enviar ahora k t).1
aplicar (fin exito k) t = liberar_si_fallo exito k t

unfoldable pub tras : List Evento → Tabla → Tabla
tras [] t = t
tras (e ∷ es) t = tras es (aplicar e t)
