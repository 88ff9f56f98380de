-- ===== src/Mapping/Cache.antt =====
-- The cache of the catalogues: when Google Sheets is asked again, and when the notifier of an
-- old cache is called. Times are milliseconds.
pub mod Stale
use ms_integracion_smartsupe.Prelude.{
  ℕ, ◌+◌, ◌-◌, Bool, true, false, not, ◌&&◌, Option, none, some, List, [], ◌∷◌, ltb, leb,
  if◌then◌else◌,
}

-- `CACHE_TTL_SEGUNDOS` and `MAX_STALE_TTL_SEGUNDOS`
abbrev pub cache_ttl : ℕ
cache_ttl = 600000

abbrev pub max_stale_ttl : ℕ
max_stale_ttl = 86400000

module _ (C : Type 0) where
  -- The class's state; `catalogos` is `none` where the dict is empty.
  pub record Estado : Type 0 where
    pub catalogos : Option C
    pub ultima_actualizacion : ℕ
    pub ultimo_exito : ℕ

  -- What Google Sheets gives: an exception, no usable answer, or catalogues.
  pub data Hojas : Type 0 where
    error_de_red : Hojas
    sin_datos : Hojas
    nuevos : C → Hojas

  -- A call: the state after it, whether it asked Google Sheets, and whether it called
  -- `notificar_catalogo_stale`, which drops what it sent within fifteen minutes.
  pub record Llamada : Type 0 where
    pub estado : Estado
    pub consulta : Bool
    pub alerta : Bool

module _ {C : Type 0} where
  abbrev pub hay : Option C → Bool
  hay none = false
  hay (some c) = true

  abbrev pub fresca : ℕ → Estado C → Bool
  fresca ahora e =
      hay e.catalogos
      && (ltb 0 e.ultima_actualizacion && ltb (ahora - e.ultima_actualizacion) cache_ttl)

  -- `_manejar_falla_sincronizacion_sheets`: whether it calls `notificar_catalogo_stale`.
  unfoldable pub alerta_stale : ℕ → Estado C → Bool
  alerta_stale ahora e = ltb 0 e.ultimo_exito && ltb max_stale_ttl (ahora - e.ultimo_exito)

  -- The end of `obtener_catalogos_y_mapeos`, with the local copy.
  abbrev pub sin_exito : ℕ → Option C → Bool → Bool → Estado C → Llamada C
  sin_exito ahora respaldo consulta alerta e = record {
    estado = record e {
      catalogos = if hay e.catalogos then e.catalogos else respaldo;
      ultima_actualizacion = ahora;
    };
    consulta = consulta;
    alerta = alerta;
  }

  abbrev pub con_hojas : ℕ → Option C → Hojas C → Estado C → Llamada C
  con_hojas ahora respaldo (nuevos c) e = record {
    estado = record { catalogos = some c; ultima_actualizacion = ahora; ultimo_exito = ahora };
    consulta = true;
    alerta = false;
  }
  con_hojas ahora respaldo sin_datos e = sin_exito ahora respaldo true false e
  con_hojas ahora respaldo error_de_red e = sin_exito ahora respaldo true (alerta_stale ahora e) e

  abbrev pub sin_cambio : Estado C → Llamada C
  sin_cambio e = record { estado = e; consulta = false; alerta = false }

  -- `obtener_catalogos_y_mapeos`, with whether the spreadsheet is configured.
  unfoldable pub obtener_catalogos : ℕ → Bool → Option C → Hojas C → Estado C → Llamada C
  obtener_catalogos ahora configurado respaldo h e =
      if fresca ahora e
      then sin_cambio e
      else if configurado
      then con_hojas ahora respaldo h e
      else sin_exito ahora respaldo false false e

  -- Calls one after another.
  unfoldable pub llamadas : Option C → List (ℕ × Hojas C) → Estado C → Estado C
  llamadas respaldo [] e = e
  llamadas respaldo ((ahora, h) ∷ hs) e =
      llamadas respaldo hs (obtener_catalogos ahora true respaldo h e).estado
