-- ===== src/Redis/Memory.antt =====
-- A keyspace in memory that behaves as `Redis` asks: the assumptions can be met, and the
-- scripts can be run on it.
use ms_integracion_smartsupe.Prelude.{ℕ, Bool, false, Option, none, refl}
use ms_integracion_smartsupe.Redis.{
  Redis, Key, Value, StatusSet, SortedSet, Command, get_after, pttl_after, sismember_after,
  scard_after, zscore_after, is_some,
}

pub record Memory : Type 0 where
  pub strings : Key → Option Value
  pub ttls : Key → Option ℕ
  pub sets : StatusSet → ℕ → Bool
  pub cards : StatusSet → ℕ
  pub scores : SortedSet → ℕ → Option ℕ

abbrev pub empty : Memory
empty = record {
  strings = λ k. none;
  ttls = λ k. none;
  sets = λ s i. false;
  cards = λ s. 0;
  scores = λ z i. none;
}

abbrev pub step : Memory → Command → Memory
step m c = record {
  strings = λ k. get_after c k (m.strings k);
  ttls = λ k. pttl_after c k (is_some (m.strings k)) (m.ttls k);
  sets = λ s i. sismember_after c s i (m.sets s i);
  cards = λ s. scard_after c s (m.sets s) (m.cards s);
  scores = λ z i. zscore_after c z i (m.scores z i);
}

abbrev pub memory : Redis
memory = record {
  Db = Memory;
  get = λ m. m.strings;
  pttl = λ m. m.ttls;
  sismember = λ m. m.sets;
  scard = λ m. m.cards;
  zscore = λ m. m.scores;
  exec = step;
  get-exec = λ m c k. refl;
  pttl-exec = λ m c k. refl;
  sismember-exec = λ m c s i. refl;
  scard-exec = λ m c s. refl;
  zscore-exec = λ m c z i. refl;
}
