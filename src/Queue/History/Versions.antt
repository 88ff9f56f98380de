-- ===== src/Queue/History/Versions.antt =====
-- The version of an item stands for its content, whatever happens in between.
use ms_integracion_smartsupe.Prelude.{ℕ, ◌≤◌, ◌≡◌, some, Option, List, [], ◌∷◌, inl, inr, arith}
use ms_integracion_smartsupe.Item.{Item, version_or_one}
use ms_integracion_smartsupe.Redis.{Redis, Value, item_key, counter_key, item_text, count_of, run}
use ms_integracion_smartsupe.Queue.Consistent.{
  IsConsistent, Advance, Newer, Evolves, same, gone, changed, created,
}
use ms_integracion_smartsupe.Queue.History.{Event, AllNamed, commands, play}
use ms_integracion_smartsupe.Queue.History.Safety.{event-Advance}

Newer-trans : (a b c : Item) → Newer a b → Newer b c → Newer a c
Newer-trans a b c h k = ground arith

module _ (R : Redis) (x : ℕ) (it0 : Item) where
  open R use {Db, get}

  -- The item is `it0`, a newer one, or gone for good.
  record Tracks (db : Db) : Type 0 where
    used : (n : ℕ) → count_of (get db counter_key) ≡ some n → x ≤ n
    newer : (it : Item) → get db (item_key x) ≡ some (item_text it) → Newer it0 it

  Newer-Evolves :
      (c o o' : Option Value)
      → Evolves x c o o'
      → ((n : ℕ) → count_of c ≡ some n → x ≤ n)
      → ((it : Item) → o ≡ some (item_text it) → Newer it0 it)
      → (it : Item) → o' ≡ some (item_text it)
      → Newer it0 it
  Newer-Evolves c o o' (same e) u h it q = h it (ground arith)
  Newer-Evolves c o o' (gone e) u h it q = absurd (ground arith)
  Newer-Evolves c o o' (changed a b e e' k) u h it q = Newer-trans it0 a it (h a e) (ground arith)
  Newer-Evolves c o o' (created n k lt) u h it q = absurd (omega (arith, u n k))

  Tracks-Advance : (db db' : Db) → Advance R db db' → Tracks db → Tracks db'
  Tracks-Advance db db' a t = record {
    used = λ m c. let (n, k, le) = a.counts m c in omega (arith, t.used n k);
    newer = Newer-Evolves _ _ _ (a.evolves x) t.used t.newer;
  }

  Tracks-play :
      (db : Db) (es : List Event)
      → AllNamed es
      → IsConsistent R db
      → Tracks db
      → Tracks (play R db es)
  unfolding play
  Tracks-play db [] h inv t = t
  Tracks-play db (e ∷ es) h inv t =
      let adv : Advance R db (run R db (commands R db e)) = event-Advance R db e h.0 inv in
      Tracks-play (run R db (commands R db e)) es h.1 adv.consistent (Tracks-Advance db _ adv t)

module _ (R : Redis) (db : R.Db) (inv : IsConsistent R db) where
  open R use {get}

  tracked :
      (es : List Event) (x : ℕ) (before after : Item)
      → AllNamed es
      → get db (item_key x) ≡ some (item_text before)
      → get (play R db es) (item_key x) ≡ some (item_text after)
      → Newer before after
  tracked es x before after h e e' =
      let t : Tracks R x before (play R db es) =
        Tracks-play R x before db es h inv (record {
          used = λ n c. ground (arith, inv.fresh n x c);
          newer = λ it q. ground arith;
        }) in
      t.newer after e'

  -- If an item is in the queue before and after any history, its version has not gone down.
  pub version-le-play :
      (es : List Event) (x : ℕ) (before after : Item)
      → AllNamed es
      → get db (item_key x) ≡ some (item_text before)
      → get (play R db es) (item_key x) ≡ some (item_text after)
      → version_or_one before.version ≤ version_or_one after.version
  version-le-play es x before after h e e' = omega (arith, tracked es x before after h e e')

  -- If an item has the same version after any history of the queue as it had before, then its
  -- payload and its payload hash are the same too.
  pub version_pins_content :
      (es : List Event) (x : ℕ) (before after : Item)
      → AllNamed es
      → get db (item_key x) ≡ some (item_text before)
      → get (play R db es) (item_key x) ≡ some (item_text after)
      → version_or_one after.version ≡ version_or_one before.version
      → (after.payload_json ≡ before.payload_json) × (after.payload_hash ≡ before.payload_hash)
  version_pins_content es x before after h e e' v = elim (tracked es x before after h e e') [
    | inl lt ↦ absurd (omega arith)
    | inr (q, payload, hash) ↦ (payload, hash)
  ]
