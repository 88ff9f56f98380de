-- ===== src/Queue/History/Reach.antt =====
-- What a method of a service does to Redis is a history of scripts and writes.
use ms_integracion_smartsupe.Prelude.{ℕ, ◌≡◌, ◌∙◌, ap, refl, Option, List, [], ◌∷◌, ◌++◌}
use ms_integracion_smartsupe.Redis.{Redis, Command, run, run-nil}
use ms_integracion_smartsupe.Remote.{Link, up, request_lost, reply_lost, call, retry, retry-keeps}
use ms_integracion_smartsupe.Queue.Consistent.{IsConsistent}
use ms_integracion_smartsupe.Queue.History.{Event, IsNamed, AllNamed, commands, play}
use ms_integracion_smartsupe.Queue.History.Safety.{play-IsConsistent}

AllNamed-append : (es ds : List Event) → AllNamed es → AllNamed ds → AllNamed (es ++ ds)
AllNamed-append [] ds h k = k
AllNamed-append (e ∷ es) ds h k = (h.0, AllNamed-append es ds h.1 k)

module _ (R : Redis) where
  open R use {Db}

  pub record Reaches (db db' : Db) : Type 0 where
    pub events : List Event
    pub named : AllNamed events
    pub played : play R db events ≡ db'

  play-append : (es ds : List Event) (db : Db) → play R db (es ++ ds) ≡ play R (play R db es) ds
  unfolding play
  play-append [] ds db = refl
  play-append (e ∷ es) ds db = play-append es ds (run R db (commands R db e))

  pub Reaches-refl : (db : Db) → Reaches db db
  unfolding play
  Reaches-refl db = record { events = []; named = tt; played = refl }

  pub Reaches-trans : {a b c : Db} → Reaches a b → Reaches b c → Reaches a c
  Reaches-trans {a} {b} {c} f g = record {
    events = f.events ++ g.events;
    named = AllNamed-append f.events g.events f.named g.named;
    played = play-append f.events g.events a ∙ (ap (λ d. play R d g.events) f.played ∙ g.played);
  }

  pub Reaches-play : (db : Db) (es : List Event) → AllNamed es → Reaches db (play R db es)
  Reaches-play db es h = record { events = es; named = h; played = refl }

  pub Reaches-event : (db : Db) (e : Event) → IsNamed e → Reaches db (run R db (commands R db e))
  unfolding play
  Reaches-event db e h = record { events = e ∷ []; named = (h, tt); played = refl }

  -- What a history reaches from a consistent queue is consistent.
  pub Reaches-IsConsistent : {a b : Db} → Reaches a b → IsConsistent R a → IsConsistent R b
  Reaches-IsConsistent {a} {b} f inv = rw (← f.played) (play-IsConsistent R a f.events f.named inv)

  module _ {A : Type 0} where
    -- A call of one script is one event or none.
    pub call-Reaches :
        (l : Link) (db : Db) (r : Option A × List Command) (e : Event)
        → IsNamed e
        → r.1 ≡ commands R db e
        → Reaches db (call R l db r).1
    unfolding call
    call-Reaches up db r e h same = rw same (Reaches-event db e h)
    call-Reaches request_lost db r e h same = Reaches-refl db
    call-Reaches reply_lost db r e h same = rw same (Reaches-event db e h)

    -- A call that only reads is none.
    pub read-Reaches : (l : Link) (db : Db) (o : Option A) → Reaches db (call R l db (o, [])).1
    unfolding call
    read-Reaches up db o = rw (run-nil R db) (Reaches-refl db)
    read-Reaches request_lost db o = Reaches-refl db
    read-Reaches reply_lost db o = rw (run-nil R db) (Reaches-refl db)

    -- A loop of calls is a history.
    pub retry-Reaches :
        (n : ℕ) (links : ℕ → Link) (body : Db → Option A × List Command) (e : Event) (db : Db)
        → IsNamed e
        → ((d : Db) → (body d).1 ≡ commands R d e)
        → Reaches db (retry R n links body db).1
    retry-Reaches n links body e db h same =
        retry-keeps R body (Reaches db) (λ d f. Reaches-trans f (rw (same d) (Reaches-event d e h)))
          n links db (Reaches-refl db)
