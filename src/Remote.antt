-- ===== src/Remote.antt =====
-- Calls to Redis over a connection that may fail, and the loop that retries them.
use ms_integracion_smartsupe.Prelude.{
  ℕ, zero, suc, ◌<◌, ◌≡◌, ◌≢◌, inl, inr, refl, Bool-cases, ◌==◌, ==_iff, Option, none, some, List,
  arith,
}
use ms_integracion_smartsupe.Redis.{Redis, Command, run}

-- What happens to one call: it is answered, it never arrives, or it is executed and the answer
-- is lost. The last two raise an exception.
pub data Link : Type 0 where
  up request_lost reply_lost : Link

module _ (R : Redis) {A : Type 0} where
  open R use {Db}

  -- `none` is an exception: of the connection, or of the script itself.
  unfoldable pub call : Link → Db → Option A × List Command → Option A × Db
  call up db (r, cs) = (r, run R db cs)
  call request_lost db (r, cs) = (none, db)
  call reply_lost db (r, cs) = (none, run R db cs)

  -- A call that is answered was executed once.
  pub call-answered :
      (l : Link) (db : Db) (r : Option A × List Command) (a : A)
      → (call l db r).0 ≡ some a
      → (r.0 ≡ some a) × ((call l db r).1 ≡ run R db r.1)
  unfolding call
  call-answered up db r a e = (e, refl)
  call-answered request_lost db r a e = cc
  call-answered reply_lost db r a e = cc

  -- The loop returns the answer, or goes on after an exception.
  unfoldable pub resume : Option A × Db → (Db → Option A × Db) → Option A × Db
  resume (some a, db) next = (some a, db)
  resume (none, db) next = next db

  -- `for intento in range(1, n + 1): try: return … except: …`, and then `raise`. The link of the
  -- attempt with `n` more to come is `links n`.
  unfoldable pub retry : ℕ → (ℕ → Link) → (Db → Option A × List Command) → Db → Option A × Db
  retry zero links body db = (none, db)
  retry (suc n) links body db = resume (call (links n) db (body db)) (λ db'. retry n links body db')

  module _ (body : Db → Option A × List Command) (P : Db → Type 0)
      (keep : (db : Db) → P db → P (run R db (body db).1)) where
    pub call-keeps : (l : Link) (db : Db) → P db → P (call l db (body db)).1
    unfolding call
    call-keeps up db h = keep db h
    call-keeps request_lost db h = h
    call-keeps reply_lost db h = keep db h

    resume-keeps :
        (r : Option A × Db) (next : Db → Option A × Db)
        → P r.1
        → ((db : Db) → P db → P (next db).1)
        → P (resume r next).1
    unfolding resume
    resume-keeps (some a, db) next h k = h
    resume-keeps (none, db) next h k = k db h

    -- Whatever the connection does, what each execution keeps is kept.
    pub retry-keeps : (n : ℕ) (links : ℕ → Link) (db : Db) → P db → P (retry n links body db).1
    unfolding retry
    retry-keeps zero links db h = h
    retry-keeps (suc n) links db h =
        resume-keeps _ _ (call-keeps (links n) db h) (λ db' h'. retry-keeps n links db' h')

  module _ (body : Db → Option A × List Command) (P : A → Db → Type 0)
      (reached : (db : Db) (a : A) → (body db).0 ≡ some a → P a (run R db (body db).1)) where
    pub call-reached :
        (l : Link) (db : Db) (a : A)
        → (call l db (body db)).0 ≡ some a
        → P a (call l db (body db)).1
    unfolding call
    call-reached up db a e = reached db a e
    call-reached request_lost db a e = cc
    call-reached reply_lost db a e = cc

    resume-reached :
        (r : Option A × Db) (next : Db → Option A × Db) (a : A)
        → (r.0 ≡ some a → P a r.1)
        → ((db : Db) → (next db).0 ≡ some a → P a (next db).1)
        → (resume r next).0 ≡ some a
        → P a (resume r next).1
    unfolding resume
    resume-reached (some b, db) next a h k e = h e
    resume-reached (none, db) next a h k e = k db e

    -- An answer of the loop is the answer of an execution, with nothing executed after it.
    pub retry-reached :
        (n : ℕ) (links : ℕ → Link) (db : Db) (a : A)
        → (retry n links body db).0 ≡ some a
        → P a (retry n links body db).1
    unfolding retry
    retry-reached zero links db a e = cc
    retry-reached (suc n) links db a e =
        resume-reached _ _ a (call-reached (links n) db a) (λ db'. retry-reached n links db' a) e

  module _ (body : Db → Option A × List Command) (replies : (db : Db) → (body db).0 ≢ none) where
    resume-none :
        (r : Option A × Db) (next : Db → Option A × Db)
        → (resume r next).0 ≡ none
        → (r.0 ≡ none) × ((next r.1).0 ≡ none)
    unfolding resume
    resume-none (some a, db) next e = cc
    resume-none (none, db) next e = (refl, e)

    call-none : (l : Link) (db : Db) → (call l db (body db)).0 ≡ none → l ≢ up
    unfolding call
    call-none up db e = absurd (replies db e)
    call-none request_lost db e = λ p. cc
    call-none reply_lost db e = λ p. cc

    -- The loop gives up only if no attempt was answered.
    pub retry-none :
        (n : ℕ) (links : ℕ → Link) (db : Db)
        → (retry n links body db).0 ≡ none
        → (m : ℕ) → m < n
        → links m ≢ up
    unfolding retry
    retry-none zero links db e m lt = elim lt [ ]
    retry-none (suc n) links db e m lt =
        let (first, later) =
          resume-none (call (links n) db (body db)) (λ db'. retry n links body db') e in
        elim (Bool-cases (m == n)) [
          | inl same ↦ rw ((==_iff m n).0 same) (call-none (links n) db first)
          | inr other ↦ retry-none n links (call (links n) db (body db)).1 later m (ground arith)
        ]
