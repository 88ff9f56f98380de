-- ===== src/Storage/Retry.antt =====
-- What a batch that is sent again does with the files that it sent before.
use ms_integracion_smartsupe.Prelude.{
  ◌≡◌, refl, Bool, true, false, ◌||◌, Option, none, some, List, [], ◌∷◌, ◌++◌, Bool-cases, inl, inr,
}
use ms_integracion_smartsupe.Text.{same_text}
use ms_integracion_smartsupe.Text.Strip.{same_text_refl}
use ms_integracion_smartsupe.Momento4.{member}
use ms_integracion_smartsupe.Storage.{
  Key, Adjunto, original_name, identificador_archivo, Respuesta, aceptado, duplicado, excepcion,
  Envio, sin_identidad, already_confirmed, enviado, duplicate_omitted, fallido, tras_respuesta,
  con_identidad, con_nombre, procesar_envio, enviar_todos, marcar, marcar_todos, transferir_lote,
}

-- The SFC has the file: it took it now, or answers that it has it.
abbrev pub en_sfc : Envio → Bool
en_sfc (enviado i) = true
en_sfc (duplicate_omitted i) = true
en_sfc _ = false

Or-true : (b : Bool) → (b || true) ≡ true
Or-true true = refl
Or-true false = refl

member-marcar :
    (guarda : Key → Bool) (i : Key) (e : Envio) (c : List Key)
    → member i c ≡ true
    → member i (marcar guarda e c) ≡ true
member-marcar guarda i (enviado j) c h = elim (Bool-cases (guarda j)) [
  | inl y ↦ simp (y, h) (Or-true (same_text i j))
  | inr n ↦ simp n h
]
member-marcar guarda i (duplicate_omitted j) c h = elim (Bool-cases (guarda j)) [
  | inl y ↦ simp (y, h) (Or-true (same_text i j))
  | inr n ↦ simp n h
]
member-marcar guarda i sin_identidad c h = h
member-marcar guarda i already_confirmed c h = h
member-marcar guarda i fallido c h = h

-- A file that the SFC has is among the checkpoints after its own result.
member-con_identidad :
    (guarda : Key → Bool) (leido : List Key) (i : Key) (r : Respuesta) (c : List Key)
    → guarda i ≡ true
    → en_sfc (con_identidad leido i r) ≡ true
    → member i (marcar guarda (con_identidad leido i r) c) ≡ true
member-con_identidad guarda leido i r c stored h = elim (Bool-cases (member i leido)) [
  | inl y ↦ (let bad : Path Bool false true = simp y at h in cc)
  | inr n ↦ simp n (answered_member r (simp n at h))
]
  where
    answered_member :
        (r : Respuesta)
        → en_sfc (tras_respuesta i r) ≡ true
        → member i (marcar guarda (tras_respuesta i r) c) ≡ true
    answered_member aceptado h = simp (stored, same_text_refl i) refl
    answered_member duplicado h = simp (stored, same_text_refl i) refl
    answered_member excepcion h = cc

-- The checkpoint that the result of a file leaves, and what a later batch does that reads it.
marked_again :
    (guarda : Key → Bool) (leido c : List Key) (a : Adjunto) (r : Respuesta) (o : Option Key)
    → ((i : Key) → guarda i ≡ true)
    → en_sfc (con_nombre leido a r o) ≡ true
    → (i : Key) × (member i (marcar guarda (con_nombre leido a r o) c) ≡ true)
      × ((l : List Key) (r' : Respuesta)
          → member i l ≡ true
          → con_nombre l a r' o ≡ already_confirmed)
marked_again guarda leido c a r none stored h = cc
marked_again guarda leido c a r (some n) stored h = (
  identificador_archivo a n,
  member-con_identidad guarda leido (identificador_archivo a n) r c
      (stored (identificador_archivo a n)) h,
  λ l r' marked. simp marked refl,
)

module _ (responder : Adjunto → Respuesta) (guarda : Key → Bool) (leido c : List Key)
    (stored : (i : Key) → guarda i ≡ true) where
  member-marcar_todos :
      (xs : List Adjunto) (a : Adjunto) (ys : List Adjunto) (i : Key)
      → member i (
          marcar guarda
            (procesar_envio responder leido a)
            (marcar_todos guarda (enviar_todos responder leido ys) c))
        ≡ true
      → member i (marcar_todos guarda (enviar_todos responder leido (xs ++ (a ∷ ys))) c) ≡ true
  unfolding enviar_todos marcar_todos
  member-marcar_todos [] a ys i h = h
  member-marcar_todos (x ∷ xs) a ys i h =
      member-marcar guarda i (procesar_envio responder leido x)
        (marcar_todos guarda (enviar_todos responder leido (xs ++ (a ∷ ys))) c)
        (member-marcar_todos xs a ys i h)

  -- When Redis stores every checkpoint, a file that the SFC has after a batch, because it took
  -- the file or answered that it was there, is not sent again by a later batch that reads the
  -- checkpoints the first left, even if other files of the first batch failed.
  pub retry_sends_rest :
      (responder' : Adjunto → Respuesta) (xs : List Adjunto) (a : Adjunto) (ys : List Adjunto)
      → en_sfc (procesar_envio responder leido a) ≡ true
      → procesar_envio responder' (transferir_lote responder guarda leido c (xs ++ (a ∷ ys))).1 a
        ≡ already_confirmed
  unfolding transferir_lote procesar_envio
  retry_sends_rest responder' xs a ys h =
      let (i, marked, again) =
        marked_again guarda leido (marcar_todos guarda (enviar_todos responder leido ys) c) a
          (responder a) (original_name a) stored h in
      again (marcar_todos guarda (enviar_todos responder leido (xs ++ (a ∷ ys))) c) (responder' a)
        (member-marcar_todos xs a ys i marked)
