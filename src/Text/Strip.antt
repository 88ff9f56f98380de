-- ===== src/Text/Strip.antt =====
-- Stripping a text twice is stripping it once.
use ms_integracion_smartsupe.Prelude.{
  ℕ, ◌≡◌, ◌∙◌, ==_iff, arith, ap, refl, true, false, List, [], ◌∷◌, Bool-cases, inl, inr,
}
use ms_integracion_smartsupe.Text.{is_space, strip_left, keep, strip_right, strip, same_text}

keep-strip_right : (c : ℕ) (r : List ℕ) → strip_right r ≡ r → strip_right (keep c r) ≡ keep c r
unfolding strip_right
keep-strip_right c [] h = elim (Bool-cases (is_space c)) [
  | inl y ↦ simp y refl
  | inr n ↦ simp n refl
]
keep-strip_right c (e ∷ es) h = ap (keep c) h

strip_right_idem : (s : List ℕ) → strip_right (strip_right s) ≡ strip_right s
unfolding strip_right
strip_right_idem [] = refl
strip_right_idem (c ∷ cs) = keep-strip_right c (strip_right cs) (strip_right_idem cs)

-- A text that is empty or begins with no space.
abbrev IsTrimmed : List ℕ → Type 0
IsTrimmed [] = Unit
IsTrimmed (c ∷ cs) = is_space c ≡ false

strip_left-IsTrimmed : (s : List ℕ) → IsTrimmed (strip_left s)
unfolding strip_left
strip_left-IsTrimmed [] = tt
strip_left-IsTrimmed (c ∷ cs) = elim (Bool-cases (is_space c)) [
  | inl y ↦ simp y (strip_left-IsTrimmed cs)
  | inr n ↦ simp n refl
]

keep-IsTrimmed : (c : ℕ) (r : List ℕ) → is_space c ≡ false → IsTrimmed (keep c r)
keep-IsTrimmed c [] h = simp h refl
keep-IsTrimmed c (e ∷ es) h = h

strip_right-IsTrimmed : (s : List ℕ) → IsTrimmed s → IsTrimmed (strip_right s)
unfolding strip_right
strip_right-IsTrimmed [] h = tt
strip_right-IsTrimmed (c ∷ cs) h = keep-IsTrimmed c (strip_right cs) h

strip_left-eq : (s : List ℕ) → IsTrimmed s → strip_left s ≡ s
unfolding strip_left
strip_left-eq [] h = refl
strip_left-eq (c ∷ cs) h = simp h refl

pub strip_idem : (s : List ℕ) → strip (strip s) ≡ strip s
unfolding strip
strip_idem s =
    ap strip_right (
      strip_left-eq (strip_right (strip_left s))
        (strip_right-IsTrimmed (strip_left s) (strip_left-IsTrimmed s)))
    ∙ strip_right_idem (strip_left s)

pub same_text_refl : (s : List ℕ) → same_text s s ≡ true
same_text_refl [] = refl
same_text_refl (c ∷ s) = ground (arith, same_text_refl s)

-- `same_text` is equality.
pub same_text-eq : (s t : List ℕ) → same_text s t ≡ true → s ≡ t
same_text-eq [] [] h = refl
same_text-eq [] (c ∷ t) h = cc
same_text-eq (c ∷ s) [] h = cc
same_text-eq (c ∷ s) (d ∷ t) h =
    let head : c ≡ d = (==_iff c d).0 (ground (arith, h)) in
    let tail : s ≡ t = same_text-eq s t (ground (arith, h)) in cc
