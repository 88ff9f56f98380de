-- ===== src/Text/Search.antt =====
-- `in` and `re.search` over code points, as `SfcErrorTranslator._coincide` of app/core/exceptions.py
-- uses them.
use ms_integracion_smartsupe.Prelude.{
  ℕ, ◌≡◌, refl, ap, Bool, true, false, not, ◌&&◌, ◌||◌, Option, none, some, List, [], ◌∷◌, ◌++◌,
  leb, ◌==◌, ==_iff, ◌↔◌, inl, inr, Bool-cases, Option-cases, if◌then◌else◌, arith,
}

-- What follows `p` where a text begins with it.
unfoldable pub after_prefix : List ℕ → List ℕ → Option (List ℕ)
after_prefix [] s = some s
after_prefix (d ∷ p) [] = none
after_prefix (d ∷ p) (c ∷ s) = if d == c then after_prefix p s else none

abbrev pub is_some {ℓ} : {A : Type ℓ} → Option A → Bool
is_some none = false
is_some (some a) = true

-- `p in s`
unfoldable pub contains : List ℕ → List ℕ → Bool
contains p [] = is_some (after_prefix p [])
contains p (c ∷ s) = is_some (after_prefix p (c ∷ s)) || contains p s

-- `[a-zA-Z0-9_-]`
abbrev pub is_code_char : ℕ → Bool
is_code_char c =
    (leb 97 c && leb c 122)
    || (leb 65 c && leb c 90)
    || (leb 48 c && leb c 57)
    || c == 95
    || c == 45

abbrev pub is_open : Option ℕ → Bool
is_open none = true
is_open (some c) = not (is_code_char c)

abbrev pub first : List ℕ → Option ℕ
first [] = none
first (c ∷ s) = some c

abbrev opens : Option (List ℕ) → Bool
opens none = false
opens (some rest) = is_open (first rest)

-- `p` between its lookarounds, at the start of `s`, after the code point `before`.
abbrev pub stands_at : Option ℕ → List ℕ → List ℕ → Bool
stands_at before p s = is_open before && opens (after_prefix p s)

-- `re.search` of `p` between its lookarounds.
unfoldable pub search_token : Option ℕ → List ℕ → List ℕ → Bool
search_token before p [] = stands_at before p []
search_token before p (c ∷ s) = stands_at before p (c ∷ s) || search_token (some c) p s

-- `_coincide`: a phrase with a space is found anywhere, a single token only on its own.
unfoldable pub coincide : List ℕ → List ℕ → Bool
coincide p s = if contains (32 ∷ []) p then contains p s else search_token none p s

after_prefix-append : (p rest : List ℕ) → after_prefix p (p ++ rest) ≡ some rest
unfolding after_prefix
after_prefix-append [] rest = refl
after_prefix-append (d ∷ p) rest =
    let same : (d == d) ≡ true = (==_iff d d).1 refl in simp (same, after_prefix-append p rest)

pub after_prefix-some : (p s rest : List ℕ) → after_prefix p s ≡ some rest → s ≡ p ++ rest
unfolding after_prefix
after_prefix-some [] s rest h = cc
after_prefix-some (d ∷ p) [] rest h = cc
after_prefix-some (d ∷ p) (c ∷ s) rest h = elim (Bool-cases (d == c)) [
  | inl y ↦
      let tail : s ≡ p ++ rest = after_prefix-some p s rest (rw y at h) in
      let head : d ≡ c = (==_iff d c).0 y in cc
  | inr n ↦ (let bad : Path (Option (List ℕ)) none (some rest) = rw n at h in cc)
]

-- The code point before the end of `b`.
abbrev pub last_or : Option ℕ → List ℕ → Option ℕ
last_or before [] = before
last_or before (c ∷ b) = last_or (some c) b

-- `p` stands in `s` with no code character beside it.
abbrev pub StandsAlone : Option ℕ → List ℕ → List ℕ → Type 0
StandsAlone before p s =
    (b a : List ℕ) × (s ≡ b ++ (p ++ a))
    × (is_open (last_or before b) ≡ true)
    × (is_open (first a) ≡ true)

both : (a b : Bool) → (a && b) ≡ true → (a ≡ true) × (b ≡ true)
both a b h = ground arith

either : (a : Bool) {b : Bool} → b ≡ true → (a || b) ≡ true
either true h = refl
either false h = h

stands_at-StandsAlone :
    (before : Option ℕ) (p s : List ℕ) → stands_at before p s ≡ true → StandsAlone before p s
stands_at-StandsAlone before p s h =
    let (l, r) = both (is_open before) (opens (after_prefix p s)) h in
    elim (Option-cases (after_prefix p s)) [
      | inl n ↦ (let bad : false ≡ true = rw n at r in cc)
      | inr (a, e) ↦ ([], a, after_prefix-some p s a e, l, rw e at r)
    ]

search_token_sound :
    (p : List ℕ) (before : Option ℕ) (s : List ℕ)
    → search_token before p s ≡ true
    → StandsAlone before p s
unfolding search_token
search_token_sound p before [] h = stands_at-StandsAlone before p [] h
search_token_sound p before (c ∷ s) h = elim (Bool-cases (stands_at before p (c ∷ s))) [
  | inl y ↦ stands_at-StandsAlone before p (c ∷ s) y
  | inr n ↦
      let (b, a, e, l, r) = search_token_sound p (some c) s (rw n at h) in
      (c ∷ b, a, ap (λ t. c ∷ t) e, l, r)
]

search_token-here :
    (p : List ℕ) (before : Option ℕ) (s : List ℕ)
    → stands_at before p s ≡ true
    → search_token before p s ≡ true
unfolding search_token
search_token-here p before [] h = h
search_token-here p before (c ∷ s) h = rw h refl

search_token_complete :
    (p a b : List ℕ) (before : Option ℕ)
    → is_open (last_or before b) ≡ true
    → is_open (first a) ≡ true
    → search_token before p (b ++ (p ++ a)) ≡ true
unfolding search_token
search_token_complete p a [] before l r =
    search_token-here p before (p ++ a) (rw (l, after_prefix-append p a) r)
search_token_complete p a (c ∷ b) before l r =
    either (stands_at before p (c ∷ (b ++ (p ++ a)))) (search_token_complete p a b (some c) l r)

-- A single token is found in a text exactly where the text has it with no letter, digit, hyphen or
-- underscore beside it.
pub coincide-token_iff :
    (p s : List ℕ) → contains (32 ∷ []) p ≡ false → (coincide p s ≡ true) ↔ StandsAlone none p s
unfolding coincide
coincide-token_iff p s h =
    simp h
      (search_token_sound p none s, λ (b, a, e, l, r). rw e (search_token_complete p a b none l r))

after_prefix-longer :
    (p x y : List ℕ) → is_some (after_prefix p x) ≡ true → is_some (after_prefix p (x ++ y)) ≡ true
unfolding after_prefix
after_prefix-longer [] x y h = refl
after_prefix-longer (d ∷ p) [] y h = cc
after_prefix-longer (d ∷ p) (c ∷ x) y h = elim (Bool-cases (d == c)) [
  | inl e ↦ simp e (after_prefix-longer p x y (rw e at h))
  | inr n ↦ (let bad : false ≡ true = rw n at h in cc)
]

contains-here : (p s : List ℕ) → is_some (after_prefix p s) ≡ true → contains p s ≡ true
unfolding contains
contains-here p [] h = h
contains-here p (c ∷ s) h = rw h refl

-- What a part contains, the whole contains.
pub contains-append_left : (p x y : List ℕ) → contains p x ≡ true → contains p (x ++ y) ≡ true
unfolding contains
contains-append_left p [] y h = contains-here p y (after_prefix-longer p [] y h)
contains-append_left p (c ∷ x) y h = elim (Bool-cases (is_some (after_prefix p (c ∷ x)))) [
  | inl e ↦ contains-here p (c ∷ (x ++ y)) (after_prefix-longer p (c ∷ x) y e)
  | inr n ↦
      either (is_some (after_prefix p (c ∷ (x ++ y)))) (contains-append_left p x y (rw n at h))
]

pub contains-append_right : (p x y : List ℕ) → contains p y ≡ true → contains p (x ++ y) ≡ true
unfolding contains
contains-append_right p [] y h = h
contains-append_right p (c ∷ x) y h =
    either (is_some (after_prefix p (c ∷ (x ++ y)))) (contains-append_right p x y h)
