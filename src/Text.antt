-- ===== src/Text.antt =====
-- `str.strip` and `str.lower` of Python over code points, as app/core/clasificacion_operacion.py
-- uses them. `lower` maps ASCII letters: the words that its result is compared with are ASCII, and
-- no other letter of theirs is the lower case of a code point outside ASCII.
pub mod Search
pub mod Strip
use Prim.Native.Char.{code}
use ms_integracion_smartsupe.Prelude.{
  ℕ, ◌+◌, String, Bool, true, false, ◌&&◌, ◌||◌, List, [], ◌∷◌, map, leb, ◌==◌, if◌then◌else◌,
}

abbrev pub codes : String → List ℕ
codes String.[] = []
codes (String.◌∷◌ c s) = code c ∷ codes s

-- `str.isspace`
unfoldable pub is_space : ℕ → Bool
is_space c =
    (leb 9 c && leb c 13)
    || (leb 28 c && leb c 32)
    || c == 133
    || c == 160
    || c == 5760
    || (leb 8192 c && leb c 8202)
    || c == 8232
    || c == 8233
    || c == 8239
    || c == 8287
    || c == 12288

unfoldable pub strip_left : List ℕ → List ℕ
strip_left [] = []
strip_left (c ∷ cs) = if is_space c then strip_left cs else c ∷ cs

-- A code point before what is left of a text.
abbrev pub keep : ℕ → List ℕ → List ℕ
keep d [] = if is_space d then [] else d ∷ []
keep d (e ∷ es) = d ∷ e ∷ es

-- Keeps what stands before the trailing spaces.
unfoldable pub strip_right : List ℕ → List ℕ
strip_right [] = []
strip_right (c ∷ cs) = keep c (strip_right cs)

unfoldable pub strip : List ℕ → List ℕ
unfolding is_space strip_left strip_right
strip s = strip_right (strip_left s)

unfoldable pub lower_code : ℕ → ℕ
lower_code c = if leb 65 c && leb c 90 then c + 32 else c

unfoldable pub lower : List ℕ → List ℕ
unfolding lower_code
lower = map lower_code

abbrev pub same_text : List ℕ → List ℕ → Bool
same_text [] [] = true
same_text (a ∷ s) (b ∷ t) = a == b && same_text s t
same_text _ _ = false
