-- ===== src/Authz/Words.antt =====
-- permission.go's `word` pattern, ^[a-z][a-z0-9]*$.
use Prim.Native.Char.{code}
use Prim.Native.Nat.{ℕ}
use Prim.Native.String.{String}
use go_core.Prelude.{Bool, false, ◌&&◌, ◌||◌, List, [], ◌∷◌, leb, all}

-- A character class `[first-last]`.
abbrev pub in_class : ℕ → ℕ → ℕ → Bool
in_class first last letter = leb first letter && leb letter last

abbrev pub starts_word : ℕ → Bool
starts_word = in_class b'a' b'z'

abbrev pub continues_word : ℕ → Bool
continues_word letter = starts_word letter || in_class b'0' b'9' letter

-- The pattern, over code points.
unfoldable pub matches_word : List ℕ → Bool
matches_word [] = false
matches_word (c ∷ cs) = starts_word c && all continues_word cs

-- The code points of a text. Only ASCII ones can match.
abbrev pub codes : String → List ℕ
codes (String.◌∷◌ letter rest) = code letter ∷ codes rest
codes String.[] = []

-- IsWord
unfoldable pub is_word : String → Bool
unfolding matches_word
is_word s = matches_word (codes s)
