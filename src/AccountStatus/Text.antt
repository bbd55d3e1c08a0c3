-- ===== src/AccountStatus/Text.antt =====
-- What the code uses of Go's `strings`: `TrimSpace` and `ToLower`, on the code points of a text.
use Prim.Native.Char.{code}
use sendly.Common.{
  ℕ, ◌+◌, String, Bool, true, false, ◌&&◌, ◌||◌, ◌==◌, nat_eq, leb, List, [], ◌∷◌, if◌then◌else◌,
}

-- `unicode.IsSpace`
abbrev pub is_space : ℕ → Bool
is_space c =
    (leb 9 c && leb c 13)
    || c == 32
    || c == 133
    || c == 160
    || c == 5760
    || (leb 8192 c && leb c 8202)
    || c == 8232
    || c == 8233
    || c == 8239
    || c == 8287
    || c == 12288

-- `unicode.ToLower`, where it answers an ASCII letter: the capitals, the dotted capital I and the
-- Kelvin sign. Any other character stays one that no word of this package has.
abbrev pub lower_code : ℕ → ℕ
lower_code c =
    if leb 65 c && leb c 90 then c + 32 else if c == 304 then 105 else if c == 8490 then 107 else c

unfoldable pub codes : String → List ℕ
codes String.[] = []
codes (String.◌∷◌ c s) = code c ∷ codes s

unfoldable pub trim_left : List ℕ → List ℕ
trim_left [] = []
trim_left (c ∷ cs) = if is_space c then trim_left cs else c ∷ cs

unfoldable pub all_space : List ℕ → Bool
all_space [] = true
all_space (c ∷ cs) = is_space c && all_space cs

unfoldable pub trim_right : List ℕ → List ℕ
unfolding all_space
trim_right [] = []
trim_right (c ∷ cs) = if all_space (c ∷ cs) then [] else c ∷ trim_right cs

unfoldable pub trim_space : List ℕ → List ℕ
unfolding trim_left trim_right
trim_space cs = trim_right (trim_left cs)

unfoldable pub to_lower : List ℕ → List ℕ
to_lower [] = []
to_lower (c ∷ cs) = lower_code c ∷ to_lower cs

unfoldable pub same_codes : List ℕ → List ℕ → Bool
same_codes [] [] = true
same_codes [] (d ∷ ds) = false
same_codes (c ∷ cs) [] = false
same_codes (c ∷ cs) (d ∷ ds) = c == d && same_codes cs ds

-- `strings.TrimSpace` as a text.
unfoldable pub blank : String → Bool
blank String.[] = true
blank (String.◌∷◌ c s) = is_space (code c) && blank s

unfoldable pub without_start : String → String
without_start String.[] = String.[]
without_start (String.◌∷◌ c s) = if is_space (code c) then without_start s else String.◌∷◌ c s

unfoldable pub without_end : String → String
unfolding blank
without_end String.[] = String.[]
without_end (String.◌∷◌ c s) =
    if blank (String.◌∷◌ c s) then String.[] else String.◌∷◌ c (without_end s)

unfoldable pub trimmed : String → String
unfolding without_start without_end
trimmed s = without_end (without_start s)
