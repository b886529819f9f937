-- ===== src/Base/Text.antt =====
-- Python's `str`: equality that can be decided, membership, and the case and blank functions on
-- ASCII texts.
use Prim.Native.String.{String}
use mathlib.Core.Bool.{Bool, true, false, Bool-discrete, ◌||◌}
use mathlib.Core.Logic.{ite, dite}
use mathlib.Core.List.{List, [], ◌∷◌}
use text.Mathlib.Text
use text.Mathlib.TextEquality.{eq_iff}
use Prim.Native.Nat.{ℕ, zero, suc, ◌%◌, ◌/◌}
use Prim.Native.String.{◌++◌ as append}
use Prim.Native.Char.{Char, code}
use mathlib.Core.Bool.{◌&&◌}
use mathlib.Core.Path.{◌≡◌, refl}
use zcastor_agent.Base.Tests.{ltb, leb, ◌==◌, if◌then◌else◌}

-- Shut in proofs, where a split on `s ==ₛ t` yields the equation or its negation.
unfoldable pub String-discrete : Discrete String
String-discrete s t =
    dite (Bool-discrete (Text.◌==◌ s t) true) (λ same. yes ((eq_iff s t).0 same))
      (λ differ. no (λ p. differ ((eq_iff s t).1 p)))

abbrev pub str_eq : String → String → Bool
str_eq s t = ite (String-discrete s t) true false

-- `s in xs`
abbrev pub str_mem : String → List String → Bool
str_mem s [] = false
str_mem s (x ∷ xs) = str_eq s x || str_mem s xs

-- The blanks that `str.strip` drops: space, tab to carriage return, and the four separators.
is_blank : ℕ → Bool
is_blank c = c == 32 || (leb 9 c && leb c 13) || (leb 28 c && leb c 31)

lstrip : String → String
unfolding is_blank
lstrip String.[] = String.[]
lstrip (String.◌∷◌ c s) = elim (is_blank (code c)) [ true ↦ lstrip s | false ↦ String.◌∷◌ c s ]

-- A blank in front of a rest that is all blanks goes too.
keep : Char → String → String
unfolding is_blank
keep c String.[] = if is_blank (code c) then "" else String.◌∷◌ c ""
keep c s = String.◌∷◌ c s

rstrip : String → String
unfolding keep
rstrip String.[] = String.[]
rstrip (String.◌∷◌ c s) = keep c (rstrip s)

-- `s.strip()`
unfoldable pub strip : String → String
unfolding lstrip rstrip
strip s = rstrip (lstrip s)

-- The letters, as pairs of a capital and its small form.
abbrev letters : List (Char × Char)
letters =
    ("A", "a")
    ∷ ("B", "b")
    ∷ ("C", "c")
    ∷ ("D", "d")
    ∷ ("E", "e")
    ∷ ("F", "f")
    ∷ ("G", "g")
    ∷ ("H", "h")
    ∷ ("I", "i")
    ∷ ("J", "j")
    ∷ ("K", "k")
    ∷ ("L", "l")
    ∷ ("M", "m")
    ∷ ("N", "n")
    ∷ ("O", "o")
    ∷ ("P", "p")
    ∷ ("Q", "q")
    ∷ ("R", "r")
    ∷ ("S", "s")
    ∷ ("T", "t")
    ∷ ("U", "u")
    ∷ ("V", "v")
    ∷ ("W", "w")
    ∷ ("X", "x")
    ∷ ("Y", "y")
    ∷ ("Z", "z")
    ∷ []

lower_char : List (Char × Char) → Char → Char
lower_char [] c = c
lower_char ((big, small) ∷ ls) c = if code c == code big then small else lower_char ls c

upper_char : List (Char × Char) → Char → Char
upper_char [] c = c
upper_char ((big, small) ∷ ls) c = if code c == code small then big else upper_char ls c

-- `s.lower()` and `s.upper()`
unfoldable pub lower : String → String
unfolding lower_char
lower String.[] = String.[]
lower (String.◌∷◌ c s) = String.◌∷◌ (lower_char letters c) (lower s)

unfoldable pub upper : String → String
unfolding upper_char
upper String.[] = String.[]
upper (String.◌∷◌ c s) = String.◌∷◌ (upper_char letters c) (upper s)

lower-strip_example : lower (strip "  NY Pm ") ≡ "ny pm"
unfolding lower strip
lower-strip_example = refl

abbrev digit_chars : List String
digit_chars = "0" ∷ "1" ∷ "2" ∷ "3" ∷ "4" ∷ "5" ∷ "6" ∷ "7" ∷ "8" ∷ "9" ∷ []

digit : List String → ℕ → String
digit [] n = ""
digit (d ∷ ds) zero = d
digit (d ∷ ds) (suc n) = digit ds n

-- The decimal digits, the last ones first, in front of `rest`.
show_from : ℕ → ℕ → String → String
unfolding digit
show_from zero n rest = rest
show_from (suc fuel) n rest =
    let rest' = append (digit digit_chars (n % 10)) rest in
    let more = show_from fuel (n / 10) rest' in if ltb n 10 then rest' else more

-- `str(n)`: a number has fewer digits than `n + 1`.
unfoldable pub show : ℕ → String
unfolding show_from
show n = show_from (suc n) n ""

show_example : show 1907 ≡ "1907"
unfolding show
show_example = refl

-- `s[n:]`
unfoldable pub drop_chars : ℕ → String → String
drop_chars zero s = s
drop_chars (suc n) String.[] = String.[]
drop_chars (suc n) (String.◌∷◌ c s) = drop_chars n s

-- The codes of a text's characters.
abbrev pub codes : String → List ℕ
codes String.[] = []
codes (String.◌∷◌ c s) = code c ∷ codes s
