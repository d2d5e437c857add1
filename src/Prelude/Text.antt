-- ===== src/Prelude/Text.antt =====
-- Text: Go's strings, maps with text keys as association lists, and decimal numbers.
use Prim.Native.Nat.{ℕ, zero, suc, ◌/◌, ◌%◌}
use Prim.Native.Char.{code}
use Prim.Native.String
use Prim.Native.String.{String}
use mathlib.Core.Path.{◌≡◌, refl}
use mathlib.Core.Bool.{Bool, true, false}
use mathlib.Core.Option.{Option, none, some}
use mathlib.Core.List.{List, [], ◌∷◌}
use text.Mathlib.Text.{◌==◌ as str_eq_lib}
use text.Mathlib.TextEquality.{eq_iff}
use flink_chaos_operator.Prelude.Tests.{ltb, if◌then◌else◌}
use flink_chaos_operator.Prelude.Int.{ℤ, pos, negsuc}

abbrev pub str_eq : String → String → Bool
str_eq = str_eq_lib

pub str_eq_refl : (s : String) → str_eq s s ≡ true
str_eq_refl s = (eq_iff s s).1 refl

pub str_eq_sound : (s t : String) → str_eq s t ≡ true → s ≡ t
str_eq_sound s t = (eq_iff s t).0

infixr 65 ◌&◌
-- Concatenation of texts.
abbrev pub ◌&◌ : String → String → String
a & b = String.◌++◌ a b

-- `%q` of a text without characters to escape.
abbrev pub quoted : String → String
quoted s = "\"" & s & "\""

abbrev pub codes : String → List ℕ
codes String.[] = []
codes (String.◌∷◌ c s) = code c ∷ codes s

-- `strings.TrimSuffix`: what stands before the suffix, if the text ends with it.
unfoldable pub trim_suffix : String → String → String
trim_suffix String.[] suffix = ""
trim_suffix (String.◌∷◌ c s) suffix =
    let rest = trim_suffix s suffix in
    if str_eq (String.◌∷◌ c s) suffix then "" else String.◌∷◌ c rest

-- `v, ok := m[key]`
unfoldable pub lookup {ℓ} : {V : Type ℓ} → String → List (String × V) → Option V
lookup key [] = none
lookup key ((k, v) ∷ m) = if str_eq k key then some v else lookup key m

-- `m[key]` of a map to texts: the empty text for a missing key.
unfoldable pub index : String → List (String × String) → String
unfolding lookup
index key m = elim (lookup key m) [ none ↦ "" | some v ↦ v ]

-- Whether a text is in a list, as a set of names is asked.
unfoldable pub member : String → List String → Bool
member s [] = false
member s (x ∷ xs) = if str_eq x s then true else member s xs

abbrev pub digit : ℕ → String
digit zero = "0"
digit (suc zero) = "1"
digit (suc (suc zero)) = "2"
digit (suc (suc (suc zero))) = "3"
digit (suc (suc (suc (suc zero)))) = "4"
digit (suc (suc (suc (suc (suc zero))))) = "5"
digit (suc (suc (suc (suc (suc (suc zero)))))) = "6"
digit (suc (suc (suc (suc (suc (suc (suc zero))))))) = "7"
digit (suc (suc (suc (suc (suc (suc (suc (suc zero)))))))) = "8"
digit _ = "9"

-- The decimal text of a number; the number itself is fuel enough, since each round divides by ten.
unfoldable pub decimal_from : ℕ → ℕ → String
decimal_from zero n = ""
decimal_from (suc fuel) n =
    let more = decimal_from fuel (n / 10) & digit (n % 10) in if ltb n 10 then digit n else more

-- `fmt.Sprintf("%d", n)`
unfoldable pub decimal : ℤ → String
unfolding decimal_from
decimal (pos n) = decimal_from (suc n) n
decimal (negsuc n) = "-" & decimal_from (suc (suc n)) (suc n)

decimal_test : decimal (negsuc 2039) ≡ "-2040"
unfolding decimal
decimal_test = refl
