-- ===== src/Api/Bandwidth.antt =====
-- The bandwidth rates that validation takes: the regular expression `bandwidthRe` of
-- api/v1alpha1/chaosrun_validation.go, (?i)^[1-9][0-9]*(kbit|mbit|gbit|tbit)$, over code points.
use mathlib.Core.Bool.{and-eq-true_iff}
use flink_chaos_operator.Prelude.{
  ℕ, ◌+◌, ◌≤◌, ◌≡◌, refl, ◌↔◌, ◌⊎◌, Bool, true, false, ◌&&◌, ◌||◌, List, [], ◌∷◌, ◌++◌, String,
  ◌==◌, leb, codes, if◌then◌else◌, All, arith, Bool-cases, inl, inr, ap,
}

-- A letter without regard to case; Go's case folding also takes the Kelvin sign for a k.
folds_to : ℕ → ℕ → Bool
folds_to letter c = c == letter || (c + 32) == letter || (letter == b'k' && c == 0x212a)

abbrev is_digit : ℕ → Bool
is_digit c = leb b'0' c && leb c b'9'

-- (kbit|mbit|gbit|tbit)$
is_unit : List ℕ → Bool
is_unit (p ∷ b ∷ i ∷ t ∷ []) =
    (folds_to b'k' p || folds_to b'm' p || folds_to b'g' p || folds_to b't' p)
    && folds_to b'b' b
    && folds_to b'i' i
    && folds_to b't' t
is_unit _ = false

-- [0-9]*(kbit|mbit|gbit|tbit)$: a unit begins with no digit, so the digits are taken greedily.
rest_matches : List ℕ → Bool
rest_matches [] = false
rest_matches (c ∷ cs) =
    let later = rest_matches cs in if is_digit c then later else is_unit (c ∷ cs)

codes_match : List ℕ → Bool
codes_match [] = false
codes_match (c ∷ cs) = leb b'1' c && leb c b'9' && rest_matches cs

unfoldable pub bandwidth_matches : String → Bool
unfolding codes_match rest_matches is_unit folds_to
bandwidth_matches s = codes_match (codes s)

-- What the expression describes, said without it: a digit that is not 0, then digits, then the
-- four letters of a unit in either case.
abbrev pub IsDigit : ℕ → Type 0
IsDigit c = (b'0' ≤ c) × (c ≤ b'9')

abbrev pub IsLetter : ℕ → ℕ → Type 0
IsLetter l c = (c ≡ l) ⊎ (c + 32 ≡ l) ⊎ ((l ≡ b'k') × (c ≡ 0x212a))

pub data IsUnit : List ℕ → Type 0 where
  unit :
      {l p b i t : ℕ}
      → (l ≡ b'k') ⊎ (l ≡ b'm') ⊎ (l ≡ b'g') ⊎ (l ≡ b't')
      → IsLetter l p
      → IsLetter b'b' b
      → IsLetter b'i' i
      → IsLetter b't' t
      → IsUnit (p ∷ b ∷ i ∷ t ∷ [])

abbrev pub IsRest : List ℕ → Type 0
IsRest cs = (ds : List ℕ) × (u : List ℕ) × All IsDigit ds × IsUnit u × (cs ≡ ds ++ u)

abbrev pub IsRate : List ℕ → Type 0
IsRate cs = (c : ℕ) × (rest : List ℕ) × (b'1' ≤ c) × (c ≤ b'9') × IsRest rest × (cs ≡ c ∷ rest)

folds_to_sound : (l c : ℕ) → folds_to l c ≡ true → IsLetter l c
unfolding folds_to
folds_to_sound l c h = ground arith

folds_to_complete : {l c : ℕ} → IsLetter l c → folds_to l c ≡ true
unfolding folds_to
folds_to_complete h = ground arith

or_split : (a b : Bool) → (a || b) ≡ true → (a ≡ true) ⊎ (b ≡ true)
or_split true b h = inl refl
or_split false b h = inr h

-- One of the four first letters.
unit_prefix :
    (p : ℕ)
    → (folds_to b'k' p || folds_to b'm' p || folds_to b'g' p || folds_to b't' p) ≡ true
    → (l : ℕ) × ((l ≡ b'k') ⊎ (l ≡ b'm') ⊎ (l ≡ b'g') ⊎ (l ≡ b't')) × IsLetter l p
unit_prefix p h = elim (or_split _ _ h) [
  | inl kmg ↦ elim (or_split _ _ kmg) [
    | inl km ↦ elim (or_split _ _ km) [
      | inl k ↦ (b'k', inl refl, folds_to_sound _ _ k)
      | inr m ↦ (b'm', inr (inl refl), folds_to_sound _ _ m)
    ]
    | inr g ↦ (b'g', inr (inr (inl refl)), folds_to_sound _ _ g)
  ]
  | inr t ↦ (b't', inr (inr (inr refl)), folds_to_sound _ _ t)
]

is_unit_sound : (cs : List ℕ) → is_unit cs ≡ true → IsUnit cs
unfolding is_unit
is_unit_sound (p ∷ b ∷ i ∷ t ∷ []) h =
    let (three, is_t) = (and-eq-true_iff _ _).0 h in
    let (two, is_i) = (and-eq-true_iff _ _).0 three in
    let (one, is_b) = (and-eq-true_iff _ _).0 two in
    let (l, letter, is_l) = unit_prefix p one in
    unit letter is_l (folds_to_sound _ _ is_b) (folds_to_sound _ _ is_i) (folds_to_sound _ _ is_t)
is_unit_sound _ h = cc

is_unit_complete : {cs : List ℕ} → IsUnit cs → is_unit cs ≡ true
unfolding is_unit
is_unit_complete (unit one p b i t) =
    ground
      (arith, folds_to_complete p, folds_to_complete b, folds_to_complete i, folds_to_complete t)

IsRest-sound : (cs : List ℕ) → rest_matches cs ≡ true → IsRest cs
unfolding rest_matches
IsRest-sound [] h = cc
IsRest-sound (c ∷ cs) h = elim (Bool-cases (is_digit c)) [
  | inl d ↦
      let (ds, u, digits, is_u, e) = IsRest-sound cs (ground arith) in
      (c ∷ ds, u, (ground arith, digits), is_u, ap (λ r. c ∷ r) e)
  | inr o ↦ ([], c ∷ cs, tt, is_unit_sound (c ∷ cs) (ground arith), refl)
]

-- A unit begins with no digit.
rest-IsUnit : {u : List ℕ} → IsUnit u → rest_matches u ≡ true
unfolding rest_matches
rest-IsUnit (unit one p b i t) = ground (arith, is_unit_complete (unit one p b i t))

IsRest-complete : (ds u : List ℕ) → All IsDigit ds → IsUnit u → rest_matches (ds ++ u) ≡ true
unfolding rest_matches
IsRest-complete [] u digits is_u = rest-IsUnit is_u
IsRest-complete (d ∷ ds) u (digit, digits) is_u = ground (arith, IsRest-complete ds u digits is_u)

IsRate-sound : (cs : List ℕ) → codes_match cs ≡ true → IsRate cs
unfolding codes_match
IsRate-sound [] h = cc
IsRate-sound (c ∷ cs) h = (c, cs, ground arith, ground arith, IsRest-sound cs (ground arith), refl)

IsRate-complete : (cs : List ℕ) → IsRate cs → codes_match cs ≡ true
unfolding codes_match
IsRate-complete cs (c, rest, lo, hi, (ds, u, digits, is_u, e), split) =
    rw (split, e) (ground (arith, IsRest-complete ds u digits is_u))

-- A bandwidth is taken exactly when it is a digit other than 0, then digits, then one of the
-- units kbit, mbit, gbit and tbit in either case.
pub bandwidth_matches_iff : (s : String) → (bandwidth_matches s ≡ true) ↔ IsRate (codes s)
unfolding bandwidth_matches
bandwidth_matches_iff s = (IsRate-sound (codes s), IsRate-complete (codes s))
