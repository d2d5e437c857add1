-- ===== src/Resolvers/Modes.antt =====
-- Which execution targets are of session mode (isSessionMode of
-- internal/resolver/flinkdeployment/resolver.go).
use flink_chaos_operator.Prelude.{
  ℕ, ◌+◌, ◌≤◌, String, ◌≡◌, refl, sym, ap, subst, ◌↔◌, ◌⊎◌, inl, inr, Bool, true, false, ◌||◌,
  Bool-cases, Option, none, some, List, [], ◌∷◌, ◌++◌, arith, All, codes, ◌==◌,
}
use flink_chaos_operator.Resolvers.Deployment.{lower, starts_with, contains, is_session_mode}

-- A character is a given small letter, or is turned into it: its capital, the capital I with a dot
-- or the Kelvin sign.
abbrev pub IsLetterOf : ℕ → ℕ → Type 0
IsLetterOf p c = (c ≡ p) ⊎ (c + 32 ≡ p) ⊎ ((c ≡ 304) × (p ≡ b'i')) ⊎ ((c ≡ 8490) × (p ≡ b'k'))

-- A part that spells a word, letter by letter.
abbrev pub IsSpelled : List ℕ → List ℕ → Type 0
IsSpelled [] [] = Unit
IsSpelled (p ∷ ps) (c ∷ cs) = IsLetterOf p c × IsSpelled ps cs
IsSpelled _ _ = ⊥

-- A text with a part that spells the word.
abbrev pub Mentions : List ℕ → List ℕ → Type 0
Mentions word cs =
    (before part after : List ℕ) × (cs ≡ before ++ part ++ after) × IsSpelled word part

-- The deployment names an execution target, and that mentions sessions.
abbrev pub IsSession : Option String → Type 0
IsSession none = ⊥
IsSession (some exec_target) = Mentions (codes "session") (codes exec_target)

abbrev IsSmall : ℕ → Type 0
IsSmall p = (b'a' ≤ p) × (p ≤ b'z')

letter_iff : (p c : ℕ) → IsSmall p → ((p == lower c) ≡ true) ↔ IsLetterOf p c
letter_iff p c small = ((λ h. ground arith), (λ h. ground arith))

starts_with_iff :
    (word cs : List ℕ)
    → All IsSmall word
    → (starts_with word cs ≡ true)
      ↔ ((part after : List ℕ) × (cs ≡ part ++ after) × IsSpelled word part)
starts_with_iff [] cs small = ((λ h. ([], cs, refl, tt)), (λ h. refl))
starts_with_iff (p ∷ ps) [] small =
    ((λ h. absurd (ground arith)), (λ h. let (part, after, e, s) = h in no_part part after e s))
  where
    no_part :
        (part after : List ℕ)
        → [] ≡ part ++ after
        → IsSpelled (p ∷ ps) part
        → starts_with (p ∷ ps) [] ≡ true
    no_part [] after e s = absurd s
    no_part (c ∷ part) after e s = absurd (ground arith)
starts_with_iff (p ∷ ps) (c ∷ cs) small =
    let (letter, of_letter) = letter_iff p c small.0 in
    let (to, back) = starts_with_iff ps cs small.1 in
    (
      λ h.
          let (part, after, e, s) = to (ground arith) in
          (c ∷ part, after, ap (λ r. c ∷ r) e, (letter (ground arith), s)),
      λ h. let (part, after, e, s) = h in spelled part after e s of_letter back,
    )
  where
    spelled :
        (part after : List ℕ)
        → c ∷ cs ≡ part ++ after
        → IsSpelled (p ∷ ps) part
        → (IsLetterOf p c → (p == lower c) ≡ true)
        → ((part after : List ℕ) × (cs ≡ part ++ after) × IsSpelled ps part
            → starts_with ps cs ≡ true)
        → starts_with (p ∷ ps) (c ∷ cs) ≡ true
    spelled [] after e s of_letter back = absurd s
    spelled (d ∷ part) after e s of_letter back =
        let same : c ≡ d = ground arith in
        let rest = back (part, after, ground arith, s.1) in
        let first = of_letter (subst (IsLetterOf p) (sym same) s.0) in ground (arith, rest, first)

or_true : (b : Bool) → b || true ≡ true
or_true true = refl
or_true false = refl

contains_iff : (word cs : List ℕ) → All IsSmall word → (contains word cs ≡ true) ↔ Mentions word cs
contains_iff word [] small =
    let (to, back) = starts_with_iff word [] small in
    (
      (λ h. let (part, after, e, s) = to h in ([], part, after, e, s)),
      (λ h. let (before, part, after, e, s) = h in back (at_start before part after e s)),
    )
  where
    at_start :
        (before part after : List ℕ)
        → [] ≡ before ++ part ++ after
        → IsSpelled word part
        → (part after : List ℕ) × ([] ≡ part ++ after) × IsSpelled word part
    at_start [] part after e s = (part, after, e, s)
    at_start (c ∷ before) part after e s = absurd (ground arith)
contains_iff word (c ∷ cs) small =
    let (to, back) = starts_with_iff word (c ∷ cs) small in
    let (later, of_later) = contains_iff word cs small in
    (
      λ h. elim (Bool-cases (starts_with word (c ∷ cs))) [
        | inl here ↦ let (part, after, e, s) = to here in ([], part, after, e, s)
        | inr there ↦
            let (before, part, after, e, s) = later (ground arith) in
            (c ∷ before, part, after, ap (λ r. c ∷ r) e, s)
      ],
      λ h. let (before, part, after, e, s) = h in found before part after e s back of_later,
    )
  where
    found :
        (before part after : List ℕ)
        → c ∷ cs ≡ before ++ part ++ after
        → IsSpelled word part
        → ((part after : List ℕ) × (c ∷ cs ≡ part ++ after) × IsSpelled word part
            → starts_with word (c ∷ cs) ≡ true)
        → (Mentions word cs → contains word cs ≡ true)
        → contains word (c ∷ cs) ≡ true
    found [] part after e s back of_later =
        let here = back (part, after, e, s) in ground (arith, here)
    found (d ∷ before) part after e s back of_later =
        let there = of_later (before, part, after, ground arith, s) in
        rw there (or_true (starts_with word (c ∷ cs)))

pub is_session_mode_iff :
    (exec_target : Option String) → (is_session_mode exec_target ≡ true) ↔ IsSession exec_target
unfolding is_session_mode
is_session_mode_iff none = ((λ h. absurd (ground arith)), (λ h. absurd h))
is_session_mode_iff (some exec_target) =
    contains_iff (codes "session") (codes exec_target) (ground arith)
