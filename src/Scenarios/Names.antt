-- ===== src/Scenarios/Names.antt =====
-- The length of the names of ephemeral containers (internal/ephemeral/ephemeral.go).
use text.Mathlib.TextLemmas.{nil-append, cons-append}
use flink_chaos_operator.Prelude.{
  ℕ, zero, suc, ◌+◌, ◌-◌, ◌≤◌, pos, String, ◌≡◌, ◌&◌, arith, ltb, decimal, Bool-cases, inl, inr,
}
use flink_chaos_operator.Scenarios.Ephemeral.{take_text, text_length, cut, container_name}

length-take_text : (n : ℕ) (s : String) → text_length (take_text n s) ≤ n
unfolding take_text text_length
length-take_text zero s = omega arith
length-take_text (suc n) String.[] = omega arith
length-take_text (suc n) (String.◌∷◌ c s) = let h = length-take_text n s in omega (arith, h)

length-cut : (n : ℕ) (s : String) → text_length (cut n s) ≤ n
length-cut n s = elim (Bool-cases (ltb n (text_length s))) [
  | inl h ↦ rw h (length-take_text n s)
  | inr h ↦ rw h (ground arith)
]

cut_short : (n : ℕ) (s : String) → text_length s ≤ n → cut n s ≡ s
cut_short n s h = ground arith

length-append_text : (s t : String) → text_length (s & t) ≡ text_length s + text_length t
unfolding text_length
length-append_text String.[] t = rw (nil-append t) (omega arith)
length-append_text (String.◌∷◌ c s) t =
    let h = length-append_text s t in rw (cons-append c s t) (omega (arith, h))

abbrev pub suffix_of : ℕ → String
suffix_of index = "-" & decimal (pos index)

-- Where prefix and suffix leave room in 63 characters, the name of an ephemeral container has at
-- most 63 characters and is the prefix, the run's name cut to 20 characters and to the room, and
-- the whole suffix, so that the index of the pod is never cut off.
pub container_name_lem :
    (prefix run_name : String) (index : ℕ)
    → text_length prefix + text_length (suffix_of index) ≤ 63
    → (text_length (container_name prefix run_name index) ≤ 63)
      × (container_name prefix run_name index
          ≡ prefix
            & cut (63 - text_length prefix - text_length (suffix_of index)) (cut 20 run_name)
            & suffix_of index)
unfolding container_name
container_name_lem prefix run_name index fits =
    let room = 63 - text_length prefix - text_length (suffix_of index) in
    let middle = cut room (cut 20 run_name) in
    let inner = length-append_text middle (suffix_of index) in
    let whole = length-append_text prefix (middle & suffix_of index) in
    let short = length-cut room (cut 20 run_name) in
    (
      length-cut 63 (prefix & middle & suffix_of index),
      cut_short 63 (prefix & middle & suffix_of index) (omega (arith, inner, whole, short, fits)),
    )
