-- ===== src/Cli/Flags.antt =====
-- The checks and the canonical spelling of flag values (cmd/kubectl-fchaos/validate.go).
use flink_chaos_operator.Prelude.{
  ℕ, ◌+◌, String, Bool, true, false, ◌&&◌, Option, none, some, List, [], ◌∷◌, ◌&◌, if◌then◌else◌,
  leb, ◌==◌, codes, quoted,
}
use flink_chaos_operator.Api.Types.{ResourceExhaustionMode}
use flink_chaos_operator.Api.Texts.{to_exhaustion_mode}
use flink_chaos_operator.Interfaces.{Error}

-- Simple folding, as far as it leads to ASCII: capital letters, the Kelvin sign and the long s.
abbrev pub fold_code : ℕ → ℕ
fold_code c =
    if leb b'A' c && leb c b'Z'
    then c + 32
    else if c == 0x212a
    then b'k'
    else if c == 0x17f
    then b's'
    else c

abbrev pub codes_equal_fold : List ℕ → List ℕ → Bool
codes_equal_fold [] [] = true
codes_equal_fold (x ∷ xs) (y ∷ ys) = fold_code x == fold_code y && codes_equal_fold xs ys
codes_equal_fold _ _ = false

-- `strings.EqualFold`, where one of the texts is ASCII.
unfoldable pub equal_fold : String → String → Bool
equal_fold s t = codes_equal_fold (codes s) (codes t)

abbrev pub valid_network_targets : List String
valid_network_targets = "TMtoTM" ∷ "TMtoJM" ∷ "TMtoCheckpoint" ∷ "TMtoExternal" ∷ []

abbrev pub valid_network_directions : List String
valid_network_directions = "Ingress" ∷ "Egress" ∷ "Both" ∷ []

-- The loop of the two validations: nil where one of the values is the text.
unfoldable pub is_one_of : String → List String → Bool
is_one_of s [] = false
is_one_of s (v ∷ vs) = let rest = is_one_of s vs in if equal_fold s v then true else rest

unfoldable pub validate_network_target : String → Option Error
unfolding is_one_of
validate_network_target s =
    if is_one_of s valid_network_targets
    then none
    else some (
        "invalid --network-target "
        & quoted s
        & "; valid values: TMtoTM, TMtoJM, TMtoCheckpoint, TMtoExternal")

unfoldable pub validate_network_direction : String → Option Error
unfolding is_one_of
validate_network_direction s =
    if is_one_of s valid_network_directions
    then none
    else some ("invalid --direction " & quoted s & "; valid values: Ingress, Egress, Both")

-- The loop of the two normalisations.
unfoldable pub canonical : String → List String → String
canonical s [] = s
canonical s (v ∷ vs) = let rest = canonical s vs in if equal_fold s v then v else rest

unfoldable pub normalise_network_target : String → String
unfolding canonical
normalise_network_target s = canonical s valid_network_targets

unfoldable pub normalise_network_direction : String → String
unfolding canonical
normalise_network_direction s = canonical s valid_network_directions

abbrev pub check_mode : ResourceExhaustionMode → Option Error
check_mode ResourceExhaustionMode.cpu = none
check_mode ResourceExhaustionMode.memory = none
check_mode (ResourceExhaustionMode.other s) =
    some ("resourceExhaustion mode " & quoted s & " is not supported; must be CPU or Memory")

unfoldable pub validate_resource_exhaustion_mode : String → Option Error
unfolding to_exhaustion_mode
validate_resource_exhaustion_mode mode = check_mode (to_exhaustion_mode mode)
