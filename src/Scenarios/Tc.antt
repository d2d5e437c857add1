-- ===== src/Scenarios/Tc.antt =====
-- The commands of tc(8) and the script of an ephemeral container
-- (internal/netchaos/tc/builder.go), and the arguments of stress-ng
-- (internal/scenario/resourceexhaustion/stress/builder.go).
use flink_chaos_operator.Prelude.{
  ℕ, suc, ◌+◌, ◌/◌, ◌%◌, ℤ, pos, negsuc, String, Bool, true, not, ◌&&◌, ◌||◌, Option, none, some,
  List, [], ◌∷◌, ◌++◌, ◌&◌, if◌then◌else◌, ◌==◌, ltb, leb, ltb_ℤ, magnitude, quotient, str_eq,
  codes, decimal,
}
use flink_chaos_operator.Api.Types.{Duration, ResourceExhaustionMode, ResourceExhaustionSpec}
use flink_chaos_operator.Scenarios.Ephemeral.{TcRule, Command}

-- [a-zA-Z0-9.:/% -]
abbrev pub is_safe_code : ℕ → Bool
is_safe_code c =
    (leb b'a' c && leb c b'z')
    || (leb b'A' c && leb c b'Z')
    || (leb b'0' c && leb c b'9')
    || c == b'.'
    || c == b':'
    || c == b'/'
    || c == b'%'
    || c == b' '
    || c == b'-'

abbrev pub all_safe : List ℕ → Bool
all_safe [] = true
all_safe (c ∷ cs) = is_safe_code c && all_safe cs

-- `validateShellSafe`: whether it answers nil. The empty text is taken too.
unfoldable pub is_shell_safe : String → Bool
is_shell_safe s = all_safe (codes s)

-- `formatDuration`
unfoldable pub format_duration : Duration → String
format_duration d =
    if magnitude d % 1000000000 == 0
    then decimal (quotient d 1000000000) & "s"
    else if magnitude d % 1000000 == 0
    then decimal (quotient d 1000000) & "ms"
    else decimal (quotient d 1000) & "us"

-- `sleepSeconds`
unfoldable pub sleep_seconds : Duration → ℤ
sleep_seconds d = let s = quotient d 1000000000 in if ltb_ℤ s (pos 1) then pos 1 else s

-- The delay of `AddArgs`, and its loss.
abbrev pub delay_args : TcRule → List String
delay_args r =
    if ltb_ℤ (pos 0) r.latency
    then "delay"
      ∷ format_duration r.latency
      ∷ (if ltb_ℤ (pos 0) r.jitter then format_duration r.jitter ∷ [] else [])
    else []

abbrev pub loss_args : TcRule → List String
loss_args r = if ltb_ℤ (pos 0) r.loss_pct then "loss" ∷ (decimal r.loss_pct & "%") ∷ [] else []

-- `AddArgs`
unfoldable pub add_args : TcRule → List String
unfolding format_duration
add_args r =
    if str_eq r.bandwidth ""
    then "tc"
      ∷ "qdisc"
      ∷ "add"
      ∷ "dev"
      ∷ r.interface
      ∷ "root"
      ∷ "netem"
      ∷ (delay_args r ++ loss_args r)
    else "tc" ∷ "qdisc" ∷ "add" ∷ "dev" ∷ r.interface ∷ "root" ∷ "tbf" ∷ "rate" ∷ r.bandwidth
      ∷ "burst" ∷ "32kbit" ∷ "latency" ∷ "400ms" ∷ []

-- `FilterArgs`; nil is the empty list.
unfoldable pub filter_args : TcRule → String → List String
filter_args r handle =
    if str_eq r.peer_cidr ""
    then []
    else "tc" ∷ "filter" ∷ "add" ∷ "dev" ∷ r.interface ∷ "parent" ∷ handle ∷ "protocol" ∷ "ip"
      ∷ "u32" ∷ "match" ∷ "ip" ∷ "dst" ∷ r.peer_cidr ∷ "flowid" ∷ handle ∷ []

-- `DelArgs`
unfoldable pub del_args : String → List String
del_args iface = "tc" ∷ "qdisc" ∷ "del" ∷ "dev" ∷ iface ∷ "root" ∷ []

-- `strings.Join(args, " ")`
unfoldable pub join_args : List String → String
join_args [] = ""
join_args (x ∷ []) = x
join_args (x ∷ y ∷ ys) = x & " " & join_args (y ∷ ys)

-- The lines of the script, each with its end.
abbrev pub lines : List String → String
lines [] = ""
lines (l ∷ ls) = l & "\n" & lines ls

abbrev pub filter_line : TcRule → List String
filter_line r =
    if str_eq r.bandwidth "" && not (str_eq r.peer_cidr "")
    then join_args (filter_args r "1:") ∷ []
    else []

abbrev pub script_lines : TcRule → Duration → List String
script_lines r duration =
    "#!/bin/sh"
    ∷ "set -e"
    ∷ "_cleanup() {"
    ∷ ("  tc qdisc del dev " & r.interface & " root 2>/dev/null || true")
    ∷ "}"
    ∷ "trap '_cleanup' TERM INT"
    ∷ join_args (add_args r)
    ∷ (filter_line r
        ++ ("sleep " & decimal (sleep_seconds duration) & " &")
          ∷ "SLEEP_PID=$!"
          ∷ "wait $SLEEP_PID"
          ∷ "_cleanup"
          ∷ [])

-- `EntrypointScript`: `none` is the panic on a value that is not safe in a shell.
unfoldable pub entrypoint_script : TcRule → Duration → Option String
unfolding is_shell_safe add_args filter_args join_args sleep_seconds
entrypoint_script r duration =
    if is_shell_safe r.interface && is_shell_safe r.bandwidth && is_shell_safe r.peer_cidr
    then some (lines (script_lines r duration))
    else none

-- `fmt.Sprintf("%.0f", d.Seconds())`: to the nearest whole number, and to the even one of two. The
-- seconds are exact enough as a float64 up to about a month.
abbrev pub round_half_even : ℕ → ℕ
round_half_even n =
    let q = n / 1000000000 in
    let r = n % 1000000000 in if ltb r 500000000 || (r == 500000000 && q % 2 == 0) then q else q + 1

abbrev pub rounded_text : Duration → String
rounded_text (pos n) = decimal (pos (round_half_even n))
rounded_text (negsuc n) = "-" & decimal (pos (round_half_even (suc n)))

-- `durationArg`
unfoldable pub duration_arg : Option Duration → String
duration_arg none = "60s"
duration_arg (some d) = rounded_text d & "s"

abbrev pub args_as : ResourceExhaustionMode → ResourceExhaustionSpec → List String
args_as ResourceExhaustionMode.cpu re =
    "stress-ng" ∷ "--cpu" ∷ decimal re.workers ∷ "--timeout" ∷ duration_arg re.duration ∷ []
args_as ResourceExhaustionMode.memory re =
    "stress-ng"
    ∷ "--vm"
    ∷ decimal re.workers
    ∷ "--vm-bytes"
    ∷ (decimal re.memory_percent & "%")
    ∷ "--timeout"
    ∷ duration_arg re.duration
    ∷ []
args_as (ResourceExhaustionMode.other s) re =
    "stress-ng" ∷ "--cpu" ∷ "1" ∷ "--timeout" ∷ duration_arg re.duration ∷ []

-- `Args`
unfoldable pub args : ResourceExhaustionSpec → List String
unfolding duration_arg
args re = args_as re.mode re

abbrev shell_command : Option String → Option (List String)
shell_command none = none
shell_command (some script) = some ("/bin/sh" ∷ "-c" ∷ script ∷ [])

-- The `Command` field of the containers that the two drivers make.
unfoldable pub command_text : Command → Option (List String)
unfolding entrypoint_script args
command_text (Command.tc_script r duration) = shell_command (entrypoint_script r duration)
command_text (Command.stress_args re) = some (args re)
