-- ===== src/Cli/Commands.antt =====
-- The requests of the commands (cmd/kubectl-fchaos/main.go): what is sent to the API server and what
-- the command answers, and the rows that `status` and `list` print.
use flink_chaos_operator.Prelude.{
  pos, String, Bool, true, false, Option, none, some, List, [], ◌∷◌, ◌++◌, ◌&◌, if◌then◌else◌,
  decimal, length, is_empty, ltb_ℤ, quotient, quoted,
}
use flink_chaos_operator.Api.Types.{Time, Duration, TargetSummary, TargetSpec, ChaosRun}
use flink_chaos_operator.Api.Texts.{target_text, scenario_text, phase_text, verdict_text}
use flink_chaos_operator.Interfaces.{Error, Result, ok, err}

pub data Request : Type 0 where
  create : ChaosRun → Request
  patch : ChaosRun → ChaosRun → Request

-- The API server as the client answers for it, and whether the client can be built.
pub record Kube : Type 0 where
  pub build_client : Option Error
  pub create : ChaosRun → Option Error
  pub get : String → String → Result ChaosRun
  pub patch : ChaosRun → ChaosRun → Option Error
  pub list : String → Result (List ChaosRun)

-- The requests sent, and the message or the error.
pub record Outcome : Type 0 where
  pub sent : List Request
  pub answer : Result String

abbrev pub fails_with : Error → Outcome
fails_with e = record { sent = []; answer = err e }

abbrev pub abort_requested : ChaosRun → ChaosRun
abort_requested run = record run { spec = record (run.spec) { control = record { abort = true } } }

module _ (kube : Kube) where
  abbrev pub report_created : ChaosRun → Option Error → Outcome
  report_created run none = record {
    sent = Request.create run ∷ [];
    answer = ok ("ChaosRun " & quoted run.name & " created in namespace " & quoted run.namespace);
  }
  report_created run (some e) = record {
    sent = Request.create run ∷ [];
    answer = err ("create ChaosRun: " & e);
  }

  abbrev pub create_with : ChaosRun → Option Error → Outcome
  create_with run none = report_created run (kube.create run)
  create_with run (some e) = fails_with e

  -- The end of the four `run` commands, from the run that they have made.
  unfoldable pub submit : Result ChaosRun → Outcome
  submit (err e) = fails_with e
  submit (ok run) = create_with run kube.build_client

  abbrev pub after_abort : String → ChaosRun → Option Error → Outcome
  after_abort name run none = record {
    sent = Request.patch run (abort_requested run) ∷ [];
    answer = ok ("ChaosRun " & quoted name & " abort requested");
  }
  after_abort name run (some e) = record {
    sent = Request.patch run (abort_requested run) ∷ [];
    answer = err ("patch ChaosRun " & quoted name & ": " & e);
  }

  abbrev pub abort_found : String → Result ChaosRun → Outcome
  abort_found name (ok run) = after_abort name run (kube.patch run (abort_requested run))
  abort_found name (err e) = fails_with ("get ChaosRun " & quoted name & ": " & e)

  abbrev pub stop_with : String → String → Option Error → Outcome
  stop_with namespace name none = abort_found name (kube.get namespace name)
  stop_with namespace name (some e) = fails_with e

  -- `runStop`
  unfoldable pub run_stop : String → String → Outcome
  run_stop namespace name = stop_with namespace name kube.build_client

-- `strings.Join(ss, " ")` in brackets
abbrev pub joined : List String → String
joined [] = ""
joined (s ∷ []) = s
joined (s ∷ t ∷ ts) = s & " " & joined (t ∷ ts)

unfoldable pub format_strings : List String → String
format_strings ss = if is_empty ss then "[]" else "[" & joined ss & "]"

-- `humanAge`: of an age in nanoseconds, where the creation time is known.
unfoldable pub human_age : Option Duration → String
human_age none = "<unknown>"
human_age (some age) =
    let s = quotient age 1000000000 in
    if ltb_ℤ s (pos 60)
    then decimal s & "s"
    else if ltb_ℤ s (pos 3600)
    then decimal (quotient s 60) & "m"
    else decimal (quotient s 3600) & "h"

abbrev pub target_summary_text : TargetSpec → Option TargetSummary → String
target_summary_text t none = target_text t.target_type
target_summary_text t (some s) = s.summary_type & "/" & s.name

abbrev pub bool_text : Bool → String
bool_text true = "true"
bool_text false = "false"

-- A time in RFC 3339 is an argument.
module _ (rfc3339 : Time → String) where
  abbrev pub format_time : Option Time → String
  format_time none = "<none>"
  format_time (some t) = rfc3339 t

  -- The rows that `runStatus` prints.
  unfoldable pub status_rows : ChaosRun → List (String × String)
  unfolding format_strings
  status_rows run =
      ("Name", run.name)
      ∷ ("Namespace", run.namespace)
      ∷ ("Phase", phase_text run.status.phase)
      ∷ ("Verdict", verdict_text run.status.verdict)
      ∷ ("Target", target_summary_text run.spec.target run.status.target_summary)
      ∷ ("Scenario", scenario_text run.spec.scenario.scenario_type)
      ∷ ("Selected", format_strings run.status.selected_pods)
      ∷ ("Injected", format_strings run.status.injected_pods)
      ∷ ("Recovery", bool_text run.status.replacement_observed)
      ∷ ("Started", format_time run.status.started_at)
      ∷ ("Ended", format_time run.status.ended_at)
      ∷ ("Message", run.status.message)
      ∷ ((if is_empty run.status.network_policies
            then []
            else ("NetworkPolicies", format_strings run.status.network_policies) ∷ [])
          ++ (if is_empty run.status.ephemeral_container_injections
              then []
              else (
                "EphemeralContainers",
                decimal (pos (length run.status.ephemeral_container_injections)) & " injected",
              )
                ∷ []))

  -- The columns that `runList` prints of a run; the creation time is given as the age.
  unfoldable pub list_row : Option Duration → ChaosRun → List String
  unfolding human_age
  list_row age run =
      run.name
      ∷ phase_text run.status.phase
      ∷ verdict_text run.status.verdict
      ∷ target_summary_text run.spec.target run.status.target_summary
      ∷ human_age age
      ∷ []
