-- ===== src/ApiServer/Http.antt =====
-- What the handlers of internal/apiserver have in common: answers (respond.go), the API server that
-- they call, and the names of resources that they take (validK8sName of handlers_chaos_write.go).
use flink_chaos_operator.Prelude.{
  ℕ, String, Bool, false, ◌&&◌, ◌||◌, Option, List, [], ◌∷◌, leb, ◌==◌, length, codes,
}
use flink_chaos_operator.Api.Types.{ChaosRun}
use flink_chaos_operator.Interfaces.{Error, Result}
use flink_chaos_operator.Controller.World.{Fetch}

-- `writeError`, `writeJSON` with a value, and a status without a body.
pub data HttpResponse (A : Type 0) : Type 0 where
  error : ℕ → String → HttpResponse A
  json : ℕ → A → HttpResponse A
  status_only : ℕ → HttpResponse A

pub data Write : Type 0 where
  created updated deleted : ChaosRun → Write

-- The client of the API server; a creation answers with the object, named by the server.
pub record Kube : Type 0 where
  pub create : ChaosRun → Result ChaosRun
  pub get : String → String → Fetch
  pub update : ChaosRun → Option Error
  pub delete : ChaosRun → Option Error
  pub list : String → Result (List ChaosRun)

-- The writes that a handler asks for, and its answer.
abbrev pub Handled : Type 0 → Type 0
Handled A = List Write × HttpResponse A

abbrev pub is_alphanumeric : ℕ → Bool
is_alphanumeric c = (leb b'a' c && leb c b'z') || (leb b'0' c && leb c b'9')

-- [a-z0-9\-]*[a-z0-9]$
unfoldable pub ends_as_name : List ℕ → Bool
ends_as_name [] = false
ends_as_name (c ∷ []) = is_alphanumeric c
ends_as_name (c ∷ d ∷ ds) = (is_alphanumeric c || c == b'-') && ends_as_name (d ∷ ds)

abbrev pub name_matches : List ℕ → Bool
name_matches [] = false
name_matches (c ∷ cs) = is_alphanumeric c && ends_as_name (c ∷ cs) && leb (length (c ∷ cs)) 253

-- `validK8sName.MatchString`
unfoldable pub is_valid_k8s_name : String → Bool
unfolding ends_as_name
is_valid_k8s_name s = name_matches (codes s)
