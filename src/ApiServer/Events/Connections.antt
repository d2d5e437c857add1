-- ===== src/ApiServer/Events/Connections.antt =====
-- The bound on the streams that are open at once (internal/apiserver/handlers_sse.go): requests that
-- come, are refused and end in any order, each by its atomic steps on the counter.
use flink_chaos_operator.Prelude.{ℕ, ◌+◌, ◌-◌, ◌≤◌, ◌<◌, ◌≡◌, Bool, true, false, not, ltb, arith}

abbrev pub sse_max_connections : ℕ
sse_max_connections = 50

-- `sseActiveConnections`, with the handlers that stream, and those that have found too many and have
-- yet to take themselves off the counter again.
pub record Connections : Type 0 where
  pub active : ℕ
  pub streaming : ℕ
  pub refusing : ℕ

-- `sseActiveConnections.Add(1) > sseMaxConnections`: the counter after it, and whether the handler
-- goes on.
unfoldable pub enter : ℕ → ℕ × Bool
enter active = (active + 1, not (ltb sse_max_connections (active + 1)))

-- `sseActiveConnections.Add(-1)`
unfoldable pub leave : ℕ → ℕ
leave active = active - 1

-- One atomic step of some handler.
pub data Move : Connections → Connections → Type 0 where
  admit :
      (c : Connections)
      → (enter c.active).1 ≡ true
      → Move c (record c { active = (enter c.active).0; streaming = c.streaming + 1 })
  refuse :
      (c : Connections)
      → (enter c.active).1 ≡ false
      → Move c (record c { active = (enter c.active).0; refusing = c.refusing + 1 })
  step_back :
      (c : Connections)
      → 0 < c.refusing
      → Move c (record c { active = leave c.active; refusing = c.refusing - 1 })
  finish :
      (c : Connections)
      → 0 < c.streaming
      → Move c (record c { active = leave c.active; streaming = c.streaming - 1 })

abbrev pub idle : Connections
idle = record { active = 0; streaming = 0; refusing = 0 }

pub data Reaches : Connections → Type 0 where
  start : Reaches idle
  later : {c d : Connections} → Reaches c → Move c d → Reaches d

pub record IsBounded (c : Connections) : Type 0 where
  pub counted : c.active ≡ c.streaming + c.refusing
  pub bounded : c.streaming ≤ sse_max_connections

Move-IsBounded : {c d : Connections} → Move c d → IsBounded c → IsBounded d
unfolding enter leave
Move-IsBounded (admit c h) b = ground arith
Move-IsBounded (refuse c h) b = ground arith
Move-IsBounded (step_back c h) b = ground arith
Move-IsBounded (finish c h) b = ground arith

Reaches-IsBounded : {c : Connections} → Reaches c → IsBounded c
Reaches-IsBounded start = omega arith
Reaches-IsBounded (later r m) = Move-IsBounded m (Reaches-IsBounded r)

-- In whatever order the handlers take their steps, no more than fifty stream at once, the counter
-- counts just those and the ones being refused, and a request is let in exactly if these are fewer
-- than fifty.
pub Reaches-bounded :
    {c : Connections}
    → Reaches c
    → (c.streaming ≤ sse_max_connections)
      × (c.active ≡ c.streaming + c.refusing)
      × ((enter c.active).1 ≡ ltb (c.streaming + c.refusing) sse_max_connections)
unfolding enter
Reaches-bounded r = let b = Reaches-IsBounded r in (b.bounded, b.counted, ground (arith, b.counted))
