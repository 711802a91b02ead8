-- ===== src/Api/RateLimit.antt =====
-- crates/rcx-registry-api/src/lib.rs: `RateLimiter`, a fixed window for each client. The counter has 32
-- bits and the times have 64.
pub mod Window
use rcx_registry.Prelude.{
  ℕ, ◌+◌, ◌-◌, ◌^◌, Bool, true, false, Option, none, some, List, [], ◌∷◌, Bytes, bytes_eq, ltb, leb,
  if◌then◌else◌,
}
use rcx_registry.Prelude.Outcome.{ok, err}
use rcx_registry.Api.Errors.{Api, too_many_requests, store}

abbrev pub default_mutation_rate_window_ms : ℕ
default_mutation_rate_window_ms = 60_000

abbrev pub default_mutation_rate_max : ℕ
default_mutation_rate_max = 20

pub record RateWindow : Type 0 where
  pub started_at_ms : ℕ
  pub count : ℕ

pub record RateLimiter : Type 0 where
  pub window_ms : ℕ
  pub max : ℕ
  pub windows : List (Bytes × RateWindow)
  pub poisoned : Bool

unfoldable pub new : ℕ → ℕ → RateLimiter
new window_ms max = record { window_ms = window_ms; max = max; windows = []; poisoned = false }

-- `BTreeMap::retain`, of the windows that have not elapsed
unfoldable pub retain_windows : ℕ → ℕ → List (Bytes × RateWindow) → List (Bytes × RateWindow)
retain_windows window_ms now [] = []
retain_windows window_ms now ((client, w) ∷ ws) =
    let rest = retain_windows window_ms now ws in
    if ltb (now - w.started_at_ms) window_ms then (client, w) ∷ rest else rest

unfoldable pub get_window : Bytes → List (Bytes × RateWindow) → Option RateWindow
get_window client [] = none
get_window client ((k, w) ∷ ws) = if bytes_eq k client then some w else get_window client ws

-- a write through the entry of a client
unfoldable pub set_window :
    Bytes → RateWindow → List (Bytes × RateWindow) → List (Bytes × RateWindow)
set_window client w [] = (client, w) ∷ []
set_window client w ((k, v) ∷ ws) =
    let rest = set_window client w ws in if bytes_eq k client then (k, w) ∷ ws else (k, v) ∷ rest

-- `entry(client).or_insert(…)`
abbrev pub or_new_window : ℕ → Option RateWindow → RateWindow
or_new_window now none = record { started_at_ms = now; count = 0 }
or_new_window now (some w) = w

-- a window that has elapsed starts anew
abbrev pub renewed : ℕ → ℕ → RateWindow → RateWindow
renewed window_ms now w =
    if leb window_ms (now - w.started_at_ms) then record { started_at_ms = now; count = 0 } else w

-- `saturating_add` of a counter of 32 bits
abbrev pub saturating_suc : ℕ → ℕ
saturating_suc n = if ltb (n + 1) (2 ^ 32) then n + 1 else 2 ^ 32 - 1

abbrev pub counted : RateWindow → RateWindow
counted w = record w { count = saturating_suc w.count }

unfoldable pub check : RateLimiter → ℕ → Bytes → RateLimiter × Api (Unit {0})
unfolding retain_windows get_window set_window
check limiter now client =
    if limiter.poisoned
    then (limiter, err (store []))
    else let retained = retain_windows limiter.window_ms now limiter.windows in
      let entry = or_new_window now (get_window client retained) in
      let w = counted (renewed limiter.window_ms now entry) in
      let limiter' = record limiter { windows = set_window client w retained } in
      (limiter', if ltb limiter.max w.count then err too_many_requests else ok tt)
