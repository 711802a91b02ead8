-- ===== src/Api/RateLimit/Window.antt =====
-- What `RateLimiter` of crates/rcx-registry-api/src/lib.rs lets through within a window.
use rcx_registry.Prelude.{
  ℕ, ◌+◌, ◌-◌, ◌^◌, ◌≤◌, ◌<◌, ◌≡◌, refl, ◌∙◌, false, inl, inr, some, List, [], ◌∷◌, Bytes, bytes_eq,
  bytes_eq_refl, eq_of_bytes_eq, ltb, leb, if◌then◌else◌, All, Bool-cases, arith,
}
use rcx_registry.Prelude.Outcome.{ok, err}
use rcx_registry.Api.Errors.{Api, too_many_requests}
use rcx_registry.Api.RateLimit.{
  RateWindow, RateLimiter, retain_windows, get_window, set_window, or_new_window, renewed, counted,
  check,
}

-- a request: its time and its client
abbrev pub Request : Type 0
Request = ℕ × Bytes

abbrev pub is_let : Api (Unit {0}) → ℕ
is_let (ok tt) = 1
is_let _ = 0

-- How many requests of a client are let through.
unfoldable pub let_through : Bytes → RateLimiter → List Request → ℕ
let_through client limiter [] = 0
let_through client limiter ((now, k) ∷ requests) =
    let (limiter', result) = check limiter now k in
    (if bytes_eq k client then is_let result else 0) + let_through client limiter' requests

-- How many requests are a client's.
unfoldable pub count_of : Bytes → List Request → ℕ
count_of client [] = 0
count_of client ((now, k) ∷ requests) =
    (if bytes_eq k client then 1 else 0) + count_of client requests

abbrev pub min : ℕ → ℕ → ℕ
min a b = if leb a b then a else b

-- A time within the window of a limiter.
abbrev pub IsWithin : RateLimiter → RateWindow → ℕ → Type 0
IsWithin limiter w now = (w.started_at_ms ≤ now) × (now < w.started_at_ms + limiter.window_ms)

get_window-retain :
    (client : Bytes) (window_ms now : ℕ) (w : RateWindow) (ws : List (Bytes × RateWindow))
    → get_window client ws ≡ some w
    → now - w.started_at_ms < window_ms
    → get_window client (retain_windows window_ms now ws) ≡ some w
unfolding get_window retain_windows
get_window-retain client window_ms now w [] h live = cc
get_window-retain client window_ms now w ((k, v) ∷ ws) h live =
    ground (arith, get_window-retain client window_ms now w ws)

get_window-set_window :
    (client k : Bytes) (w : RateWindow) (ws : List (Bytes × RateWindow))
    → get_window client (set_window k w ws)
      ≡ (if bytes_eq k client then some w else get_window client ws)
unfolding get_window set_window
get_window-set_window client k w [] = refl
get_window-set_window client k w ((j, v) ∷ ws) = ground (
  arith,
  get_window-set_window client k w ws,
  eq_of_bytes_eq j k,
  eq_of_bytes_eq j client,
  eq_of_bytes_eq k client,
  bytes_eq_refl client,
)

-- The limiter with other windows.
abbrev with_windows : RateLimiter → List (Bytes × RateWindow) → RateLimiter
with_windows limiter windows = record limiter { windows = windows }

module _ (client : Bytes) (limiter : RateLimiter) (w : RateWindow) (now : ℕ) where
  retained : List (Bytes × RateWindow)
  retained = retain_windows limiter.window_ms now limiter.windows

  module _ (up : limiter.poisoned ≡ false) (found : get_window client limiter.windows ≡ some w)
      (within : IsWithin limiter w now) where
    found-retained : get_window client retained ≡ some w
    unfolding retained
    found-retained =
        get_window-retain client limiter.window_ms now w limiter.windows found (omega arith)

    -- A request of the client is counted, and let through if the count is not above the maximum.
    check_client : check limiter now client ≡ (
      with_windows limiter (set_window client (counted w) retained),
      if ltb limiter.max (counted w).count then err too_many_requests else ok tt,
    )
    unfolding check retained
    check_client =
        let live : leb limiter.window_ms (now - w.started_at_ms) ≡ false = ground arith in
        rw (up, found-retained, live)

    -- A request of another client leaves the window as it is.
    check_other :
        (k : Bytes)
        → bytes_eq k client ≡ false
        → (ws : List (Bytes × RateWindow)) × ((check limiter now k).0 ≡ with_windows limiter ws)
          × (get_window client ws ≡ some w)
    unfolding check retained
    check_other k other =
        let entry = or_new_window now (get_window k retained) in
        (
          set_window k (counted (renewed limiter.window_ms now entry)) retained,
          rw up,
          rw
              (
                get_window-set_window client k (counted (renewed limiter.window_ms now entry))
                    retained,
                other,
              )
              found-retained,
        )

abbrev let_count : ℕ → ℕ → ℕ
let_count max n = is_let (if ltb max n then err too_many_requests else ok tt)

-- One more request of the client.
min_step :
    (max rest : ℕ) (w : RateWindow)
    → max + 1 < 2 ^ 32
    → w.count < 2 ^ 32
    → let_count max (counted w).count + min rest (max - (counted w).count)
      ≡ min (1 + rest) (max - w.count)
min_step max rest w small bound = ground arith

counted-count : (w : RateWindow) → w.count < 2 ^ 32 → (counted w).count < 2 ^ 32
counted-count w h = ground arith

abbrev pub AreWithin : RateLimiter → RateWindow → List Request → Type 0
AreWithin limiter w requests = All (λ r. IsWithin limiter w r.0) requests

-- If a limiter whose mutex is not poisoned has a window of a client, its maximum is below 2 ^ 32 - 1,
-- and requests of this client and of any others follow within the window, then of the client's
-- requests exactly the first are let through that the window has room for: as many as there are, but
-- no more than the maximum less what was counted before.
pub let_through-min :
    (client : Bytes) (requests : List Request) (limiter : RateLimiter) (w : RateWindow)
    → limiter.poisoned ≡ false
    → limiter.max + 1 < 2 ^ 32
    → w.count < 2 ^ 32
    → get_window client limiter.windows ≡ some w
    → AreWithin limiter w requests
    → let_through client limiter requests ≡ min (count_of client requests) (limiter.max - w.count)
unfolding let_through count_of
let_through-min client [] limiter w up small bound found within = ground arith
let_through-min client ((now, k) ∷ requests) limiter w up small bound found (here, within) =
    elim (Bool-cases (bytes_eq k client)) [
      | inl own ↦
          let ws = set_window client (counted w) (retained client limiter w now) in
          let later =
            let_through-min client requests (with_windows limiter ws) (counted w) up small
              (counted-count w bound)
              (get_window-set_window client client (counted w) (retained client limiter w now)
                ∙ rw (bytes_eq_refl client))
              within in
          rw
            (
              eq_of_bytes_eq k client own,
              bytes_eq_refl client,
              check_client client limiter w now up found here,
              later,
            )
            (min_step limiter.max (count_of client requests) w small bound)
      | inr other ↦
          let (ws, e, found') = check_other client limiter w now up found here k other in
          let later =
            let_through-min client requests (with_windows limiter ws) w up small bound found'
              within in
          rw (other, e, later) (ground arith)
    ]
