-- ===== src/Uihost/Fallback.antt =====
-- internal/uihost/fallback.go: the window that falls back to the browser. An error is a string, and
-- a nil host is `none`. The primary and the fallback are taken to be two different hosts, as
-- `NewPreferredUIHost` makes them, so that `active == h.primary` holds as long as the fallback is not
-- in use. `W` is the state of everything outside.
pub mod Panics
pub mod Sticky
use clip_queue.Prelude.{Bool, true, false, String, List, [], ◌∷◌, Option, none, some, if◌then◌else◌}

-- What the code relies on is that a host's operations return.
pub record UiHost (W : Type 0) : Type 0 where
  pub show : W → Option String × W
  pub hide : W → Option String × W
  pub toggle : W → Option String × W
  pub focus : W → Option String × W
  pub close : W → Option String × W
  pub navigate : String → W → Option String × W

pub record FallbackUiHost (W : Type 0) : Type 0 where
  pub primary : Option (UiHost W)
  pub fallback : Option (UiHost W)
  pub use_fallback : Bool

-- A call of a method of a nil host panics.
pub data Outcome : Type 0 where
  returned : Option String → Outcome
  panicked : Outcome

unfoldable pub first_of : Option String → Option String → Option String
first_of none e = e
first_of (some e) _ = some e

module _ {W : Type 0} where
  unfoldable pub new_fallback_ui_host : Option (UiHost W) → Option (UiHost W) → FallbackUiHost W
  new_fallback_ui_host primary fallback = record {
    primary = primary;
    fallback = fallback;
    use_fallback = false;
  }

  unfoldable pub active : FallbackUiHost W → Option (UiHost W)
  active h = if h.use_fallback then h.fallback else h.primary

  -- Without the log line.
  unfoldable pub switch_to_fallback : FallbackUiHost W → FallbackUiHost W
  switch_to_fallback h = record h { use_fallback = true }

  -- The second call, on the fallback, if there is one and the first was on the primary.
  unfoldable pub retry :
      (UiHost W → W → Option String × W)
      → Option (UiHost W)
      → FallbackUiHost W
      → W
      → Outcome × FallbackUiHost W × W
  unfolding switch_to_fallback
  retry op none h w = (returned none, h, w)
  retry op (some host) h w =
      if h.use_fallback
      then (returned none, h, w)
      else (returned (op host w).0, switch_to_fallback h, (op host w).1)

  -- `if err := active.Show(); err != nil && …`, behind the call.
  unfoldable pub settle :
      (UiHost W → W → Option String × W)
      → FallbackUiHost W
      → Option String × W
      → Outcome × FallbackUiHost W × W
  unfolding retry
  settle op h (none, w) = (returned none, h, w)
  settle op h (some e, w) = retry op h.fallback h w

  unfoldable pub on_host :
      (UiHost W → W → Option String × W)
      → Option (UiHost W)
      → FallbackUiHost W
      → W
      → Outcome × FallbackUiHost W × W
  unfolding settle
  on_host op none h w = (panicked, h, w)
  on_host op (some host) h w = settle op h (op host w)

  -- `Show`, `Toggle` and `Focus`, which differ in the operation alone.
  unfoldable pub attempt :
      (UiHost W → W → Option String × W) → FallbackUiHost W → W → Outcome × FallbackUiHost W × W
  unfolding active on_host
  attempt op h w = on_host op (active h) h w

  unfoldable pub hide_host :
      Option (UiHost W) → FallbackUiHost W → W → Outcome × FallbackUiHost W × W
  hide_host none h w = (panicked, h, w)
  hide_host (some host) h w = (returned (host.hide w).0, h, (host.hide w).1)

  unfoldable pub hide : FallbackUiHost W → W → Outcome × FallbackUiHost W × W
  unfolding hide_host active
  hide h w = hide_host (active h) h w

  -- A nil host is passed over.
  unfoldable pub visit :
      (UiHost W → W → Option String × W) → Option (UiHost W) → W → Option String × W
  visit op none w = (none, w)
  visit op (some host) w = op host w

  unfoldable pub close : FallbackUiHost W → W → Outcome × FallbackUiHost W × W
  unfolding visit first_of
  close h w =
      let (e1, w1) = visit (λ host. host.close) h.primary w in
      let (e2, w2) = visit (λ host. host.close) h.fallback w1 in (returned (first_of e1 e2), h, w2)

  -- The switch, if the primary's `Navigate` failed.
  unfoldable pub switch_on : Option String → FallbackUiHost W → FallbackUiHost W
  unfolding switch_to_fallback
  switch_on none h = h
  switch_on (some e) h = switch_to_fallback h

  unfoldable pub navigate : String → FallbackUiHost W → W → Outcome × FallbackUiHost W × W
  unfolding visit switch_on
  navigate url h w =
      let (e1, w1) = visit (λ host. host.navigate url) h.primary w in
      let (e2, w2) = visit (λ host. host.navigate url) h.fallback w1 in
      (returned e2, switch_on e1 h, w2)

-- The methods, as the rest of the program calls them.
pub data Call : Type 0 where
  show toggle focus hide_it close_it : Call
  navigate_to : String → Call

module _ {W : Type 0} where
  unfoldable pub perform : Call → FallbackUiHost W → W → Outcome × FallbackUiHost W × W
  perform show h w = attempt (λ host. host.show) h w
  perform toggle h w = attempt (λ host. host.toggle) h w
  perform focus h w = attempt (λ host. host.focus) h w
  perform hide_it h w = hide h w
  perform close_it h w = close h w
  perform (navigate_to url) h w = navigate url h w

  -- A history of calls: their outcomes, and what they leave.
  unfoldable pub run : List Call → FallbackUiHost W → W → List Outcome × FallbackUiHost W × W
  run [] h w = ([], h, w)
  run (call ∷ calls) h w =
      let (outcome, h1, w1) = perform call h w in
      let (outcomes, h2, w2) = run calls h1 w1 in (outcome ∷ outcomes, h2, w2)
