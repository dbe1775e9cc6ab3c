-- ===== src/Controller/State.antt =====
-- internal/app/controller.go: the controller's fields, what it calls in platform/windows, and the
-- shape of its methods.
--
-- A method runs over the controller, the platform and the callbacks that it has made. `Platform`
-- lists the functions of platform/windows that the controller calls; its state `W` stands for all
-- that Windows and the other programs do, so that two calls in a row may see different clipboards.
-- A callback is recorded as an `Event`, the newest first. Log lines are left out.
use clip_queue.Prelude.{
  ℕ, ℤ, Bool, true, false, String, List, [], ◌∷◌, Option, none, some, if◌then◌else◌, str_eq, not,
  ◌&&◌, replicate,
}
use clip_queue.Config.Types.{Config}
use clip_queue.Clipboard.Content.{Content}

pub data Error : Type 0 where
  -- An error that a function of platform/windows returned.
  platform : String → Error
  unsupported_order : String → Error
  invalid_index : ℤ → ℕ → Error
  image_not_saved : Error
  image_gone : ℕ → ℕ → Error
  image_unreadable : Error → Error
  image_changed : Error
  no_image_data : Error
  not_in_history : String → Error
  no_sequence : String → Error
  unsupported_mode : String → Error
  -- A method without a result has returned early.
  skipped : Error

pub data Result (A : Type 0) : Type 0 where
  ok : A → Result A
  err : Error → Result A

pub data Event : Type 0 where
  state_changed : Bool → ℕ → String → Event
  ui_refresh : Event
  macro_invoke : String → Bool → Event

pub record Controller : Type 0 where
  pub queue_enabled : Bool
  pub queue : List Content
  pub history : List Content
  pub current_clipboard_id : String
  pub self_events_ring : List ℕ
  pub ring_index : ℕ
  pub ring_size : ℕ
  pub cfg : Config
  pub order_strategy : String

-- What the controller calls in platform/windows, and `time.Sleep` in milliseconds.
pub record Platform (W : Type 0) : Type 0 where
  pub sequence_number : W → ℕ × W
  pub read : W → Result Content × W
  pub read_for_clipboard_watcher : W → Result Content × W
  pub write : Content → W → Result (Unit {0}) × W
  pub send_ctrl_v : W → Result (Unit {0}) × W
  pub type_string : String → W → Result (Unit {0}) × W
  pub type_string_hardware : String → W → Result (Unit {0}) × W
  pub release_hotkey_state : String → W → Result (Unit {0}) × W
  -- The arguments are the sequence, `NormalizeDelays` and `FixedDelayMs`.
  pub play_sequence : String → Bool → ℕ → W → Result (Unit {0}) × W
  pub sleep : ℤ → W → W

pub record Sys (W : Type 0) : Type 0 where
  pub controller : Controller
  pub world : W
  pub events : List Event

abbrev pub Action : Type 0 → Type 0 → Type 0
Action W A = Sys W → Result A × Sys W

abbrev renamed : {A : Type 0} → (Error → Error) → Result A → Result A
renamed f (ok a) = ok a
renamed f (err e) = err (f e)

-- The steps that the methods are made of. Opening `◌>>=◌` opens them all.
module _ {W : Type 0} where
  unfoldable pub pure : {A : Type 0} → A → Action W A
  pure a s = (ok a, s)

  unfoldable pub fail : {A : Type 0} → Error → Action W A
  fail e s = (err e, s)

  unfoldable pub or_fail : {A : Type 0} → Option A → Error → Action W A
  or_fail none e s = (err e, s)
  or_fail (some a) e s = (ok a, s)

  -- An early return on a failed test.
  unfoldable pub guard : Bool → Error → Action W (Unit {0})
  guard true e s = (ok tt, s)
  guard false e s = (err e, s)

  unfoldable pub gets : {A : Type 0} → (Controller → A) → Action W A
  gets f s = (ok (f s.controller), s)

  unfoldable pub modify : (Controller → Controller) → Action W (Unit {0})
  modify f s = (ok tt, record s { controller = f s.controller })

  unfoldable pub emit : Event → Action W (Unit {0})
  emit e s = (ok tt, record s { events = e ∷ s.events })

  -- A call of the platform that cannot fail, and one that can.
  unfoldable pub ask : {A : Type 0} → (W → A × W) → Action W A
  ask f s = let (a, w) = f s.world in (ok a, record s { world = w })

  unfoldable pub call : {A : Type 0} → (W → Result A × W) → Action W A
  call f s = let (r, w) = f s.world in (r, record s { world = w })

  unfoldable pub pause : (W → W) → Action W (Unit {0})
  pause f s = (ok tt, record s { world = f s.world })

  -- A step whose error is dropped or only logged.
  unfoldable pub ignore : Action W (Unit {0}) → Action W (Unit {0})
  ignore m s = (ok tt, (m s).1)

  abbrev otherwise : {A : Type 0} → Result A → Action W (Unit {0}) → Sys W → Result A × Sys W
  otherwise (ok a) h s = (ok a, s)
  otherwise (err e) h s = (err e, (h s).1)

  -- `if err := m; err != nil { h; return err }`
  unfoldable pub on_error : {A : Type 0} → Action W A → Action W (Unit {0}) → Action W A
  on_error m h s = let (r, s') = m s in otherwise r h s'

  -- `defer d`: `d` runs however `m` ends.
  unfoldable pub finally : {A : Type 0} → Action W A → Action W (Unit {0}) → Action W A
  finally m d s = let (r, s') = m s in (r, (d s').1)

  -- `fmt.Errorf("…: %w", err)`
  unfoldable pub map_err : {A : Type 0} → (Error → Error) → Action W A → Action W A
  map_err f m s = let (r, s') = m s in (renamed f r, s')

  abbrev continue : {A B : Type 0} → Result A → (A → Action W B) → Action W B
  continue (ok a) f s = f a s
  continue (err e) f s = (err e, s)

  infixl 5 ◌>>=◌ ◌>>◌
  unfoldable pub ◌>>=◌ : {A B : Type 0} → Action W A → (A → Action W B) → Action W B
  unfolding pure fail or_fail guard gets modify emit ask call pause ignore on_error finally map_err
  ◌>>=◌ m f s = let (r, s') = m s in continue r f s'

  abbrev pub ◌>>◌ : {A B : Type 0} → Action W A → Action W B → Action W B
  m >> k = m >>= λ _. k

abbrev pub history_limit : ℕ
history_limit = 50

abbrev pub ring_buffer_size : ℕ
ring_buffer_size = 8

-- `NewController`; the callbacks that it installs do nothing.
unfoldable pub new_controller : Config → Controller
new_controller cfg = record {
  queue_enabled = false;
  queue = [];
  history = [];
  current_clipboard_id = "";
  self_events_ring = replicate ring_buffer_size 0;
  ring_index = 0;
  ring_size = ring_buffer_size;
  cfg = cfg;
  order_strategy =
      if not (str_eq cfg.queue.default_order "LIFO") && not (str_eq cfg.queue.default_order "FIFO")
      then "LIFO"
      else cfg.queue.default_order;
}
