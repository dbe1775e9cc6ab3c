-- ===== src/Uihost/Webview.antt =====
-- internal/uihost/webview_windows.go: the window of the web view. What is handed to the UI thread
-- runs before the next step. `Answers` is what Windows and the library answer during a step; a
-- rectangle has its numbers as they are stored. The bridge to the page, the subclassing of the child
-- windows, the frame, focus and creation options of the window, and log lines are left out.
pub mod Messages
pub mod Sized
use clip_queue.Prelude.{
  ℕ, ◌+◌, ◌-◌, ◌%◌, ◌^◌, ◌/◌, Bool, true, false, not, ◌&&◌, ◌||◌, List, [], ◌∷◌, Option, none, some,
  if◌then◌else◌, ◌==◌, ltb, leb, ℤ, pos, negsuc, String, str_eq,
}
use clip_queue.Clipboard.Dib.Decode.{int32}

pub record Rect : Type 0 where
  pub left : ℕ
  pub top : ℕ
  pub right : ℕ
  pub bottom : ℕ

pub record WindowState : Type 0 where
  pub visible : Bool
  pub has_bounds : Bool
  pub x : ℤ
  pub y : ℤ
  pub width : ℤ
  pub height : ℤ

pub data WebViewError : Type 0 where
  not_created no_window is_closed : WebViewError

pub record Answers : Type 0 where
  pub creates : Bool
  pub window : ℕ
  pub rect : Option Rect
  pub window_visible : Bool

-- `told` is what the handler of the window state was given, the last first; `on_screen`, `page` and
-- `placed` are what the library was asked for.
pub record WebView : Type 0 where
  pub url : String
  pub width : ℤ
  pub height : ℤ
  pub initial_state : WindowState
  pub has_handler : Bool
  pub started : Bool
  pub ready_err : Option WebViewError
  pub has_view : Bool
  pub hwnd : ℕ
  pub visible : Bool
  pub destroying : Bool
  pub closed : Bool
  pub told : List WindowState
  pub on_screen : Bool
  pub page : Option String
  pub placed : Option WindowState

-- `z > 0`
unfoldable pub is_positive : ℤ → Bool
is_positive (pos n) = ltb 0 n
is_positive (negsuc n) = false

unfoldable pub new_web_view_ui_host : String → WindowState → WebView
unfolding is_positive
new_web_view_ui_host url state = record {
  url = url;
  width = if is_positive state.width then state.width else pos 500;
  height = if is_positive state.height then state.height else pos 250;
  initial_state = state;
  has_handler = false;
  started = false;
  ready_err = none;
  has_view = false;
  hwnd = 0;
  visible = false;
  destroying = false;
  closed = false;
  told = [];
  on_screen = false;
  page = none;
  placed = none;
}

unfoldable pub set_window_state_handler : WebView → WebView
set_window_state_handler h = record h { has_handler = true }

-- The difference of two `int32`.
unfoldable pub minus32 : ℕ → ℕ → ℤ
minus32 a b = int32 ((a + 2 ^ 32 - b) % 2 ^ 32)

-- `readWindowState`, when Windows has no rectangle.
unfoldable pub stored_bounds : Bool → WebView → WindowState
stored_bounds visible h = record {
  visible = visible;
  has_bounds = h.initial_state.has_bounds;
  x = h.initial_state.x;
  y = h.initial_state.y;
  width = h.width;
  height = h.height;
}

unfoldable pub read_window_state : Option Rect → Bool → WebView → WindowState
unfolding stored_bounds
read_window_state none visible h = stored_bounds visible h
read_window_state (some r) visible h =
    let width = minus32 r.right r.left in
    let height = minus32 r.bottom r.top in
    if is_positive width && is_positive height
    then record {
      visible = visible;
      has_bounds = true;
      x = int32 r.left;
      y = int32 r.top;
      width = width;
      height = height;
    }
    else stored_bounds visible h

unfoldable pub notify_window_state : WindowState → WebView → WebView
notify_window_state state h = record h {
  initial_state = state;
  width = if is_positive state.width then state.width else h.width;
  height = if is_positive state.height then state.height else h.height;
  told = if h.has_handler then state ∷ h.told else h.told;
}

-- `applyStoredBounds`
unfoldable pub apply_stored_bounds : WindowState → WebView → WebView
apply_stored_bounds state h =
    if not state.has_bounds || not (is_positive state.width) || not (is_positive state.height)
    then h
    else record h { placed = some state }

-- `runUIThread`, until it is ready.
unfoldable pub run_ui_thread : Answers → WebView → WebView
unfolding apply_stored_bounds
run_ui_thread answers h =
    if not answers.creates
    then record h { ready_err = some not_created; closed = true }
    else if answers.window == 0
    then record h { ready_err = some no_window; closed = true }
    else record (apply_stored_bounds h.initial_state h) {
      on_screen = false;
      page = if str_eq h.url "" then h.page else some h.url;
      has_view = true;
      hwnd = answers.window;
      visible = false;
      ready_err = none;
    }

-- `runUIThread`, from the end of the message loop.
unfoldable pub ui_thread_ends : WebView → WebView
ui_thread_ends h = record h {
  has_view = false;
  hwnd = 0;
  visible = false;
  destroying = false;
  closed = true;
}

unfoldable pub ensure_ready : Answers → WebView → WebView
unfolding run_ui_thread
ensure_ready answers h =
    if h.started then h else run_ui_thread answers (record h { started = true })

-- `if err := h.ensureReady(); err != nil { return err }`, and what follows.
unfoldable pub and_then :
    Option WebViewError
    → (WebView → Option WebViewError × WebView)
    → WebView
    → Option WebViewError × WebView
and_then none rest ready = rest ready
and_then (some e) rest ready = (some e, ready)

-- `dispatch`, after `ensureReady`.
unfoldable pub hand_over : (WebView → WebView) → WebView → Option WebViewError × WebView
hand_over action ready =
    if ready.closed || not ready.has_view || (ready.hwnd == 0)
    then (some is_closed, ready)
    else (none, action ready)

unfoldable pub dispatch : Answers → (WebView → WebView) → WebView → Option WebViewError × WebView
unfolding ensure_ready and_then hand_over
dispatch answers action h =
    let ready = ensure_ready answers h in and_then ready.ready_err (hand_over action) ready

unfoldable pub shown : Answers → WebView → WebView
unfolding notify_window_state read_window_state
shown answers h =
    let opened = record h { on_screen = true; visible = true } in
    notify_window_state (read_window_state answers.rect true opened) opened

unfoldable pub hidden : Answers → WebView → WebView
unfolding notify_window_state read_window_state
hidden answers h =
    let gone = record h { on_screen = false; visible = false } in
    notify_window_state (read_window_state answers.rect false gone) gone

unfoldable pub show : Answers → WebView → Option WebViewError × WebView
unfolding dispatch shown
show answers = dispatch answers (shown answers)

unfoldable pub hide : Answers → WebView → Option WebViewError × WebView
unfolding dispatch hidden
hide answers = dispatch answers (hidden answers)

-- As `Show`, without the subclassing.
unfoldable pub focus : Answers → WebView → Option WebViewError × WebView
unfolding dispatch shown
focus answers = dispatch answers (shown answers)

-- `Toggle`, after `ensureReady`.
unfoldable pub hide_or_show : Answers → WebView → Option WebViewError × WebView
unfolding show hide
hide_or_show answers ready =
    if ready.visible && ((ready.hwnd == 0) || answers.window_visible)
    then hide answers ready
    else show answers ready

unfoldable pub toggle : Answers → WebView → Option WebViewError × WebView
unfolding ensure_ready and_then hide_or_show
toggle answers h =
    let ready = ensure_ready answers h in and_then ready.ready_err (hide_or_show answers) ready

-- What `Close` hands to the UI thread; the end of the message loop that `Destroy` brings is a step of
-- its own.
unfoldable pub destroyed : Answers → WebView → WebView
unfolding notify_window_state read_window_state
destroyed answers h =
    let closing = record h { destroying = true } in
    notify_window_state (read_window_state answers.rect h.visible closing) closing

unfoldable pub close : Answers → WebView → Option WebViewError × WebView
unfolding dispatch destroyed
close answers h =
    if not h.started || h.closed then (none, h) else dispatch answers (destroyed answers) h

unfoldable pub navigate : Answers → String → WebView → Option WebViewError × WebView
unfolding dispatch
navigate answers url h =
    dispatch answers (λ ready. record ready { page = some url }) (record h { url = url })
