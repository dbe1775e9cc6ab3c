-- ===== src/Uihost/Webview/Messages.antt =====
-- internal/uihost/webview_windows.go: webViewHostWndProc and hitTest, for a window that is subclassed,
-- and the life of the window as a sequence of steps. `prev` is the window procedure before.
use clip_queue.Prelude.{
  ℕ, ◌+◌, ◌-◌, ◌/◌, ◌%◌, ◌^◌, Bool, true, false, not, ◌&&◌, ◌||◌, List, [], ◌∷◌, Option, none, some,
  if◌then◌else◌, ◌==◌, ltb, ℤ, pos, negsuc, String,
}
use clip_queue.Clipboard.Dib.Decode.{int32}
use clip_queue.Uihost.Webview.{
  Rect, Answers, WebView, is_positive, minus32, read_window_state, notify_window_state, hidden,
  ui_thread_ends, set_window_state_handler, navigate,
}
use clip_queue.Uihost.Webview

-- `int32(int16(n))`
unfoldable pub int16 : ℕ → ℤ
int16 n = if ltb n (2 ^ 15) then pos n else negsuc (2 ^ 16 - 1 - n)

unfoldable pub is_below : ℤ → ℤ → Bool
is_below (pos a) (pos b) = ltb a b
is_below (pos a) (negsuc b) = false
is_below (negsuc a) (pos b) = true
is_below (negsuc a) (negsuc b) = ltb b a

pub data Hit : Type 0 where
  client caption left right top_left top_right bottom bottom_left bottom_right : Hit

-- The cases of the switch, and what follows it.
unfoldable pub hit_of : Bool → Bool → Bool → Bool → Bool → Hit
hit_of left_edge right_edge top_edge bottom_edge on_caption =
    if top_edge && left_edge
    then top_left
    else if top_edge && right_edge
    then top_right
    else if bottom_edge && left_edge
    then bottom_left
    else if bottom_edge && right_edge
    then bottom_right
    else if left_edge
    then left
    else if right_edge
    then right
    else if bottom_edge
    then bottom
    else if on_caption
    then caption
    else client

unfoldable pub hit_test : Option Rect → ℕ → Option Hit
unfolding hit_of is_below int16 minus32 is_positive
hit_test none l_param = none
hit_test (some r) l_param =
    let x = int16 (l_param % 2 ^ 16) in
    let y = int16 ((l_param / 2 ^ 16) % 2 ^ 16) in
    if not (is_positive (minus32 r.right r.left)) || not (is_positive (minus32 r.bottom r.top))
    then some client
    else some (
        hit_of (is_below x (int32 ((r.left + 8) % 2 ^ 32))) (not (is_below x (minus32 r.right 8)))
          (is_below y (int32 ((r.top + 8) % 2 ^ 32))) (not (is_below y (minus32 r.bottom 8)))
          (is_below y (int32 ((r.top + 8) % 2 ^ 32))))

pub data Message : Type 0 where
  wm_close wm_exit_size_move : Message
  wm_nc_hit_test : ℕ → Message
  other_message : Message

pub data Reaction : Type 0 where
  answered : Reaction
  hit : Hit → Reaction
  passed_on : Reaction

unfoldable pub pass_on : ℕ → Reaction
pass_on prev = if prev == 0 then answered else passed_on

unfoldable pub hit_or_pass : ℕ → Option Hit → Reaction
unfolding pass_on
hit_or_pass prev none = pass_on prev
hit_or_pass prev (some h) = hit h

unfoldable pub is_root : ℕ → WebView → Bool
is_root hwnd h = (hwnd == h.hwnd) && not (h.hwnd == 0)

unfoldable pub web_view_host_wnd_proc : Answers → ℕ → ℕ → Message → WebView → Reaction × WebView
unfolding is_root pass_on hit_or_pass hit_test hidden read_window_state notify_window_state
web_view_host_wnd_proc answers prev hwnd wm_close h =
    if is_root hwnd h && not h.destroying then (answered, hidden answers h) else (pass_on prev, h)
web_view_host_wnd_proc answers prev hwnd wm_exit_size_move h =
    if is_root hwnd h
    then (
      pass_on prev,
      notify_window_state (read_window_state answers.rect (h.visible && answers.window_visible) h)
          h,
    )
    else (pass_on prev, h)
web_view_host_wnd_proc answers prev hwnd (wm_nc_hit_test l_param) h =
    if h.hwnd == 0 then (pass_on prev, h) else (hit_or_pass prev (hit_test answers.rect l_param), h)
web_view_host_wnd_proc answers prev hwnd other_message h = (pass_on prev, h)

-- The calls of the program, the messages to a window, and the end of the message loop.
pub data Step : Type 0 where
  set_handler show hide focus toggle close loop_ends : Step
  navigate_to : String → Step
  message : ℕ → ℕ → Message → Step

unfoldable pub step : Answers → Step → WebView → WebView
unfolding Webview.show Webview.hide Webview.focus Webview.toggle Webview.close navigate
    web_view_host_wnd_proc ui_thread_ends set_window_state_handler
step answers set_handler h = set_window_state_handler h
step answers show h = (Webview.show answers h).1
step answers hide h = (Webview.hide answers h).1
step answers focus h = (Webview.focus answers h).1
step answers toggle h = (Webview.toggle answers h).1
step answers close h = (Webview.close answers h).1
step answers loop_ends h = ui_thread_ends h
step answers (navigate_to url) h = (navigate answers url h).1
step answers (message prev hwnd m) h = (web_view_host_wnd_proc answers prev hwnd m h).1

unfoldable pub run : List (Answers × Step) → WebView → WebView
unfolding step
run [] h = h
run ((answers, s) ∷ steps) h = run steps (step answers s h)
