-- ===== src/Tests/Window.antt =====
-- Runs of internal/uihost/webview_windows.go.
use clip_queue.Prelude.{
  ◌^◌, ◌-◌, ◌+◌, ◌*◌, true, false, List, [], ◌∷◌, some, ◌≡◌, refl, pos, negsuc,
}
use clip_queue.Clipboard.Dib.Decode.{int32}
use clip_queue.Uihost.Webview.{
  Rect, WindowState, Answers, new_web_view_ui_host, minus32, is_positive,
}
use clip_queue.Uihost.Webview.Messages.{
  client, caption, top_left, int16, is_below, hit_of, hit_test, Step, set_handler, show, toggle,
  close, message, wm_exit_size_move, run,
}
use clip_queue.Uihost.Webview.Sized.{IsSized, AllSized, run-new_web_view_ui_host}

-- From (-10, 20) to (390, 220).
abbrev some_rect : Rect
some_rect = record { left = 2 ^ 32 - 10; top = 20; right = 390; bottom = 220 }

abbrev upside_down : Rect
upside_down = record { left = 100; top = 20; right = 40; bottom = 220 }

abbrev no_state : WindowState
no_state = record {
  visible = false;
  has_bounds = false;
  x = pos 0;
  y = pos 0;
  width = negsuc 4;
  height = pos 0;
}

abbrev with_rect : Rect → Answers
with_rect r = record { creates = true; window = 7; rect = some r; window_visible = true }

abbrev steps : List (Answers × Step)
steps =
    (with_rect some_rect, set_handler)
    ∷ (with_rect some_rect, show)
    ∷ (with_rect upside_down, message 3 7 wm_exit_size_move)
    ∷ (with_rect some_rect, toggle)
    ∷ (with_rect some_rect, close)
    ∷ []

-- The point (-10, 20).
at_corner : hit_test (some some_rect) (20 * 2 ^ 16 + (2 ^ 16 - 10)) ≡ some top_left
unfolding hit_test hit_of is_below int16 minus32 is_positive int32
at_corner = refl

at_top : hit_test (some some_rect) (27 * 2 ^ 16 + 100) ≡ some caption
unfolding hit_test hit_of is_below int16 minus32 is_positive int32
at_top = refl

inside : hit_test (some some_rect) (28 * 2 ^ 16 + 100) ≡ some client
unfolding hit_test hit_of is_below int16 minus32 is_positive int32
inside = refl

no_size : hit_test (some upside_down) 0 ≡ some client
unfolding hit_test minus32 is_positive int32
no_size = refl

run-new_web_view_ui_host_example :
    IsSized
      (run steps (new_web_view_ui_host "http://localhost" no_state)).width
      (run steps (new_web_view_ui_host "http://localhost" no_state)).height
    × AllSized (run steps (new_web_view_ui_host "http://localhost" no_state)).told
run-new_web_view_ui_host_example = run-new_web_view_ui_host "http://localhost" no_state steps
