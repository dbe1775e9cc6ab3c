-- ===== src/Uihost/Webview/Sized.antt =====
-- The sizes that the window remembers and reports.
use clip_queue.Prelude.{
  ℕ, Bool, true, false, not, ◌&&◌, ◌||◌, List, [], ◌∷◌, Option, none, some, if◌then◌else◌, ◌==◌,
  ◌≡◌, refl, ℤ, pos, String, Bool-cases, inl, inr,
}
use clip_queue.Uihost.Webview.{
  Rect, WindowState, Answers, WebView, is_positive, new_web_view_ui_host, minus32, stored_bounds,
  read_window_state, notify_window_state, apply_stored_bounds, run_ui_thread, ensure_ready,
  and_then, hand_over, dispatch, hide_or_show, shown, hidden, destroyed, ui_thread_ends,
  set_window_state_handler, navigate,
}
use clip_queue.Uihost.Webview
use clip_queue.Uihost.Webview.Messages.{
  Message, wm_close, wm_exit_size_move, wm_nc_hit_test, other_message, is_root,
  web_view_host_wnd_proc, Step, set_handler, show, hide, focus, toggle, close, loop_ends,
  navigate_to, message, step, run,
}

abbrev pub IsSized : ℤ → ℤ → Type 0
IsSized width height = (is_positive width ≡ true) × (is_positive height ≡ true)

unfoldable pub AllSized : List WindowState → Type 0
AllSized [] = Unit
AllSized (s ∷ states) = IsSized s.width s.height × AllSized states

-- The window's size, and every size that was reported.
abbrev pub Sized : WebView → Type 0
Sized h = IsSized h.width h.height × AllSized h.told

and_true : (a b : Bool) → (a && b) ≡ true → (a ≡ true) × (b ≡ true)
and_true true true e = (refl, refl)
and_true true false e = (refl, e)
and_true false b e = (e, cc)

if-positive : (a b : ℤ) → is_positive b ≡ true → is_positive (if is_positive a then a else b) ≡ true
if-positive a b p = elim (Bool-cases (is_positive a)) [
  | inl e ↦ rw (e, e) refl
  | inr e ↦ rw (e, p) refl
]

new_web_view_ui_host-Sized :
    (url : String) (state : WindowState) → Sized (new_web_view_ui_host url state)
unfolding new_web_view_ui_host AllSized is_positive
new_web_view_ui_host-Sized url state =
    ((if-positive state.width (pos 500) refl, if-positive state.height (pos 250) refl), tt)

read_window_state-Sized :
    (rect : Option Rect) (visible : Bool) (h : WebView)
    → Sized h
    → IsSized (read_window_state rect visible h).width (read_window_state rect visible h).height
unfolding read_window_state stored_bounds
read_window_state-Sized none visible h sized = sized.0
read_window_state-Sized (some r) visible h sized =
    let width = minus32 r.right r.left in
    let height = minus32 r.bottom r.top in
    elim (Bool-cases (is_positive width && is_positive height)) [
      | inl e ↦ rw e (and_true (is_positive width) (is_positive height) e)
      | inr e ↦ rw e sized.0
    ]

notify_window_state-Sized :
    (state : WindowState) (h : WebView)
    → IsSized state.width state.height
    → Sized h
    → Sized (notify_window_state state h)
unfolding notify_window_state AllSized
notify_window_state-Sized state h (pw, ph) (size, told) = (
  rw (pw, ph) (pw, ph),
  elim (Bool-cases h.has_handler) [ inl e ↦ rw e ((pw, ph), told) | inr e ↦ rw e told ],
)

-- Reading the state and telling it.
told-Sized :
    (rect : Option Rect) (visible : Bool) (h : WebView)
    → Sized h
    → Sized (notify_window_state (read_window_state rect visible h) h)
told-Sized rect visible h sized =
    notify_window_state-Sized _ h (read_window_state-Sized rect visible h sized) sized

shown-Sized : (answers : Answers) (h : WebView) → Sized h → Sized (shown answers h)
unfolding shown
shown-Sized answers h sized = told-Sized answers.rect true _ sized

hidden-Sized : (answers : Answers) (h : WebView) → Sized h → Sized (hidden answers h)
unfolding hidden
hidden-Sized answers h sized = told-Sized answers.rect false _ sized

destroyed-Sized : (answers : Answers) (h : WebView) → Sized h → Sized (destroyed answers h)
unfolding destroyed
destroyed-Sized answers h sized = told-Sized answers.rect h.visible _ sized

apply_stored_bounds-Sized :
    (state : WindowState) (h : WebView) → Sized h → Sized (apply_stored_bounds state h)
unfolding apply_stored_bounds
apply_stored_bounds-Sized state h sized =
    elim (Bool-cases
      (not state.has_bounds || not (is_positive state.width) || not (is_positive state.height))) [
        | inl e ↦ rw e sized
        | inr e ↦ rw e sized
      ]

ensure_ready-Sized : (answers : Answers) (h : WebView) → Sized h → Sized (ensure_ready answers h)
unfolding ensure_ready run_ui_thread
ensure_ready-Sized answers h sized = elim (Bool-cases h.started) [
  | inl e ↦ rw e sized
  | inr e ↦ elim (Bool-cases answers.creates) [
    | inr bad ↦ rw (e, bad) sized
    | inl made ↦ elim (Bool-cases (answers.window == 0)) [
      | inl bad ↦ rw (e, made, bad) sized
      | inr fine ↦ rw (e, made, fine) (apply_stored_bounds-Sized h.initial_state _ sized)
    ]
  ]
]

and_then-Sized :
    (e : Option Webview.WebViewError) (rest : WebView → Option Webview.WebViewError × WebView)
    (ready : WebView)
    → Sized ready
    → Sized (rest ready).1
    → Sized (and_then e rest ready).1
unfolding and_then
and_then-Sized none rest ready sized after = after
and_then-Sized (some e) rest ready sized after = sized

dispatch-Sized :
    (answers : Answers) (action : WebView → WebView) (h : WebView)
    → ((ready : WebView) → Sized ready → Sized (action ready))
    → Sized h
    → Sized (dispatch answers action h).1
unfolding dispatch hand_over
dispatch-Sized answers action h kept sized =
    let ready = ensure_ready answers h in
    let fine = ensure_ready-Sized answers h sized in
    and_then-Sized ready.ready_err (hand_over action) ready fine
      (elim (Bool-cases (ready.closed || not ready.has_view || (ready.hwnd == 0))) [
        | inl shut ↦ rw shut fine
        | inr up ↦ rw up (kept ready fine)
      ])

toggle-Sized : (answers : Answers) (h : WebView) → Sized h → Sized (Webview.toggle answers h).1
unfolding Webview.toggle hide_or_show Webview.show Webview.hide
toggle-Sized answers h sized =
    let ready = ensure_ready answers h in
    let fine = ensure_ready-Sized answers h sized in
    and_then-Sized ready.ready_err (hide_or_show answers) ready fine
      (elim (Bool-cases (ready.visible && ((ready.hwnd == 0) || answers.window_visible))) [
        | inl seen ↦
            rw seen (dispatch-Sized answers (hidden answers) ready (hidden-Sized answers) fine)
        | inr away ↦
            rw away (dispatch-Sized answers (shown answers) ready (shown-Sized answers) fine)
      ])

close-Sized : (answers : Answers) (h : WebView) → Sized h → Sized (Webview.close answers h).1
unfolding Webview.close
close-Sized answers h sized = elim (Bool-cases (not h.started || h.closed)) [
  | inl e ↦ rw e sized
  | inr e ↦ rw e (dispatch-Sized answers (destroyed answers) h (destroyed-Sized answers) sized)
]

web_view_host_wnd_proc-Sized :
    (answers : Answers) (prev hwnd : ℕ) (m : Message) (h : WebView)
    → Sized h
    → Sized (web_view_host_wnd_proc answers prev hwnd m h).1
unfolding web_view_host_wnd_proc
web_view_host_wnd_proc-Sized answers prev hwnd wm_close h sized =
    elim (Bool-cases (is_root hwnd h && not h.destroying)) [
      | inl e ↦ rw e (hidden-Sized answers h sized)
      | inr e ↦ rw e sized
    ]
web_view_host_wnd_proc-Sized answers prev hwnd wm_exit_size_move h sized =
    elim (Bool-cases (is_root hwnd h)) [
      | inl e ↦ rw e (told-Sized answers.rect (h.visible && answers.window_visible) h sized)
      | inr e ↦ rw e sized
    ]
web_view_host_wnd_proc-Sized answers prev hwnd (wm_nc_hit_test l_param) h sized =
    elim (Bool-cases (h.hwnd == 0)) [ inl e ↦ rw e sized | inr e ↦ rw e sized ]
web_view_host_wnd_proc-Sized answers prev hwnd other_message h sized = sized

step-Sized : (answers : Answers) (s : Step) (h : WebView) → Sized h → Sized (step answers s h)
unfolding step Webview.show Webview.hide Webview.focus navigate ui_thread_ends
    set_window_state_handler
step-Sized answers set_handler h sized = sized
step-Sized answers show h sized =
    dispatch-Sized answers (shown answers) h (shown-Sized answers) sized
step-Sized answers hide h sized =
    dispatch-Sized answers (hidden answers) h (hidden-Sized answers) sized
step-Sized answers focus h sized =
    dispatch-Sized answers (shown answers) h (shown-Sized answers) sized
step-Sized answers toggle h sized = toggle-Sized answers h sized
step-Sized answers close h sized = close-Sized answers h sized
step-Sized answers loop_ends h sized = sized
step-Sized answers (navigate_to url) h sized =
    dispatch-Sized answers (λ ready. record ready { page = some url }) (record h { url = url })
      (λ ready fine. fine) sized
step-Sized answers (message prev hwnd m) h sized =
    web_view_host_wnd_proc-Sized answers prev hwnd m h sized

run-Sized : (steps : List (Answers × Step)) (h : WebView) → Sized h → Sized (run steps h)
unfolding run
run-Sized [] h sized = sized
run-Sized ((answers, s) ∷ steps) h sized =
    run-Sized steps (step answers s h) (step-Sized answers s h sized)

-- Whatever bounds the window starts with, whatever rectangles Windows answers with, and in any order
-- of calls and messages, the window's width and height and every width and height that the handler of
-- the window state was given are above zero.
pub run-new_web_view_ui_host :
    (url : String) (state : WindowState) (steps : List (Answers × Step))
    → IsSized
        (run steps (new_web_view_ui_host url state)).width
        (run steps (new_web_view_ui_host url state)).height
      × AllSized (run steps (new_web_view_ui_host url state)).told
run-new_web_view_ui_host url state steps =
    run-Sized steps (new_web_view_ui_host url state) (new_web_view_ui_host-Sized url state)
