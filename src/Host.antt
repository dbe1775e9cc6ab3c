-- ===== src/Host.antt =====
-- platform/windows/host.go, with the starting and stopping of input_listener.go and
-- clipboard_watcher.go: what the host holds of Windows, and how it reacts to the messages of its
-- window. `parse` is parseHotkeyToSignature; the answers of Windows are the records `Answers`,
-- at the start, and `Closing`, at the end.
pub mod Lifecycle
pub mod Reload
use clip_queue.Prelude.{
  ℕ, Bool, true, false, not, ◌&&◌, ◌||◌, String, List, [], ◌∷◌, Option, none, some, if◌then◌else◌,
  ◌==◌, ltb,
}
use clip_queue.Config.Types.{Config}
use clip_queue.Input.Signature.{InputSignature}
use clip_queue.Input.Matcher.{SignatureMatcher, new_signature_matcher, unregister_all}
use clip_queue.Input.Registration.{Callback, register_configured_hotkeys}

-- What Windows answers while the host starts; a handle is 0 when the call failed.
pub record Answers : Type 0 where
  pub registers_class : Bool
  pub creates_window : ℕ
  pub keyboard_hook : ℕ
  pub mouse_hook : ℕ
  pub unhooks : ℕ → Bool
  pub adds_listener : Bool
  pub shows_icon : Bool

-- What Windows answers while the host gives back what it has: whether the call works.
pub record Closing : Type 0 where
  pub unhooks : ℕ → Bool
  pub removes_listener : Bool
  pub removes_icon : Bool
  pub destroys_window : Bool
  pub unregisters_class : Bool

pub data StartError : Type 0 where
  class_error window_error keyboard_error mouse_error watcher_error : StartError

-- The fields of the host and of its listener, and what Windows holds for them: the class, the owner of
-- the clipboard, the hooks that are installed, the format listener and the icon.
pub record Host : Type 0 where
  pub hwnd : ℕ
  pub keyboard_hook : ℕ
  pub mouse_hook : ℕ
  pub matcher : SignatureMatcher Callback
  pub has_tray : Bool
  pub has_class : Bool
  pub has_window : Bool
  pub clipboard_owner : ℕ
  pub hooks : List ℕ
  pub has_listener : Bool
  pub has_icon : Bool

unfoldable pub new_host : Host
new_host = record {
  hwnd = 0;
  keyboard_hook = 0;
  mouse_hook = 0;
  matcher = new_signature_matcher;
  has_tray = false;
  has_class = false;
  has_window = false;
  clipboard_owner = 0;
  hooks = [];
  has_listener = false;
  has_icon = false;
}

unfoldable pub without : ℕ → List ℕ → List ℕ
without handle [] = []
without handle (h ∷ hooks) =
    let rest = without handle hooks in if h == handle then rest else h ∷ rest

-- `Unhook`: the hook is gone if Windows removes it. What it returns is never read.
unfoldable pub unhook : (ℕ → Bool) → ℕ → List ℕ → List ℕ
unfolding without
unhook unhooks handle hooks = if unhooks handle then without handle hooks else hooks

-- `InputListener.Start`
unfoldable pub start_listener : Answers → Host → Option StartError × Host
unfolding unhook
start_listener answers host =
    if answers.keyboard_hook == 0
    then (some keyboard_error, host)
    else if answers.mouse_hook == 0
    then (
      some mouse_error,
      record host {
        keyboard_hook = answers.keyboard_hook;
        hooks = unhook answers.unhooks answers.keyboard_hook (answers.keyboard_hook ∷ host.hooks);
      },
    )
    else (
      none,
      record host {
        keyboard_hook = answers.keyboard_hook;
        mouse_hook = answers.mouse_hook;
        hooks = answers.mouse_hook ∷ answers.keyboard_hook ∷ host.hooks;
      },
    )

-- `InputListener.Stop`
unfoldable pub stop_listener : (ℕ → Bool) → Host → Host
unfolding unhook
stop_listener unhooks host = record host {
  keyboard_hook = 0;
  mouse_hook = 0;
  hooks =
      let left =
        if host.keyboard_hook == 0
        then host.hooks
        else unhook unhooks host.keyboard_hook host.hooks in
      if host.mouse_hook == 0 then left else unhook unhooks host.mouse_hook left;
}

-- The part of `Start` behind the message loop. It goes on whatever the calls give.
unfoldable pub cleanup : Closing → Host → Host
unfolding stop_listener
cleanup closing host =
    let unwatched = record host {
      has_listener = host.has_listener && not closing.removes_listener;
    } in
    let stopped = stop_listener closing.unhooks unwatched in
    record stopped {
      has_icon = if host.has_tray then host.has_icon && not closing.removes_icon else host.has_icon;
      clipboard_owner = 0;
      has_window = host.has_window && not closing.destroys_window;
      has_class = host.has_class && not closing.unregisters_class;
    }

module _ (parse : String → Option InputSignature) (cfg : Config) where
  -- The tray, if the program is not silent; that its icon fails is only logged.
  unfoldable pub start_tray : Answers → Host → Host
  start_tray answers host =
      if cfg.app.silent
      then host
      else record host { has_tray = true; has_icon = answers.shows_icon }

  -- From the hotkeys on.
  unfoldable pub start_features : Answers → Host → Option StartError × Host
  unfolding start_tray
  start_features answers host =
      let registered = record host {
        matcher = register_configured_hotkeys parse cfg host.matcher;
      } in
      if not cfg.features.enable_clipboard
      then (none, start_tray answers registered)
      else if answers.adds_listener
      then (none, start_tray answers (record registered { has_listener = true }))
      else (some watcher_error, registered)

  unfoldable pub after_listener : Answers → Option StartError × Host → Option StartError × Host
  after_listener answers (some e, host) = (some e, host)
  after_listener answers (none, host) = start_features answers host

  -- The part of `Start` before the message loop, with a new listener.
  unfoldable pub start : Answers → Host → Option StartError × Host
  start answers host =
      if not answers.registers_class
      then (some class_error, host)
      else if answers.creates_window == 0
      then (some window_error, record host { has_class = true })
      else after_listener answers (
          start_listener answers (record host {
            has_class = true;
            has_window = true;
            hwnd = answers.creates_window;
            clipboard_owner = answers.creates_window;
            keyboard_hook = 0;
            mouse_hook = 0;
            matcher = new_signature_matcher;
          }))

-- A message of the window. For the tray it says whether a button was released, and what the menu
-- gives.
pub data Message : Type 0 where
  tray_callback : Bool → ℕ → Message
  clipboard_update : Message
  reload_config : Message
  close : Message
  destroy : Message
  other_message : ℕ → Message

-- What the window does besides: the two callbacks, the end of the loop, and Windows's own procedure.
pub data Effect : Type 0 where
  tray_command : ℕ → Effect
  clipboard_updated : Effect
  quit : Effect
  default_proc : ℕ → Effect

-- `windowProc`, with the configuration that `h.cfg.Get()` gives then.
unfoldable pub window_proc :
    (String → Option InputSignature) → Config → Message → Host → List Effect × Host
window_proc parse cfg (tray_callback released selected) host =
    (if released && (host.has_tray && ltb 0 selected) then tray_command selected ∷ [] else [], host)
window_proc parse cfg clipboard_update host = (clipboard_updated ∷ [], host)
window_proc parse cfg reload_config host = (
  [],
  record host { matcher = register_configured_hotkeys parse cfg (unregister_all host.matcher) },
)
window_proc parse cfg close host = (quit ∷ [], host)
window_proc parse cfg destroy host = ([], host)
window_proc parse cfg (other_message n) host = (default_proc n ∷ [], host)
