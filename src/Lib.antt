-- ===== src/Lib.antt =====
-- ClipQueue: a clipboard history and paste queue for Windows, written in Go.
--
-- The parts and the files that model them:
--   * internal/app/controller.go, the controller: Controller/State (its fields, and the functions of
--     platform/windows that it calls as the record `Platform`), Controller/Queue (ClearQueue,
--     ToggleOrder, ToggleQueue, SetOrderStrategy, RemoveItem, the getters and the ring of own
--     changes), Controller/Watch (OnClipboardUpdate), Controller/Paste (PasteNext, CopyItem and the
--     images), Controller/Macros (ExecuteMacro) and Controller/Calls (a method by its name, and
--     histories of calls). A method is a step on the controller, the platform's state and the list of
--     callbacks made. Keeps and Inversion hold the rules by which properties of methods follow from
--     their steps, Repeat what the history does with a content; Invariant, Ring, Suppress, Update and Delivery hold the theorems.
--   * platform/windows/clipboard.go: Clipboard/Content (the type of a clipboard item), Clipboard/Dib
--     and its Decode (imageToDIB and dibToPNG, between pixels and bytes), and Clipboard/Access, whose
--     Write and Read are the functions of these names as lists of calls with their answers. Access
--     has the rules that Windows sets for the calls, and Opening the tries to open the clipboard.
--   * platform/windows/input_signature.go: Input/Signature (NewInputSignature, Equals, ToBytes,
--     SignatureFromBytes, base64) and Input/Matcher (Register, Unregister, UnregisterAll, Match,
--     GetAll).
--   * platform/windows/input_sequence.go: Input/Sequence, the replay of recorded keys.
--   * platform/windows/input.go: Input/Output (TypeString and TypeStringHardware) and its Keys
--     (SendCtrlV and ReleaseHotkeyState), as traces of sends and pauses.
--   * platform/windows/input_listener.go: Input/Listener (capture, recorder, pending mouse buttons)
--     and Input/Hooks (the callbacks of the keyboard and the mouse hook).
--   * platform/windows/host.go: Input/Hotkeys, a hotkey as text made into a signature, and
--     Input/Registration, the hotkeys of the configuration in the matcher; Host, what the host takes
--     from Windows when it starts and gives back at the end, and the messages of its window.
--   * internal/config/config.go: Config/Types (the structures), Config/Hotkeys (the signatures it
--     generates, and validateConfig), Config/Store (the defaults, EnsureSignatures,
--     saveConfig, and SafeConfig with Update and Mutate) and Config/Loading (Load and the migration of old files).
--   * internal/parser/parser.go: Parser, command lines as pipelines.
--   * internal/uihost/fallback.go: Uihost/Fallback, the window that falls back to the browser;
--     internal/uihost/webview_windows.go: Uihost/Webview (the window of the web view) and
--     Uihost/Webview/Messages (the messages it reacts to).
--   * internal/ui/server: Server (the history and the queue as the UI sees them), Server/Native (the
--     calls of the web view), Server/Handlers (the HTTP handlers) and Server/Settings (reading and
--     saving the configuration).
--   * main.go: Start, the worker that merges clipboard notifications.
-- How they meet: the hooks of the listener match an event against the signatures that the host has
-- registered and start callbacks, which call the controller; the clipboard watcher calls
-- OnClipboardUpdate; the controller calls the clipboard, the keyboard output and the replay.
--
-- Conventions: numbers are natural numbers, with the wrap-around of a narrower type written out
-- where the code converts to it; Go's `int` is ℤ; a time is in nanoseconds; a nil pointer is `none`;
-- the parser's strings are lists of bytes. Loops are recursion on the list they run over, or on a
-- count of the rounds that are left (five tries to open the clipboard, the rows and the pixels of a
-- picture). Only the sending of inputs in chunks has fuel, the number of the inputs, which is enough
-- since every round sends one at least. Code outside the repository is a parameter: the answers of
-- Windows (`SendInput`, the record `Windows` of the clipboard), YAML, PNG, UTF-16, the FNV sum,
-- base64, and the functions of `strings`. The functions of platform/windows that the controller calls
-- are the fields of `Platform`; the clipboard and the keyboard output have models of their own beside
-- it. Methods run one after the other, as the locks make the parts under a lock do; interleavings of
-- two methods outside their locks are not modelled, but for the worker of main.go and the window
-- procedure, which take turns in any order. The order in which Go visits a map is the order of a list.
--
-- Not modelled: the message loop and the threads of the host, the menu and the icon of the tray, the
-- bridge of the web view and its child windows, the routing, start and stop of the HTTP server, the
-- wiring of main.go, paths, and log lines. They are input, output or glue.
mod Prelude
pub mod Config
pub mod Clipboard
pub mod Controller
pub mod Input
pub mod Parser
pub mod Uihost
mod Tests
pub mod Server
pub mod Start
pub mod Host
