-- ===== src/Config/Types.antt =====
-- internal/config/config.go: the structures of the configuration file. An `int` is a ℤ; the tags
-- that name the YAML and JSON keys have no counterpart.
use clip_queue.Prelude.{ℤ, Bool, String, List}

pub record Macro : Type 0 where
  pub name : String
  pub hotkey : String
  pub signature : String
  pub enabled : Bool
  pub text : String
  pub sequence : String
  pub sequence_normalize_delays : Bool
  pub sequence_delay_ms : ℤ
  pub mode : String

pub record UiConfig : Type 0 where
  pub visible : Bool
  pub has_bounds : Bool
  pub x : ℤ
  pub y : ℤ
  pub width : ℤ
  pub height : ℤ

pub record AppConfig : Type 0 where
  pub data_dir : String
  pub silent : Bool
  pub logs : Bool

pub record HotkeysConfig : Type 0 where
  pub toggle_queue : String
  pub paste_next : String
  pub toggle_queue_order : String
  pub toggle_ui : String
  pub toggle_queue_display : String
  pub paste_next_display : String
  pub toggle_queue_order_display : String
  pub toggle_ui_display : String

pub record ClipboardConfig : Type 0 where
  pub watch_debounce_ms : ℤ
  pub paste_delay_ms : ℤ
  pub restore_delay_ms : ℤ

pub record QueueConfig : Type 0 where
  pub default_order : String

pub record FeaturesConfig : Type 0 where
  pub enable_queue : Bool
  pub enable_clipboard : Bool
  pub enable_macros : Bool
  pub enable_lab : Bool

pub record Config : Type 0 where
  pub app : AppConfig
  pub hotkeys : HotkeysConfig
  pub clipboard : ClipboardConfig
  pub queue : QueueConfig
  pub features : FeaturesConfig
  pub ui : UiConfig
  pub macros : List Macro
