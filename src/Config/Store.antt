-- ===== src/Config/Store.antt =====
-- internal/config/config.go: the default configuration, the guarded configuration of the running
-- program, and the signatures that are filled in. The lock makes each method one step. An
-- error is its text, with `none` for nil.
pub mod Saved
pub mod Filled
use clip_queue.Prelude.{
  ℕ, ℤ, pos, Bool, true, false, not, ◌&&◌, String, List, [], ◌∷◌, Option, none, some, if◌then◌else◌,
  str_eq,
}
use clip_queue.Config.Types.{Config, HotkeysConfig}
use clip_queue.Config.Hotkeys.{generate_signature_from_hotkey}

-- `defaultConfig`
unfoldable pub default_config : Config
default_config = record {
  app = record { data_dir = "."; silent = false; logs = false };
  hotkeys = record {
    toggle_queue = "sig:AQADCgBDAC4AAAAAAAAB";
    paste_next = "sig:AQADCgBWAC8AAAAAAAAB";
    toggle_queue_order = "";
    toggle_ui = "";
    toggle_queue_display = "Ctrl+Alt+C";
    paste_next_display = "Ctrl+Alt+V";
    toggle_queue_order_display = "";
    toggle_ui_display = "";
  };
  clipboard = record {
    watch_debounce_ms = pos 30;
    paste_delay_ms = pos 50;
    restore_delay_ms = pos 250;
  };
  queue = record { default_order = "LIFO" };
  features = record {
    enable_queue = true;
    enable_clipboard = true;
    enable_macros = true;
    enable_lab = false;
  };
  ui = record {
    visible = false;
    has_bounds = false;
    x = pos 0;
    y = pos 0;
    width = pos 500;
    height = pos 300;
  };
  macros = [];
}

-- `saveConfig`: `B` is the type of the bytes, `marshal` is that of YAML, `normalize` the replacement of the quoted key y, and
-- `write_file` is `os.WriteFile` at the path of the configuration.
module _ {W B : Type 0} (marshal : Config → B × Option String) (normalize : B → B)
    (write_file : B → W → Option String × W) where
  unfoldable pub save_config : Config → W → Option String × W
  save_config cfg w = elim (marshal cfg).1 [
    | some e ↦ (some e, w)
    | none ↦ write_file (normalize (marshal cfg).0) w
  ]

-- `Update` and `Mutate`; `Get` hands out a copy, which is equal.
pub data Change : Type 0 where
  update : Config → Change
  mutate : (Config → Config) → Change

-- The configuration that a change wants.
unfoldable pub wanted : Change → Config → Config
wanted (update cfg) current = cfg
wanted (mutate f) current = f current

module _ {W : Type 0} (save : Config → W → Option String × W) where
  -- The memory and the error behind a call of `saveConfig`.
  unfoldable pub commit : Config → Config → Option String → Option String × Config
  commit next current none = (none, next)
  commit next current (some e) = (some e, current)

  unfoldable pub apply_change : Change → Config → W → Option String × Config × W
  unfolding wanted commit
  apply_change change current w =
      let (e, w') = save (wanted change current) w in
      let (result, cfg) = commit (wanted change current) current e in (result, cfg, w')

-- `cfg.Hotkeys.X == "" && cfg.Hotkeys.XDisplay != ""`, and the signature that X has then.
module _ (to_upper : String → String) (split : String → List String) (trim : String → String)
    (encode : List ℕ → String) where
  unfoldable pub fill : String → String → Option String
  fill signature display =
      if str_eq signature "" && not (str_eq display "")
      then generate_signature_from_hotkey to_upper split trim encode display
      else some signature

  -- The last `if` of `EnsureSignatures`, and those before it, each with all that follows. The
  -- Boolean is false for an error, behind which the fields that were set stay set.
  unfoldable pub ensure_toggle_ui : HotkeysConfig → Bool × HotkeysConfig
  ensure_toggle_ui h = elim (fill h.toggle_ui h.toggle_ui_display) [
    | none ↦ (false, h)
    | some sig ↦ (true, record h { toggle_ui = sig })
  ]

  unfoldable pub ensure_toggle_queue_order : HotkeysConfig → Bool × HotkeysConfig
  ensure_toggle_queue_order h = elim (fill h.toggle_queue_order h.toggle_queue_order_display) [
    | none ↦ (false, h)
    | some sig ↦ ensure_toggle_ui (record h { toggle_queue_order = sig })
  ]

  unfoldable pub ensure_paste_next : HotkeysConfig → Bool × HotkeysConfig
  ensure_paste_next h = elim (fill h.paste_next h.paste_next_display) [
    | none ↦ (false, h)
    | some sig ↦ ensure_toggle_queue_order (record h { paste_next = sig })
  ]

  unfoldable pub ensure_toggle_queue : HotkeysConfig → Bool × HotkeysConfig
  ensure_toggle_queue h = elim (fill h.toggle_queue h.toggle_queue_display) [
    | none ↦ (false, h)
    | some sig ↦ ensure_paste_next (record h { toggle_queue = sig })
  ]

  -- `EnsureSignatures`
  unfoldable pub ensure_signatures : Config → Bool × Config
  unfolding ensure_toggle_queue
  ensure_signatures cfg =
      let (ok, h) = ensure_toggle_queue cfg.hotkeys in (ok, record cfg { hotkeys = h })
