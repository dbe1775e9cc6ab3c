-- ===== src/Config/Loading.antt =====
-- internal/config/config.go: Load, with the migration of old files, and the reading of a macro. YAML
-- and the file system are parameters; what Load writes is a list of effects, in order.
pub mod Checked
use clip_queue.Prelude.{
  ℕ, Bool, true, false, String, List, [], ◌∷◌, ◌++◌, Option, none, some, if◌then◌else◌, str_eq, ℤ,
  pos,
}
use clip_queue.Config.Types.{Config, Macro, AppConfig, ClipboardConfig, QueueConfig}
use clip_queue.Config.Hotkeys.{MacroError, validate_config, generate_signature_from_hotkey}
use clip_queue.Config.Store.{default_config, ensure_signatures}

-- A macro as the file has it: a text, or fields of which `enabled` may be missing.
pub data MacroNode : Type 0 where
  scalar : String → MacroNode
  mapping : Macro → Option Bool → MacroNode
  other_node : MacroNode

abbrev pub or_true : Option Bool → Bool
or_true none = true
or_true (some b) = b

-- `UnmarshalYAML` into the macro `m`; the `enabled` inside a `mapping` is not read.
unfoldable pub unmarshal_macro : MacroNode → Macro → Option Macro
unmarshal_macro (scalar text) m = some (record m { text = text; mode = "type" })
unmarshal_macro (mapping aux enabled) m = some (record aux {
  enabled = or_true enabled;
  mode = if str_eq aux.mode "" then "type" else aux.mode;
})
unmarshal_macro other_node m = none

pub record OldHotkeys : Type 0 where
  pub toggle_queue : String
  pub paste_next : String
  pub toggle_queue_order : String

-- `oldConfig`, with the macros in the order in which the map is visited.
pub record OldConfig : Type 0 where
  pub app : AppConfig
  pub hotkeys : OldHotkeys
  pub clipboard : ClipboardConfig
  pub queue : QueueConfig
  pub macros : List (String × Macro)

pub data Effect : Type 0 where
  wrote : Config → Effect
  made_dir : String → Effect

pub data LoadError : Type 0 where
  io_error : LoadError
  bad_signature : String → LoadError
  bad_yaml : LoadError
  invalid : MacroError → LoadError
  no_signatures : LoadError

pub data Loaded : Type 0 where
  loaded : Config → Loaded
  not_loaded : LoadError → Loaded

-- What the file and the parser give. `writes` is whether `os.WriteFile` works.
pub record Disk : Type 0 where
  pub exists : Bool
  pub reads : Option (List ℕ)
  pub old_yaml : List ℕ → Option OldConfig
  pub new_yaml : List ℕ → Config → Option Config
  pub writes : Bool
  pub makes_dir : Bool

module _ (to_upper : String → String) (split : String → List String) (trim : String → String)
    (encode : List ℕ → String) (is_base64 : String → Bool) (trim_sig : String → String) where
  -- The loop over the old macros.
  unfoldable pub migrate_macros : List (String × Macro) → Option String × List Macro
  migrate_macros [] = (none, [])
  migrate_macros ((hotkey, macro) ∷ macros) =
      let (bad, rest) = migrate_macros macros in
      elim (generate_signature_from_hotkey to_upper split trim encode hotkey) [
        | none ↦ (some hotkey, [])
        | some signature ↦ (
          bad,
          record {
            name = hotkey;
            hotkey = hotkey;
            signature = signature;
            enabled = true;
            text = macro.text;
            sequence = "";
            sequence_normalize_delays = false;
            sequence_delay_ms = pos 0;
            mode = macro.mode;
          }
              ∷ rest,
        )
      ]

  unfoldable pub migrate : OldConfig → List Macro → Config
  migrate old macros = record default_config {
    app = old.app;
    hotkeys = record default_config.hotkeys {
      toggle_queue = old.hotkeys.toggle_queue;
      paste_next = old.hotkeys.paste_next;
      toggle_queue_order = old.hotkeys.toggle_queue_order;
    };
    clipboard = old.clipboard;
    queue = old.queue;
    macros = macros;
  }

  module _ (disk : Disk) where
    -- The directory of the data, made at the end of each way through Load.
    unfoldable pub ensure_data_dir : Config → Loaded × List Effect
    ensure_data_dir cfg =
        if disk.makes_dir
        then (loaded cfg, made_dir cfg.app.data_dir ∷ [])
        else (not_loaded io_error, [])

    unfoldable pub save_and_ensure : Config → Loaded × List Effect
    save_and_ensure cfg =
        let (r, effects) = ensure_data_dir cfg in
        if disk.writes then (r, wrote cfg ∷ effects) else (not_loaded io_error, [])

    -- `if err := validateConfig(cfg); err != nil { return nil, err }`, and what follows it.
    unfoldable pub checked : Config → Loaded × List Effect → Loaded × List Effect
    checked cfg next = elim (validate_config is_base64 trim_sig cfg) [
      | some e ↦ (not_loaded (invalid e), [])
      | none ↦ next
    ]

    unfoldable pub load_default : Bool × Config → Loaded × List Effect
    load_default (true, cfg) = save_and_ensure cfg
    load_default (false, cfg) = (not_loaded no_signatures, [])

    unfoldable pub load_migrated : OldConfig → Option String × List Macro → Loaded × List Effect
    load_migrated old (some hotkey, macros) = (not_loaded (bad_signature hotkey), [])
    load_migrated old (none, macros) =
        checked (migrate old macros) (save_and_ensure (migrate old macros))

    unfoldable pub load_new : List ℕ → Loaded × List Effect
    load_new bytes = elim (disk.new_yaml bytes default_config) [
      | none ↦ (not_loaded bad_yaml, [])
      | some cfg ↦ checked cfg (ensure_data_dir cfg)
    ]

    unfoldable pub load_existing : List ℕ → Loaded × List Effect
    load_existing bytes = elim (disk.old_yaml bytes) [
      | none ↦ load_new bytes
      | some old ↦ elim old.macros [
        | [] ↦ load_new bytes
        | m ∷ ms ↦ load_migrated old (migrate_macros (m ∷ ms))
      ]
    ]

    -- `Load`
    unfoldable pub load : Loaded × List Effect
    load =
        if disk.exists
        then elim disk.reads [ none ↦ (not_loaded io_error, []) | some bytes ↦ load_existing bytes ]
        else load_default (ensure_signatures to_upper split trim encode default_config)
