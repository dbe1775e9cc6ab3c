-- ===== src/Server/Settings.antt =====
-- internal/ui/server: reading and saving the configuration, from the web view (NativeSaveConfig) and
-- over HTTP (handleConfig). `parse` is the host's ParseHotkeyToSignature and `save` is saveConfig.
use clip_queue.Prelude.{
  ℕ, suc, ◌+◌, Bool, true, false, ◌&&◌, String, List, [], ◌∷◌, Option, none, some, if◌then◌else◌,
}
use clip_queue.Config.Types.{Config, Macro}
use clip_queue.Config.Store.{apply_change, update}
use clip_queue.Input.Signature.{InputSignature}
use clip_queue.Controller.State.{Sys}
use clip_queue.Controller.Queue.{set_order_strategy}
use clip_queue.Server.Handlers.{Method, get, post, delete, other_method}

-- The configuration in memory, the file, the controller, and how often `OnConfigUpdate` was called.
pub record Served (V W : Type 0) : Type 0 where
  pub config : Config
  pub file : V
  pub sys : Sys W
  pub reloads : ℕ

pub data SaveResult : Type 0 where
  no_windows_host : SaveResult
  invalid_macro : ℕ → Macro → SaveResult
  not_saved : String → SaveResult
  saved : SaveResult

pub data ConfigResponse : Type 0 where
  config_json : Config → ConfigResponse
  plain : ℕ → SaveResult → ConfigResponse
  bad_json : ConfigResponse
  method_not_allowed : ConfigResponse

-- The status that goes with an outcome.
unfoldable pub status_of : SaveResult → ℕ
status_of no_windows_host = 500
status_of (invalid_macro i macro) = 400
status_of (not_saved e) = 500
status_of saved = 200

abbrev pub is_none : {A : Type 0} → Option A → Bool
is_none none = true
is_none (some a) = false

module _ (parse : String → Option InputSignature) where
  -- The loop over the macros, whose first is the number `i`.
  unfoldable pub first_invalid : ℕ → List Macro → Option (ℕ × Macro)
  first_invalid i [] = none
  first_invalid i (macro ∷ macros) =
      let rest = first_invalid (i + 1) macros in
      if is_none (parse macro.hotkey) && is_none (parse macro.signature)
      then some (i, macro)
      else rest

  module _ {V W : Type 0} (save : Config → V → Option String × V) where
    -- What follows the check: the store, then the order of the queue, then the callback.
    unfoldable pub after_update :
        Config → Served V W → Option String × (Config × V) → SaveResult × Served V W
    after_update new_cfg st (some e, (cfg, file)) =
        (not_saved e, record st { config = cfg; file = file })
    after_update new_cfg st (none, (cfg, file)) = (
      saved,
      record {
        config = cfg;
        file = file;
        sys = (set_order_strategy new_cfg.queue.default_order st.sys).1;
        reloads = suc st.reloads;
      },
    )

    -- `NativeSaveConfig`, and the part of `handleConfig` that repeats it.
    unfoldable pub save_config :
        (windows_host : Bool) → Config → Served V W → SaveResult × Served V W
    unfolding first_invalid after_update
    save_config windows_host new_cfg st =
        if windows_host
        then elim (first_invalid 0 new_cfg.macros) [
          | some bad ↦ (invalid_macro bad.0 bad.1, st)
          | none ↦
              let (e, cfg, file) = apply_change save (update new_cfg) st.config st.file in
              after_update new_cfg st (e, (cfg, file))
        ]
        else (no_windows_host, st)

    unfoldable pub handle_config :
        (windows_host : Bool) → Method → Option Config → Served V W → ConfigResponse × Served V W
    unfolding save_config status_of
    handle_config windows_host get body st = (config_json st.config, st)
    handle_config windows_host post none st = (bad_json, st)
    handle_config windows_host post (some new_cfg) st =
        let (r, st') = save_config windows_host new_cfg st in (plain (status_of r) r, st')
    handle_config windows_host delete body st = (method_not_allowed, st)
    handle_config windows_host other_method body st = (method_not_allowed, st)
