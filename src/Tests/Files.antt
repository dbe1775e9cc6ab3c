-- ===== src/Tests/Files.antt =====
-- The theorem on Load, applied to an old file with one macro.
use clip_queue.Prelude.{ℕ, Bool, true, false, String, List, [], ◌∷◌, none, some, ◌≡◌, refl, pos}
use clip_queue.Config.Types.{Macro}
use clip_queue.Config.Hotkeys.{generate_signature_from_hotkey, parse_hotkey}
use clip_queue.Config.Loading.{OldConfig, Disk, load, migrate_macros}
use clip_queue.Config.Loading.Checked.{Sound, load-Sound}

abbrev same_text : String → String
same_text s = s

abbrev two_parts : String → List String
two_parts s = "CTRL" ∷ "C" ∷ []

abbrev encode : List ℕ → String
encode bytes = "AQQCAgBDAA=="

abbrev always : String → Bool
always s = true

abbrev old_macro : Macro
old_macro = record {
  name = "";
  hotkey = "";
  signature = "";
  enabled = true;
  text = "hello";
  sequence = "";
  sequence_normalize_delays = false;
  sequence_delay_ms = pos 0;
  mode = "paste";
}

abbrev old_file : OldConfig
old_file = record {
  app = record { data_dir = "data"; silent = true; logs = false };
  hotkeys = record { toggle_queue = "Alt+C"; paste_next = "Alt+V"; toggle_queue_order = "" };
  clipboard = record {
    watch_debounce_ms = pos 1;
    paste_delay_ms = pos 2;
    restore_delay_ms = pos 3;
  };
  queue = record { default_order = "FIFO" };
  macros = ("Ctrl+C", old_macro) ∷ [];
}

abbrev old_disk : Disk
old_disk = record {
  exists = true;
  reads = some [];
  old_yaml = λ bytes. some old_file;
  new_yaml = λ bytes cfg. none;
  writes = true;
  makes_dir = true;
}

load-Sound_example :
    Sound same_text two_parts same_text encode always same_text
      (load same_text two_parts same_text encode always same_text old_disk)
load-Sound_example = load-Sound same_text two_parts same_text encode always same_text old_disk

-- The macro keeps its text and its mode, and its key becomes its name and hotkey.
migrated :
    migrate_macros same_text two_parts same_text encode always same_text
      (("Ctrl+C", old_macro) ∷ [])
    ≡ (
      none,
      record old_macro { name = "Ctrl+C"; hotkey = "Ctrl+C"; signature = "AQQCAgBDAA==" } ∷ [],
    )
unfolding migrate_macros generate_signature_from_hotkey parse_hotkey
migrated = refl
