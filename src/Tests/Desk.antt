-- ===== src/Tests/Desk.antt =====
-- A desktop with one clipboard and one other program, for the theorems on internal/app/controller.go.
use clip_queue.Prelude.{ℕ, ◌+◌, pos, refl, true, false, String, List, [], ◌∷◌}
use clip_queue.Config.Types.{Config}
use clip_queue.Clipboard.Content.{Content, text}
use clip_queue.Controller.State.{ok, Platform, Sys}
use clip_queue.Controller.Delivery.{Working}

pub record Desk : Type 0 where
  pub clipboard : Content
  pub number : ℕ
  pub pasted : List Content

-- A change of the clipboard takes the next number.
abbrev pub desk : Platform Desk
desk = record {
  sequence_number = λ w. (w.number, w);
  read = λ w. (ok w.clipboard, w);
  read_for_clipboard_watcher = λ w. (ok w.clipboard, w);
  write = λ c w. (ok tt, record w { clipboard = c; number = w.number + 1 });
  send_ctrl_v = λ w. (ok tt, record w { pasted = w.clipboard ∷ w.pasted });
  type_string = λ t w. (ok tt, w);
  type_string_hardware = λ t w. (ok tt, w);
  release_hotkey_state = λ t w. (ok tt, w);
  play_sequence = λ t n d w. (ok tt, w);
  sleep = λ ms w. w;
}

pub desk-Working : Working desk (λ c. c) (λ w. w.clipboard) (λ w. w.pasted)
desk-Working = record {
  reads = λ w. (w.clipboard, refl, refl);
  read_keeps = λ w. (refl, refl);
  writes = λ c w. refl;
  write_shows = λ c w. (refl, refl);
  sends = λ w. refl;
  send_pastes = λ w. (refl, refl);
  number_keeps = λ w. (refl, refl);
  sleep_keeps = λ ms w. (refl, refl);
}

abbrev pub config : String → Config
config order = record {
  app = record { data_dir = ""; silent = false; logs = false };
  hotkeys = record {
    toggle_queue = "";
    paste_next = "";
    toggle_queue_order = "";
    toggle_ui = "";
    toggle_queue_display = "";
    paste_next_display = "";
    toggle_queue_order_display = "";
    toggle_ui_display = "";
  };
  clipboard = record {
    watch_debounce_ms = pos 50;
    paste_delay_ms = pos 10;
    restore_delay_ms = pos 100;
  };
  queue = record { default_order = order };
  features = record {
    enable_queue = true;
    enable_clipboard = true;
    enable_macros = true;
    enable_lab = false;
  };
  ui = record {
    visible = true;
    has_bounds = false;
    x = pos 0;
    y = pos 0;
    width = pos 0;
    height = pos 0;
  };
  macros = [];
}

abbrev pub note : String → Content
note t = record {
  id = t;
  timestamp = 0;
  kind = text;
  text = t;
  files = [];
  image_png = [];
  size_bytes = 1;
  preview = t;
  source_seq = 0;
}

abbrev pub empty_desk : Desk
empty_desk = record { clipboard = note "old"; number = 7; pasted = [] }

-- The queue is on and holds two texts, which the history holds too.
abbrev pub busy : String → Sys Desk
busy order = record {
  controller = record {
    queue_enabled = true;
    queue = note "a" ∷ note "b" ∷ [];
    history = note "a" ∷ note "b" ∷ [];
    current_clipboard_id = "b";
    self_events_ring = 0 ∷ 0 ∷ 0 ∷ 0 ∷ 0 ∷ 0 ∷ 0 ∷ 0 ∷ [];
    ring_index = 0;
    ring_size = 8;
    cfg = config order;
    order_strategy = order;
  };
  world = empty_desk;
  events = [];
}
