-- ===== src/Tests/Listening.antt =====
-- The theorems on the hooks and the recorder of platform/windows, applied to concrete events.
use clip_queue.Prelude.{ℕ, ◌≡◌, refl, pos, true, false, String, List, [], ◌∷◌, some, none}
use clip_queue.Input.Signature.{
  InputSignature, source_mouse_button, mouse_button_edge_up, new_input_signature, equals,
  compute_hash, mouse_button_raw_data_equal,
}
use clip_queue.Input.Matcher.{match_signature, entry, find_equal}
use clip_queue.Input.Listener.{InputListener, get_pending, wait_for_capture}
use clip_queue.Input.Listener.Recording.{Key}
use clip_queue.Input.Hooks.{mouse_event, x_button, mouse_hook}
use clip_queue.Input.Hooks.Clicks.{mouse_hook-click, mouse_hook-captured}

abbrev head_byte : List ℕ → ℕ
head_byte [] = 0
head_byte (b ∷ bytes) = b

-- The release of the fourth button, without modifiers.
abbrev fourth : InputSignature
fourth = record { hash = 1; raw_data = 4 ∷ 2 ∷ []; source_type = 1; modifier_state = 0 }

-- A listener with a hotkey on that button.
abbrev listening : InputListener String
listening = record {
  hwnd = 1;
  matcher = record {
    signatures =
        (1, record { signature = fourth; callback = "paste"; id = "paste_next" } ∷ []) ∷ [];
  };
  pending_mouse_hotkeys = [];
  capture_mode = false;
  capture_chan = none;
  sequence_record_mode = false;
  sequence_record_hkl = 0;
  sequence_record_at = 0;
  sequence_last_event = none;
  sequence_events = [];
}

down_event : mouse_event 0x020B 65536 ≡ some (source_mouse_button, 4 ∷ 1 ∷ [])
unfolding mouse_event x_button
down_event = refl

up_event : mouse_event 0x020C 65536 ≡ some (source_mouse_button, 4 ∷ 2 ∷ [])
unfolding mouse_event x_button
up_event = refl

matched :
    match_signature
      (new_input_signature head_byte source_mouse_button (4 ∷ mouse_button_edge_up ∷ []) 0)
      listening.matcher
    ≡ some "paste"
unfolding match_signature new_input_signature compute_hash entry find_equal equals
    mouse_button_raw_data_equal
matched = refl

-- Control goes down between the press and the release.
mouse_hook-click_example :
    let p = mouse_hook head_byte (pos 0) 0x020B 65536 0 listening in
    let r = mouse_hook head_byte (pos 0) 0x020C 65536 1 p.0 in
    (p.1 ≡ true)
    × (p.2 ≡ none)
    × (r.1 ≡ true)
    × (r.2 ≡ some "paste")
    × (get_pending 4 r.0.pending_mouse_hotkeys ≡ none)
mouse_hook-click_example =
    mouse_hook-click head_byte 0 4 0x020B 65536 0x020C 65536 0 1 listening "paste" refl down_event
      up_event matched

abbrev capturing : InputListener String
capturing = record listening { capture_mode = true }

mouse_hook-captured_example :
    let p = mouse_hook head_byte (pos 0) 0x020B 65536 0 capturing in
    let r = mouse_hook head_byte (pos 0) 0x020C 65536 1 p.0 in
    (p ≡ (capturing, true, none))
    × (r.1 ≡ true)
    × (r.2 ≡ none)
    × (r.0.capture_mode ≡ false)
    × ((wait_for_capture r.0).0
        ≡ some
            (new_input_signature head_byte source_mouse_button (4 ∷ mouse_button_edge_up ∷ []) 1))
mouse_hook-captured_example =
    mouse_hook-captured head_byte 0 4 0x020B 65536 0x020C 65536 0 1 capturing refl refl down_event
      up_event

-- A typed key, an injected one, and a typed one two minutes later.
abbrev keys : List Key
keys =
    (record { vk_code = 65; scan_code = 30; flags = 0 }, 0x0100, 1_000_000_000)
    ∷ (record { vk_code = 66; scan_code = 48; flags = 0x10 }, 0x0100, 2_000_000_000)
    ∷ (record { vk_code = 67; scan_code = 46; flags = 0 }, 0x0100, 121_000_000_000)
    ∷ []

abbrev recorded : InputListener String
recorded = record listening {
  sequence_events =
      record { vk = 65; scan_code = 30; hook_flags = 0; message = 256; delay_ms = 0 }
      ∷ record { vk = 67; scan_code = 46; hook_flags = 0; message = 256; delay_ms = 60000 }
      ∷ [];
}
