-- ===== src/Tests/Typing.antt =====
-- The theorems on platform/windows/input.go, applied to concrete texts and keys.
use clip_queue.Prelude.{
  ℕ, ◌≡◌, ◌≢◌, ◌⊎◌, refl, Bool, true, false, ◌&&◌, String, List, [], ◌∷◌, ◌++◌, ◌+◌, none, map, ◌%◌,
  ◌^◌, if◌then◌else◌, arith, length, ◌==◌, eq_iff,
}
use clip_queue.Input.Sequence.{KeyboardInput}
use clip_queue.Input.Sequence.Held.{held_inputs, releases}
use clip_queue.Input.Output.{
  get_last_error, send_all, type_string, type_string_hardware, Layouts, virtual_key_input,
  text_inputs, unicode_rune_inputs,
}
use clip_queue.Input.Output.Keys.{release_hotkey_state, is_seen}
use clip_queue.Input.Output.Chunks.{sent, Bounded, send_all-sent}
use clip_queue.Input.Output.Typing.{
  presses, unicode_press, type_string-presses, type_string_hardware-releases,
}
use clip_queue.Input.Output.Released.{
  plain_key, keys_named, keys_under, releases_of, is_named, release_hotkey_state_lem,
}

-- Everything is sent.
abbrev all_sent : ℕ → List KeyboardInput → ℕ
all_sent i chunk = length chunk

-- Nothing is sent.
abbrev blocked : ℕ → List KeyboardInput → ℕ
blocked i chunk = 0

abbrev no_error : ℕ → ℕ
no_error i = 0

-- Only Control is down.
abbrev control_down : ℕ → Bool
control_down vk = vk == 0x11

abbrev letters : List KeyboardInput
letters = virtual_key_input 65 false ∷ virtual_key_input 65 true ∷ []

send_all-sent_example :
    let r = send_all blocked no_error letters in
    Bounded r.0
    × ((rest : List KeyboardInput) × (sent r.0 ++ rest ≡ letters)
        × (((rest ≡ []) × (r.1 ≡ none))
            ⊎ ((i : ℕ) × (chunk : List KeyboardInput) × (blocked i chunk ≢ length chunk)
                × ((before : List KeyboardInput) × (sent r.0 ≡ before ++ chunk))
                × (r.1 ≡ get_last_error (no_error i)))))
send_all-sent_example = send_all-sent blocked no_error letters

-- A letter, and a rune past the first plane.
abbrev text : List ℕ
text = 65 ∷ 0x1F600 ∷ []

type_string-presses_example :
    let r = type_string all_sent no_error control_down text in
    (r.1 ≡ none) × (presses (sent r.0) ≡ map (λ r. unicode_press (r % 2 ^ 16)) text)
type_string-presses_example =
    type_string-presses all_sent no_error (λ i chunk. refl) control_down text

-- A layout with every letter on a key under Shift.
abbrev layout : Layouts
layout = record {
  vk_key_scan_ex = λ r hkl. 256 + r;
  vk_key_scan = λ r. 256 + r;
  map_virtual_key = λ vk. vk;
  foreground = 1;
  layout_of = λ hwnd. 0x409;
}

type_string_hardware-releases_example :
    let r = type_string_hardware all_sent no_error control_down layout text in
    (r.1 ≡ none) × (held_inputs (plain_key 0x10) (sent r.0) false ≡ false)
type_string_hardware-releases_example =
    type_string_hardware-releases all_sent no_error (λ i chunk. refl) control_down layout text
      (plain_key 0x10)

abbrev ctrl : String
ctrl = "CTRL"

abbrev one_part : String → List String
one_part s = s ∷ []

release_hotkey_state_lem_example :
    releases_of 0x11
      (sent (release_hotkey_state all_sent no_error control_down (λ s. s) one_part (λ s. s) ctrl).0)
    ≡ (if is_named 0x11 (λ s. s) (one_part ctrl) && control_down 0x11 then 1 else 0)
release_hotkey_state_lem_example =
    release_hotkey_state_lem all_sent no_error control_down (λ s. s) one_part (λ s. s) ctrl 0x11
      given
  where
    given : ctrl ≢ ""
    given e = ground (arith, eq_iff ctrl "")

control_released : is_named 0x11 (λ s. s) (one_part ctrl) && control_down 0x11 ≡ true
unfolding is_named is_seen keys_named keys_under
control_released = refl

-- A rune that needs two UTF-16 units arrives as one wrong unit.
truncated : presses (text_inputs (0x1F600 ∷ [])) ≡ unicode_press 0xF600 ∷ []
unfolding presses releases text_inputs unicode_rune_inputs
truncated = refl
