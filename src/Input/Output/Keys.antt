-- ===== src/Input/Output/Keys.antt =====
-- platform/windows/input.go: the shortcut Ctrl+V, and the release of a hotkey's keys. The functions
-- of the package `strings` are arguments: `to_upper`, `split` at "+" and `trim`.
use clip_queue.Prelude.{
  ℕ, ◌%◌, ◌^◌, Bool, true, false, not, ◌&&◌, ◌||◌, String, List, [], ◌∷◌, ◌++◌, Option, none, some,
  if◌then◌else◌, ◌==◌, str_eq, length,
}
use clip_queue.Input.Sequence.{KeyboardInput, Step, sleep_ms, send}
use clip_queue.Input.Hotkeys.{key_map, key_code}
use clip_queue.Input.Output.{vk_shift, vk_control, vk_menu, vk_v, virtual_key_input, get_last_error}

abbrev pub ctrl_down_inputs : List KeyboardInput
ctrl_down_inputs = virtual_key_input vk_menu true ∷ virtual_key_input vk_control false ∷ []

abbrev pub v_inputs : List KeyboardInput
v_inputs = virtual_key_input vk_v false ∷ virtual_key_input vk_v true ∷ []

-- The deferred release of Control.
abbrev pub ctrl_up : List Step
ctrl_up = send (virtual_key_input vk_control true ∷ []) ∷ []

module _ (answer : ℕ → List KeyboardInput → ℕ) (last_error : ℕ → ℕ) where
  -- `SendCtrlV`
  unfoldable pub send_ctrl_v : List Step × Option ℕ
  unfolding virtual_key_input get_last_error
  send_ctrl_v =
      if not (answer 0 ctrl_down_inputs == length ctrl_down_inputs)
      then (send ctrl_down_inputs ∷ ctrl_up, get_last_error (last_error 0))
      else if not (answer 1 v_inputs == length v_inputs)
      then (
        send ctrl_down_inputs ∷ sleep_ms 10 ∷ send v_inputs ∷ ctrl_up,
        get_last_error (last_error 1),
      )
      else (send ctrl_down_inputs ∷ sleep_ms 10 ∷ send v_inputs ∷ ctrl_up, none)

  -- The end of `ReleaseHotkeyState`.
  unfoldable pub send_releases : List KeyboardInput → List Step × Option ℕ
  unfolding get_last_error
  send_releases inputs =
      if length inputs == 0
      then ([], none)
      else if not (answer 0 inputs == length inputs)
      then (send inputs ∷ [], get_last_error (last_error 0))
      else (send inputs ∷ [], none)

-- `seen[vk]`
unfoldable pub is_seen : ℕ → List ℕ → Bool
is_seen vk [] = false
is_seen vk (k ∷ seen) = if k == vk then true else is_seen vk seen

-- The keys that a part of a hotkey stands for.
unfoldable pub part_keys : String → List ℕ
unfolding key_code
part_keys part =
    if str_eq part "CTRL" || str_eq part "CONTROL"
    then vk_control ∷ 0xA2 ∷ 0xA3 ∷ []
    else if str_eq part "ALT"
    then vk_menu ∷ 0xA4 ∷ 0xA5 ∷ []
    else if str_eq part "SHIFT"
    then vk_shift ∷ 0xA0 ∷ 0xA1 ∷ []
    else if str_eq part "WIN"
    then 0x5B ∷ 0x5C ∷ []
    else elim (key_code part key_map) [ none ↦ [] | some code ↦ code % 2 ^ 16 ∷ [] ]

module _ (is_down : ℕ → Bool) where
  -- `if !seen[vk] && getAsyncKeyState(vk) { … }`; the keys that were released are those in `seen`,
  -- the last one first.
  unfoldable pub release_key : ℕ → List ℕ → List ℕ
  unfolding is_seen
  release_key vk seen = if not (is_seen vk seen) && is_down vk then vk ∷ seen else seen

  unfoldable pub release_keys : List ℕ → List ℕ → List ℕ
  release_keys [] seen = seen
  release_keys (vk ∷ keys) seen = release_keys keys (release_key vk seen)

  unfoldable pub release_parts : (String → String) → List String → List ℕ → List ℕ
  release_parts trim [] seen = seen
  release_parts trim (part ∷ parts) seen =
      release_parts trim parts (release_keys (part_keys (trim part)) seen)

-- The inputs in the order in which they were appended.
unfoldable pub release_inputs : List ℕ → List KeyboardInput
release_inputs [] = []
release_inputs (vk ∷ seen) = release_inputs seen ++ virtual_key_input vk true ∷ []

-- `ReleaseHotkeyState`
unfoldable pub release_hotkey_state :
    (ℕ → List KeyboardInput → ℕ)
    → (ℕ → ℕ)
    → (ℕ → Bool)
    → (String → String)
    → (String → List String)
    → (String → String)
    → String
    → List Step × Option ℕ
unfolding send_releases
release_hotkey_state answer last_error is_down to_upper split trim hotkey =
    if str_eq hotkey ""
    then ([], none)
    else send_releases answer last_error
        (release_inputs (release_parts is_down trim (split (to_upper hotkey)) []))
