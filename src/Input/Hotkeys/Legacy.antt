-- ===== src/Input/Hotkeys/Legacy.antt =====
-- A hotkey that is given as text against the events of the keyboard hook.
use clip_queue.Prelude.{
  ℕ, ◌/◌, ◌%◌, ◌≡◌, true, false, String, List, Option, none, some, ◌==◌, arith, subst, Bool-cases,
  inl, inr,
}
use clip_queue.Input.Signature.{
  InputSignature, source_keyboard, uint16_bytes, bytes_equal, equals, new_input_signature,
}
use clip_queue.Input.Listener.{KeyboardHookStruct}
use clip_queue.Input.Hooks.{is_key_message, uint32_bytes, key_raw_data}
use clip_queue.Input.Hotkeys.{
  legacy_raw_data, legacy_signature, parse_hotkey_to_signature, read_parts,
}

message_byte : (m : ℕ) → is_key_message m ≡ true → m / 256 % 256 ≡ 1
unfolding is_key_message
message_byte m h = ground arith

bytes_differ :
    (vk : ℕ) (kb : KeyboardHookStruct) (m : ℕ)
    → m / 256 % 256 ≡ 1
    → bytes_equal (legacy_raw_data vk) (key_raw_data kb m) ≡ false
unfolding legacy_raw_data key_raw_data uint16_bytes uint32_bytes bytes_equal
bytes_differ vk kb m h = ground arith

some_injective : {A : Type 0} {a b : A} → some a ≡ some b → a ≡ b
some_injective e = cc

module _ (fnv : List ℕ → ℕ) where
  keys_differ :
      (mods vk : ℕ) (kb : KeyboardHookStruct) (m mods' : ℕ)
      → is_key_message m ≡ true
      → equals
          (new_input_signature fnv source_keyboard (legacy_raw_data vk) mods)
          (new_input_signature fnv source_keyboard (key_raw_data kb m) mods')
        ≡ false
  unfolding equals new_input_signature
  keys_differ mods vk kb m mods' h = ground (arith, bytes_differ vk kb m (message_byte m h))

  legacy_lem :
      (found : ℕ × ℕ) (sig : InputSignature) (kb : KeyboardHookStruct) (m mods : ℕ)
      → is_key_message m ≡ true
      → legacy_signature fnv found ≡ some sig
      → equals sig (new_input_signature fnv source_keyboard (key_raw_data kb m) mods) ≡ false
  unfolding legacy_signature
  legacy_lem (mods', vk) sig kb m mods h made = elim (Bool-cases (vk == 0)) [
    | inl zero_vk ↦ cc (rw zero_vk at made)
    | inr code ↦
        let e : some (new_input_signature fnv source_keyboard (legacy_raw_data vk) mods')
            ≡ some sig =
          rw code at made in
        subst
          (λ s. equals s (new_input_signature fnv source_keyboard (key_raw_data kb m) mods) ≡ false)
          (some_injective e) (keys_differ mods' vk kb m mods h)
  ]

  module _ (encode : List ℕ → String) (decode : String → Option (List ℕ))
      (to_upper : String → String) (split : String → List String) (trim : String → String)
      (sig_part : String → Option String) where
    -- A hotkey that is given as text, without the prefix "sig:", equals no event of the keyboard
    -- hook: the last byte of its signature is 0, and that of an event is 1.
    pub parse_hotkey_to_signature-equals :
        (hotkey : String) (sig : InputSignature) (kb : KeyboardHookStruct) (m mods : ℕ)
        → sig_part hotkey ≡ none
        → parse_hotkey_to_signature fnv encode decode to_upper split trim sig_part hotkey ≡ some sig
        → is_key_message m ≡ true
        → equals sig (new_input_signature fnv source_keyboard (key_raw_data kb m) mods) ≡ false
    unfolding parse_hotkey_to_signature
    parse_hotkey_to_signature-equals hotkey sig kb m mods text made h =
        legacy_lem (read_parts trim (split (to_upper hotkey)) (0, 0)) sig kb m mods h
          (rw (parse_hotkey_to_signature, text) at made)
