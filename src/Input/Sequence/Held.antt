-- ===== src/Input/Sequence/Held.antt =====
-- Which keys are down after inputs that `SendInput` has delivered.
use Prim.Native.Nat.{bit_and}
use clip_queue.Prelude.{Bool, not, List, [], ◌∷◌, if◌then◌else◌, ◌==◌}
use clip_queue.Input.Sequence.{
  KeyboardInput, KeyState, Step, sleep_ms, send, keyeventf_keyup, keyeventf_extendedkey, same_key,
}

-- The key that an input is about, and whether it releases it, as `SendInput` reads the flags.
unfoldable pub key_of : KeyboardInput → KeyState
key_of input = record {
  vk = input.wvk;
  scan_code = input.wscan;
  extended = not (bit_and input.dw_flags keyeventf_extendedkey == 0);
}

unfoldable pub releases : KeyboardInput → Bool
releases input = not (bit_and input.dw_flags keyeventf_keyup == 0)

-- Whether the key is down after the inputs, and after the steps of a trace.
unfoldable pub held_inputs : KeyState → List KeyboardInput → Bool → Bool
unfolding key_of releases
held_inputs ks [] held = held
held_inputs ks (input ∷ inputs) held =
    held_inputs ks inputs (if same_key (key_of input) ks then not (releases input) else held)

unfoldable pub held_after : KeyState → List Step → Bool → Bool
unfolding held_inputs
held_after ks [] held = held
held_after ks (sleep_ms d ∷ steps) held = held_after ks steps held
held_after ks (send inputs ∷ steps) held = held_after ks steps (held_inputs ks inputs held)
