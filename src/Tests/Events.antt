-- ===== src/Tests/Events.antt =====
-- The theorems on the input events of platform/windows, applied to concrete events.
use Prim.Native.Nat.{ℕ}
use clip_queue.Prelude.{◌≡◌, ◌↔◌, refl, inl, true, false, arith, ◌+◌, List, [], ◌∷◌, some, String}
use clip_queue.Input.Signature.{
  InputSignature, source_keyboard, compute_hash, equals, to_bytes, read_ok, signature_from_bytes,
}
use clip_queue.Input.Signature.Equality.{IsMade, identity, equals_iff}
use clip_queue.Input.Signature.Bytes.{signature_from_bytes-to_bytes}
use clip_queue.Input.Matcher.{Registered, register, new_signature_matcher, match_signature, get_all}
use clip_queue.Input.Matcher.Lookup.{Hit, In}
use clip_queue.Input.Matcher.Complete.{Command, registers, after, match_signature-after}
use clip_queue.Input.Sequence.{RecordedSequence, play_recorded_sequence_with_options}
use clip_queue.Input.Sequence.Held.{held_after}
use clip_queue.Input.Sequence.Release.{play_recorded_sequence-releases}

-- A sum in place of the hash, which takes the bytes' order into account no more than it must.
abbrev sum : List ℕ → ℕ
sum [] = 0
sum (b ∷ bytes) = b + sum bytes

-- The key V with Control.
abbrev ctrl_v : InputSignature
ctrl_v = record {
  hash = 0 + (1 + (86 + (0 + 0)));
  raw_data = 86 ∷ 0 ∷ [];
  source_type = source_keyboard;
  modifier_state = 1;
}

hash_made : ctrl_v.hash ≡ compute_hash sum ctrl_v.source_type ctrl_v.modifier_state ctrl_v.raw_data
unfolding compute_hash
hash_made = refl

made : IsMade sum ctrl_v
made = record { hashed = hash_made; has_button = λ e. ground arith }

equals_iff_example : (equals ctrl_v ctrl_v ≡ true) ↔ (identity ctrl_v ≡ identity ctrl_v)
equals_iff_example = equals_iff sum ctrl_v ctrl_v made made

signature_from_bytes-to_bytes_example : signature_from_bytes sum (to_bytes ctrl_v) ≡ read_ok ctrl_v
signature_from_bytes-to_bytes_example =
    signature_from_bytes-to_bytes sum ctrl_v (omega arith) hash_made

abbrev bound : Registered String
bound = record { signature = ctrl_v; callback = "paste"; id = "hk" }

abbrev commands : List (Command String)
commands = registers ctrl_v "hk" "paste" ∷ []

bound-In : In bound (get_all (after commands))
unfolding get_all after register new_signature_matcher
bound-In = inl refl

ctrl_v-equal : equals ctrl_v ctrl_v ≡ true
unfolding equals
ctrl_v-equal = refl

match_signature-after_example :
    (c : String) × (match_signature ctrl_v (after commands) ≡ some c)
    × Hit ctrl_v (get_all (after commands)) c
match_signature-after_example = match_signature-after ctrl_v commands bound bound-In ctrl_v-equal

-- One press without its release.
abbrev pressed : RecordedSequence
pressed = record {
  version = 1;
  recorded_at = 0;
  recorded_hkl = 0;
  events = record { vk = 65; scan_code = 30; hook_flags = 0; message = 0x0100; delay_ms = 5 } ∷ [];
}

play_recorded_sequence-releases_example :
    held_after
      (record { vk = 65; scan_code = 30; extended = false })
      (play_recorded_sequence_with_options
        (λ i. 1)
        (λ i. 0)
        (some pressed)
        (record { normalize_delays = false; fixed_delay_ms = 0 })).0
      false
    ≡ false
play_recorded_sequence-releases_example =
    play_recorded_sequence-releases (λ i. 1) (λ i. 0) (some pressed)
      (record { normalize_delays = false; fixed_delay_ms = 0 })
      (record { vk = 65; scan_code = 30; extended = false })
