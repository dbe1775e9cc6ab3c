-- ===== src/Input/Hooks/Modifiers.antt =====
-- The modifiers of an event.
use Prim.Native.Nat.{bit_and}
use clip_queue.Prelude.{ℕ, ◌≡◌, refl, Bool, true, false, not, ◌||◌, ◌==◌}
use clip_queue.Input.Signature.{mod_ctrl, mod_alt, mod_shift, mod_win}
use clip_queue.Input.Hooks.{add_modifier, get_current_modifiers}

abbrev has : ℕ → ℕ → Bool
has mods flag = not (bit_and mods flag == 0)

abbrev combined : Bool → Bool → Bool → Bool → ℕ
combined win shift alt ctrl =
    add_modifier win mod_win
      (add_modifier shift mod_shift (add_modifier alt mod_alt (add_modifier ctrl mod_ctrl 0)))

combined_lem :
    (win shift alt ctrl : Bool)
    → (has (combined win shift alt ctrl) mod_ctrl ≡ ctrl)
      × (has (combined win shift alt ctrl) mod_alt ≡ alt)
      × (has (combined win shift alt ctrl) mod_shift ≡ shift)
      × (has (combined win shift alt ctrl) mod_win ≡ win)
unfolding add_modifier
combined_lem true true true true = (refl, refl, refl, refl)
combined_lem true true true false = (refl, refl, refl, refl)
combined_lem true true false true = (refl, refl, refl, refl)
combined_lem true true false false = (refl, refl, refl, refl)
combined_lem true false true true = (refl, refl, refl, refl)
combined_lem true false true false = (refl, refl, refl, refl)
combined_lem true false false true = (refl, refl, refl, refl)
combined_lem true false false false = (refl, refl, refl, refl)
combined_lem false true true true = (refl, refl, refl, refl)
combined_lem false true true false = (refl, refl, refl, refl)
combined_lem false true false true = (refl, refl, refl, refl)
combined_lem false true false false = (refl, refl, refl, refl)
combined_lem false false true true = (refl, refl, refl, refl)
combined_lem false false true false = (refl, refl, refl, refl)
combined_lem false false false true = (refl, refl, refl, refl)
combined_lem false false false false = (refl, refl, refl, refl)

-- Each of the four bits is set exactly when the left or the right key of its modifier is down.
get_current_modifiers_lem :
    (is_key_down : ℕ → Bool)
    → (has (get_current_modifiers is_key_down) mod_ctrl ≡ (is_key_down 0xA2 || is_key_down 0xA3))
      × (has (get_current_modifiers is_key_down) mod_alt ≡ (is_key_down 0xA4 || is_key_down 0xA5))
      × (has (get_current_modifiers is_key_down) mod_shift ≡ (is_key_down 0xA0 || is_key_down 0xA1))
      × (has (get_current_modifiers is_key_down) mod_win ≡ (is_key_down 0x5B || is_key_down 0x5C))
unfolding get_current_modifiers
get_current_modifiers_lem is_key_down =
    combined_lem (is_key_down 0x5B || is_key_down 0x5C) (is_key_down 0xA0 || is_key_down 0xA1)
      (is_key_down 0xA4 || is_key_down 0xA5) (is_key_down 0xA2 || is_key_down 0xA3)
