-- ===== src/Input/Hooks/Clicks.antt =====
-- What the mouse hook does with the press and the release of one button.
use clip_queue.Prelude.{ℕ, pos, ◌≡◌, refl, true, false, List, [], ◌∷◌, none, some, arith}
use clip_queue.Input.Signature.{
  source_mouse_button, mouse_button_edge_down, mouse_button_edge_up, new_input_signature,
  decode_mouse_button_raw_data,
}
use clip_queue.Input.Matcher.{match_signature}
use clip_queue.Input.Listener.{
  InputListener, set_pending, get_pending, delete_pending, store_pending_mouse_hotkey,
  consume_pending_mouse_hotkey, wait_for_capture,
}
use clip_queue.Input.Hooks.{
  mouse_event, capture, press, release, button_event, mouse_signature_event, mouse_hook,
}

module _ {C : Type 0} where
  get_pending-set :
      (b : ℕ) (c : C) (pending : List (ℕ × C)) → get_pending b (set_pending b c pending) ≡ some c
  unfolding get_pending set_pending
  get_pending-set b c [] = ground arith
  get_pending-set b c ((d, e) ∷ pending) = ground (arith, get_pending-set b c pending)

  get_pending-delete :
      (b : ℕ) (pending : List (ℕ × C)) → get_pending b (delete_pending b pending) ≡ none
  unfolding get_pending delete_pending
  get_pending-delete b [] = refl
  get_pending-delete b ((d, e) ∷ pending) = ground (arith, get_pending-delete b pending)

module _ {C : Type 0} (fnv : List ℕ → ℕ) where
  press_lem :
      (b mods : ℕ) (l : InputListener C) (c : C)
      → l.capture_mode ≡ false
      → match_signature
          (new_input_signature fnv source_mouse_button (b ∷ mouse_button_edge_up ∷ []) mods)
          l.matcher
        ≡ some c
      → mouse_signature_event fnv source_mouse_button (b ∷ mouse_button_edge_down ∷ []) mods l
        ≡ (store_pending_mouse_hotkey b c l, true, none)
  unfolding mouse_signature_event decode_mouse_button_raw_data button_event press
  press_lem b mods l c free found = rw (free, found) refl

  release_lem :
      (b mods : ℕ) (l : InputListener C) (c : C)
      → l.capture_mode ≡ false
      → get_pending b l.pending_mouse_hotkeys ≡ some c
      → mouse_signature_event fnv source_mouse_button (b ∷ mouse_button_edge_up ∷ []) mods l ≡ (
        record l { pending_mouse_hotkeys = delete_pending b l.pending_mouse_hotkeys },
        true,
        some c,
      )
  unfolding mouse_signature_event decode_mouse_button_raw_data button_event release
      consume_pending_mouse_hotkey
  release_lem b mods l c free waiting = rw (free, waiting) refl

  -- A press in the hook is the event of its signature.
  hook_lem :
      (n w_param mouse_data mods : ℕ) (source_type : ℕ) (raw_data : List ℕ) (l : InputListener C)
      → mouse_event w_param mouse_data ≡ some (source_type, raw_data)
      → mouse_hook fnv (pos n) w_param mouse_data mods l
        ≡ mouse_signature_event fnv source_type raw_data mods l
  unfolding mouse_hook
  hook_lem n w_param mouse_data mods source_type raw_data l h = rw (mouse_hook, h) refl

  click :
      (b mods mods' : ℕ) (l : InputListener C) (c : C)
      → l.capture_mode ≡ false
      → match_signature
          (new_input_signature fnv source_mouse_button (b ∷ mouse_button_edge_up ∷ []) mods)
          l.matcher
        ≡ some c
      → let p =
          mouse_signature_event fnv source_mouse_button (b ∷ mouse_button_edge_down ∷ []) mods l in
        let r =
          mouse_signature_event fnv source_mouse_button (b ∷ mouse_button_edge_up ∷ []) mods' p.0 in
        (p.1 ≡ true)
        × (p.2 ≡ none)
        × (r.1 ≡ true)
        × (r.2 ≡ some c)
        × (get_pending b r.0.pending_mouse_hotkeys ≡ none)
  unfolding store_pending_mouse_hotkey
  click b mods mods' l c free found =
      let waiting = get_pending-set b c l.pending_mouse_hotkeys in
      rw
        (
          press_lem b mods l c free found,
          release_lem b mods' (store_pending_mouse_hotkey b c l) c free waiting,
        )
        (refl, refl, refl, refl, get_pending-delete b (set_pending b c l.pending_mouse_hotkeys))

  -- Outside the capture, for a mouse button whose release is registered with the modifiers at the
  -- press: the press is blocked and starts nothing, the release that follows is blocked and starts
  -- the callback, whatever the modifiers are by then, and the button is no longer pending.
  pub mouse_hook-click :
      (n b w_down d_down w_up d_up mods mods' : ℕ) (l : InputListener C) (c : C)
      → l.capture_mode ≡ false
      → mouse_event w_down d_down ≡ some (source_mouse_button, b ∷ mouse_button_edge_down ∷ [])
      → mouse_event w_up d_up ≡ some (source_mouse_button, b ∷ mouse_button_edge_up ∷ [])
      → match_signature
          (new_input_signature fnv source_mouse_button (b ∷ mouse_button_edge_up ∷ []) mods)
          l.matcher
        ≡ some c
      → let p = mouse_hook fnv (pos n) w_down d_down mods l in
        let r = mouse_hook fnv (pos n) w_up d_up mods' p.0 in
        (p.1 ≡ true)
        × (p.2 ≡ none)
        × (r.1 ≡ true)
        × (r.2 ≡ some c)
        × (get_pending b r.0.pending_mouse_hotkeys ≡ none)
  mouse_hook-click n b w_down d_down w_up d_up mods mods' l c free down up found =
      rw (hook_lem n w_down d_down mods _ _ l down, hook_lem n w_up d_up mods' _ _ _ up)
        (click b mods mods' l c free found)

  captured :
      (b mods mods' : ℕ) (l : InputListener C)
      → l.capture_mode ≡ true
      → l.capture_chan ≡ none
      → let p =
          mouse_signature_event fnv source_mouse_button (b ∷ mouse_button_edge_down ∷ []) mods l in
        let r =
          mouse_signature_event fnv source_mouse_button (b ∷ mouse_button_edge_up ∷ []) mods' p.0 in
        (p ≡ (l, true, none))
        × (r.1 ≡ true)
        × (r.2 ≡ none)
        × (r.0.capture_mode ≡ false)
        × ((wait_for_capture r.0).0
            ≡ some
                (new_input_signature fnv source_mouse_button (b ∷ mouse_button_edge_up ∷ []) mods'))
  unfolding mouse_signature_event decode_mouse_button_raw_data capture wait_for_capture
  captured b mods mods' l on nothing = rw (on, nothing) (refl, refl, refl, refl, refl)

  -- In the capture, with nothing captured yet: the press of a mouse button is blocked and changes
  -- nothing; the release that follows is blocked, starts no callback, ends the capture, and the
  -- waiting caller gets the signature of the release.
  pub mouse_hook-captured :
      (n b w_down d_down w_up d_up mods mods' : ℕ) (l : InputListener C)
      → l.capture_mode ≡ true
      → l.capture_chan ≡ none
      → mouse_event w_down d_down ≡ some (source_mouse_button, b ∷ mouse_button_edge_down ∷ [])
      → mouse_event w_up d_up ≡ some (source_mouse_button, b ∷ mouse_button_edge_up ∷ [])
      → let p = mouse_hook fnv (pos n) w_down d_down mods l in
        let r = mouse_hook fnv (pos n) w_up d_up mods' p.0 in
        (p ≡ (l, true, none))
        × (r.1 ≡ true)
        × (r.2 ≡ none)
        × (r.0.capture_mode ≡ false)
        × ((wait_for_capture r.0).0
            ≡ some
                (new_input_signature fnv source_mouse_button (b ∷ mouse_button_edge_up ∷ []) mods'))
  mouse_hook-captured n b w_down d_down w_up d_up mods mods' l on nothing down up =
      rw (hook_lem n w_down d_down mods _ _ l down, hook_lem n w_up d_up mods' _ _ _ up)
        (captured b mods mods' l on nothing)
