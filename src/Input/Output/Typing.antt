-- ===== src/Input/Output/Typing.antt =====
-- What a program receives from the two ways of typing.
use clip_queue.Prelude.{
  ℕ, ◌/◌, ◌%◌, ◌^◌, ◌≡◌, refl, ap, ◌∙◌, Bool, true, false, List, [], ◌∷◌, ◌++◌, none, map,
  if◌then◌else◌, length, Bool-cases, inl, inr, arith,
}
use clip_queue.Input.Sequence.{KeyboardInput, KeyState}
use clip_queue.Input.Sequence.Held.{key_of, releases, held_inputs}
use clip_queue.Input.Output.{
  unicode_rune_inputs, virtual_key_input, release_down, modifier_keys, text_inputs, type_string,
  key_if, has_flag, mapped_inputs, scanned_inputs, rune_inputs, Layouts, hardware_inputs,
  type_string_hardware,
}
use clip_queue.Input.Output.Chunks.{sent, send_all_lem}

-- The inputs that press something, in order: those without the flag of a release.
unfoldable pub presses : List KeyboardInput → List KeyboardInput
unfolding releases
presses [] = []
presses (input ∷ inputs) =
    let rest = presses inputs in if releases input then rest else input ∷ rest

-- The press that enters a UTF-16 unit, and no key.
abbrev pub unicode_press : ℕ → KeyboardInput
unicode_press unit' = record { wvk = 0; wscan = unit'; dw_flags = 4 }

presses-append : (xs ys : List KeyboardInput) → presses (xs ++ ys) ≡ presses xs ++ presses ys
unfolding presses
presses-append [] ys = refl
presses-append (x ∷ xs) ys = elim (Bool-cases (releases x)) [
  | inl up ↦ rw (presses, up) (presses-append xs ys)
  | inr down ↦ rw (presses, down) (ap (◌∷◌ x) (presses-append xs ys))
]

presses-release_down :
    (is_down : ℕ → Bool) (keys : List ℕ) → presses (release_down is_down keys) ≡ []
unfolding presses releases release_down virtual_key_input
presses-release_down is_down [] = refl
presses-release_down is_down (vk ∷ keys) = elim (Bool-cases (is_down vk)) [
  | inl down ↦ rw (release_down, down) (presses-release_down is_down keys)
  | inr up ↦ rw (release_down, up) (presses-release_down is_down keys)
]

presses-text_inputs :
    (text : List ℕ) → presses (text_inputs text) ≡ map (λ r. unicode_press (r % 2 ^ 16)) text
unfolding presses releases text_inputs unicode_rune_inputs
presses-text_inputs [] = refl
presses-text_inputs (r ∷ text) = ap (◌∷◌ (unicode_press (r % 2 ^ 16))) (presses-text_inputs text)

module _ (answer : ℕ → List KeyboardInput → ℕ) (last_error : ℕ → ℕ)
    (works : (i : ℕ) (chunk : List KeyboardInput) → answer i chunk ≡ length chunk) where
  -- If every call sends all that it is given, TypeString returns no error, and of all the inputs that
  -- it sends exactly these are no releases: for each rune of the text, in order, the press that enters
  -- its low sixteen bits as a UTF-16 unit.
  pub type_string-presses :
      (is_down : ℕ → Bool) (text : List ℕ)
      → let r = type_string answer last_error is_down text in
        (r.1 ≡ none) × (presses (sent r.0) ≡ map (λ r. unicode_press (r % 2 ^ 16)) text)
  unfolding type_string
  type_string-presses is_down text =
      let inputs = release_down is_down modifier_keys ++ text_inputs text in
      let (all, fine) = send_all_lem answer last_error inputs works in
      (
        fine,
        ap presses all
            ∙ presses-append (release_down is_down modifier_keys) (text_inputs text)
            ∙ ap (λ us. us ++ presses (text_inputs text))
                (presses-release_down is_down modifier_keys)
            ∙ presses-text_inputs text,
      )

held_inputs-append :
    (ks : KeyState) (xs ys : List KeyboardInput) (held : Bool)
    → held_inputs ks (xs ++ ys) held ≡ held_inputs ks ys (held_inputs ks xs held)
unfolding held_inputs
held_inputs-append ks [] ys held = refl
held_inputs-append ks (x ∷ xs) ys held = held_inputs-append ks xs ys _

-- The inputs of a rune with the three modifiers as Booleans.
abbrev pressed : Bool → Bool → Bool → ℕ → ℕ → List KeyboardInput
pressed ctrl alt shift vk scan_code =
    key_if ctrl 0x11 false
    ++ (key_if alt 0x12 false
        ++ (key_if shift 0x10 false
            ++ (record { wvk = vk; wscan = scan_code; dw_flags = 8 }
                ∷ record { wvk = vk; wscan = scan_code; dw_flags = 10 }
                ∷ (key_if shift 0x10 true ++ (key_if alt 0x12 true ++ key_if ctrl 0x11 true)))))

held-pressed :
    (ks : KeyState) (ctrl alt shift : Bool) (vk scan_code : ℕ)
    → held_inputs ks (pressed ctrl alt shift vk scan_code) false ≡ false
unfolding held_inputs key_of releases key_if virtual_key_input
held-pressed ks true true true vk scan_code = ground arith
held-pressed ks true true false vk scan_code = ground arith
held-pressed ks true false true vk scan_code = ground arith
held-pressed ks true false false vk scan_code = ground arith
held-pressed ks false true true vk scan_code = ground arith
held-pressed ks false true false vk scan_code = ground arith
held-pressed ks false false true vk scan_code = ground arith
held-pressed ks false false false vk scan_code = ground arith

held-mapped_inputs :
    (ks : KeyState) (vk mods scan_code : ℕ)
    → held_inputs ks (mapped_inputs vk mods scan_code) false ≡ false
unfolding mapped_inputs
held-mapped_inputs ks vk mods scan_code =
    held-pressed ks (has_flag mods 0x02) (has_flag mods 0x04) (has_flag mods 0x01) vk scan_code

held-unicode : (ks : KeyState) (r : ℕ) → held_inputs ks (unicode_rune_inputs r) false ≡ false
unfolding held_inputs key_of releases unicode_rune_inputs
held-unicode ks r = ground arith

held-scanned_inputs :
    (ks : KeyState) (map_virtual_key : ℕ → ℕ) (r raw : ℕ)
    → held_inputs ks (scanned_inputs map_virtual_key r raw) false ≡ false
unfolding scanned_inputs
held-scanned_inputs ks map_virtual_key r raw = ground (
  arith,
  held-unicode ks r,
  held-mapped_inputs ks (raw % 256) (raw / 256 % 256) (map_virtual_key (raw % 256) % 2 ^ 16),
)

held-rune_inputs :
    (ks : KeyState) (layouts : Layouts) (r : ℕ)
    → held_inputs ks (rune_inputs layouts r) false ≡ false
unfolding rune_inputs
held-rune_inputs ks layouts r = search held-scanned_inputs

held-nothing : (ks : KeyState) → held_inputs ks [] false ≡ false
unfolding held_inputs
held-nothing ks = refl

held-hardware_inputs :
    (ks : KeyState) (layouts : Layouts) (text : List ℕ)
    → held_inputs ks (hardware_inputs layouts text) false ≡ false
unfolding hardware_inputs
held-hardware_inputs ks layouts [] = held-nothing ks
held-hardware_inputs ks layouts (r ∷ text) =
    held_inputs-append ks (rune_inputs layouts r) (hardware_inputs layouts text) false
    ∙ ap (held_inputs ks (hardware_inputs layouts text)) (held-rune_inputs ks layouts r)
    ∙ held-hardware_inputs ks layouts text

held-release_down :
    (ks : KeyState) (is_down : ℕ → Bool) (keys : List ℕ)
    → held_inputs ks (release_down is_down keys) false ≡ false
unfolding held_inputs release_down virtual_key_input releases
held-release_down ks is_down [] = refl
held-release_down ks is_down (vk ∷ keys) = ground (arith, held-release_down ks is_down keys)

module _ (answer : ℕ → List KeyboardInput → ℕ) (last_error : ℕ → ℕ)
    (works : (i : ℕ) (chunk : List KeyboardInput) → answer i chunk ≡ length chunk) where
  -- If every call sends all that it is given, TypeStringHardware returns no error, and a key that is
  -- up before is up after it, the modifiers of the characters included.
  pub type_string_hardware-releases :
      (is_down : ℕ → Bool) (layouts : Layouts) (text : List ℕ) (ks : KeyState)
      → let r = type_string_hardware answer last_error is_down layouts text in
        (r.1 ≡ none) × (held_inputs ks (sent r.0) false ≡ false)
  unfolding type_string_hardware
  type_string_hardware-releases is_down layouts text ks =
      let first = release_down is_down modifier_keys in
      let inputs = first ++ hardware_inputs layouts text in
      let (all, fine) = send_all_lem answer last_error inputs works in
      (
        fine,
        ap (λ is. held_inputs ks is false) all
            ∙ held_inputs-append ks first (hardware_inputs layouts text) false
            ∙ ap (held_inputs ks (hardware_inputs layouts text))
                (held-release_down ks is_down modifier_keys)
            ∙ held-hardware_inputs ks layouts text,
      )
