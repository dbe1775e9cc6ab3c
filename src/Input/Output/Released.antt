-- ===== src/Input/Output/Released.antt =====
-- What the shortcut and the release of a hotkey's keys do to the keyboard.
use clip_queue.Prelude.{
  ℕ, ◌+◌, ◌%◌, ◌^◌, ◌≡◌, refl, ap, ◌∙◌, Bool, true, false, not, ◌&&◌, ◌||◌, String, List, [], ◌∷◌,
  ◌++◌, none, some, if◌then◌else◌, ◌==◌, length, str_eq, Bool-cases, inl, inr, arith, subst,
  append-nil, ◌≢◌, eq_iff,
}
use clip_queue.Input.Sequence.{KeyboardInput, KeyState}
use clip_queue.Input.Sequence.Held.{releases}
use clip_queue.Input.Hotkeys.{key_map, key_code}
use clip_queue.Input.Output.{vk_control, vk_menu, vk_v, virtual_key_input}
use clip_queue.Input.Output.Keys.{
  send_releases, is_seen, part_keys, release_key, release_keys, release_parts, release_inputs,
  release_hotkey_state,
}
use clip_queue.Input.Output.Chunks.{sent}

abbrev pub plain_key : ℕ → KeyState
plain_key vk = record { vk = vk; scan_code = 0; extended = false }

-- How often V goes down while Control is down and Alt is up.
unfoldable pub pastes_of : List KeyboardInput → Bool → Bool → ℕ
unfolding releases
pastes_of [] ctrl alt = 0
pastes_of (input ∷ inputs) ctrl alt =
    (if (input.wvk == vk_v) && (not (releases input) && (ctrl && not alt)) then 1 else 0)
    + pastes_of inputs (if input.wvk == vk_control then not (releases input) else ctrl)
        (if input.wvk == vk_menu then not (releases input) else alt)

-- How often a key goes down.
unfoldable pub presses_of : ℕ → List KeyboardInput → ℕ
unfolding releases
presses_of vk [] = 0
presses_of vk (input ∷ inputs) =
    (if (input.wvk == vk) && not (releases input) then 1 else 0) + presses_of vk inputs

-- How many inputs release the key, and whether all inputs are releases.
unfoldable pub releases_of : ℕ → List KeyboardInput → ℕ
unfolding releases
releases_of vk [] = 0
releases_of vk (input ∷ inputs) =
    releases_of vk inputs + (if (input.wvk == vk) && releases input then 1 else 0)

-- The virtual keys of the modifiers, under their names: the key itself, the left and the right one.
abbrev pub modifier_names : List (String × List ℕ)
modifier_names =
    ("CTRL", 17 ∷ 162 ∷ 163 ∷ [])
    ∷ ("CONTROL", 17 ∷ 162 ∷ 163 ∷ [])
    ∷ ("ALT", 18 ∷ 164 ∷ 165 ∷ [])
    ∷ ("SHIFT", 16 ∷ 160 ∷ 161 ∷ [])
    ∷ ("WIN", 91 ∷ 92 ∷ [])
    ∷ []

-- The keys under a name, or those of `others`.
unfoldable pub keys_under : String → List (String × List ℕ) → List ℕ → List ℕ
keys_under name [] others = others
keys_under name ((n, keys) ∷ names) others =
    let rest = keys_under name names others in if str_eq name n then keys else rest

-- The keys of a name: those of a modifier, or the one of the host's table of keys.
unfoldable pub keys_named : String → List ℕ
unfolding keys_under
keys_named name =
    keys_under name modifier_names
      (elim (key_code name key_map) [ none ↦ [] | some code ↦ code % 2 ^ 16 ∷ [] ])

-- The key is one of those that a part of the hotkey names.
unfoldable pub is_named : ℕ → (String → String) → List String → Bool
unfolding is_seen keys_named
is_named vk trim [] = false
is_named vk trim (part ∷ parts) = is_seen vk (keys_named (trim part)) || is_named vk trim parts

part_keys-keys_named : (part : String) → part_keys part ≡ keys_named part
unfolding part_keys keys_named keys_under
part_keys-keys_named part = elim (Bool-cases (str_eq part "CTRL")) [
  | inl e ↦ rw e refl
  | inr e ↦ elim (Bool-cases (str_eq part "CONTROL")) [
    | inl f ↦ rw (e, f) refl
    | inr f ↦ rw (e, f) refl
  ]
]

module _ (is_down : ℕ → Bool) (k : ℕ) where
  is_seen-release_key :
      (vk : ℕ) (seen : List ℕ)
      → is_seen k (release_key is_down vk seen) ≡ (is_seen k seen || ((vk == k) && is_down k))
  unfolding release_key is_seen
  is_seen-release_key vk seen = elim (Bool-cases (vk == k)) [
    | inl same ↦ let e : vk ≡ k = ground arith in rw (e) (ground arith)
    | inr other ↦ ground arith
  ]

  is_seen-release_keys :
      (keys seen : List ℕ)
      → is_seen k (release_keys is_down keys seen)
        ≡ (is_seen k seen || (is_seen k keys && is_down k))
  unfolding release_keys is_seen
  is_seen-release_keys [] seen = ground arith
  is_seen-release_keys (vk ∷ keys) seen =
      ground (
        arith,
        is_seen-release_keys keys (release_key is_down vk seen),
        is_seen-release_key vk seen,
      )

  is_seen-release_parts :
      (trim : String → String) (parts : List String) (seen : List ℕ)
      → is_seen k (release_parts is_down trim parts seen)
        ≡ (is_seen k seen || (is_named k trim parts && is_down k))
  unfolding release_parts is_named
  is_seen-release_parts trim [] seen = ground arith
  is_seen-release_parts trim (part ∷ parts) seen = ground (
    arith,
    is_seen-release_parts trim parts (release_keys is_down (part_keys (trim part)) seen),
    is_seen-release_keys (part_keys (trim part)) seen,
    ap (is_seen k) (part_keys-keys_named (trim part)),
  )

  releases_of-append :
      (xs ys : List KeyboardInput) → releases_of k (xs ++ ys) ≡ releases_of k xs + releases_of k ys
  unfolding releases_of
  releases_of-append [] ys = omega arith
  releases_of-append (x ∷ xs) ys = omega (arith, releases_of-append xs ys)

  -- Each key is released once.
  Once : List ℕ → Type 0
  Once seen = releases_of k (release_inputs seen) ≡ (if is_seen k seen then 1 else 0)

  one-release :
      (vk : ℕ) → releases_of k (virtual_key_input vk true ∷ []) ≡ (if vk == k then 1 else 0)
  unfolding releases_of releases virtual_key_input
  one-release vk = ground arith

  release_key-Once : (vk : ℕ) (seen : List ℕ) → Once seen → Once (release_key is_down vk seen)
  unfolding release_key release_inputs Once is_seen
  release_key-Once vk seen once = elim (Bool-cases (not (is_seen vk seen) && is_down vk)) [
    | inr skip ↦ rw skip once
    | inl add ↦ rw add (elim (Bool-cases (vk == k)) [
      | inl same ↦
          let e : vk ≡ k = ground arith in
          let unseen : is_seen k seen ≡ false =
            subst (λ x. is_seen x seen ≡ false) e (ground arith) in
          ground (
            arith,
            releases_of-append (release_inputs seen) (virtual_key_input vk true ∷ []),
            one-release vk,
          )
      | inr other ↦ ground (
        arith,
        releases_of-append (release_inputs seen) (virtual_key_input vk true ∷ []),
        one-release vk,
      )
    ])
  ]

  release_keys-Once : (keys seen : List ℕ) → Once seen → Once (release_keys is_down keys seen)
  unfolding release_keys
  release_keys-Once [] seen once = once
  release_keys-Once (vk ∷ keys) seen once =
      release_keys-Once keys (release_key is_down vk seen) (release_key-Once vk seen once)

  release_parts-Once :
      (trim : String → String) (parts : List String) (seen : List ℕ)
      → Once seen
      → Once (release_parts is_down trim parts seen)
  unfolding release_parts
  release_parts-Once trim [] seen once = once
  release_parts-Once trim (part ∷ parts) seen once =
      release_parts-Once trim parts (release_keys is_down (part_keys (trim part)) seen)
        (release_keys-Once (part_keys (trim part)) seen once)

  none-Once : Once []
  unfolding Once releases_of release_inputs is_seen
  none-Once = refl

  is_seen_from_none :
      (trim : String → String) (parts : List String)
      → is_seen k (release_parts is_down trim parts []) ≡ (is_named k trim parts && is_down k)
  unfolding is_seen
  is_seen_from_none trim parts = is_seen-release_parts trim parts []

  release_inputs_lem :
      (trim : String → String) (parts : List String)
      → releases_of k (release_inputs (release_parts is_down trim parts []))
        ≡ (if is_named k trim parts && is_down k then 1 else 0)
  unfolding Once
  release_inputs_lem trim parts =
      release_parts-Once trim parts [] none-Once
      ∙ ap (λ b. if b then 1 else 0) (is_seen_from_none trim parts)

sent-send_releases :
    (answer : ℕ → List KeyboardInput → ℕ) (last_error : ℕ → ℕ) (inputs : List KeyboardInput)
    → sent (send_releases answer last_error inputs).0 ≡ inputs
unfolding send_releases sent
sent-send_releases answer last_error [] = refl
sent-send_releases answer last_error (x ∷ inputs) =
    let nonzero : (length (x ∷ inputs) == 0) ≡ false = ground arith in
    elim (Bool-cases (answer 0 (x ∷ inputs) == length (x ∷ inputs))) [
      | inl fine ↦ rw (nonzero, fine) (ap (◌∷◌ x) (append-nil inputs))
      | inr short ↦ rw (nonzero, short) (ap (◌∷◌ x) (append-nil inputs))
    ]

-- For a hotkey that is not empty: each key is released exactly once if it is down and a part of the
-- hotkey names it, a modifier standing for its three keys (Windows for its two) and any other name for
-- the key of the host's table, and otherwise not at all.
pub release_hotkey_state_lem :
    (answer : ℕ → List KeyboardInput → ℕ) (last_error : ℕ → ℕ) (is_down : ℕ → Bool)
    (to_upper : String → String) (split : String → List String) (trim : String → String)
    (hotkey : String) (k : ℕ)
    → hotkey ≢ ""
    → releases_of k
        (sent (release_hotkey_state answer last_error is_down to_upper split trim hotkey).0)
      ≡ (if is_named k trim (split (to_upper hotkey)) && is_down k then 1 else 0)
unfolding release_hotkey_state
release_hotkey_state_lem answer last_error is_down to_upper split trim hotkey k h =
    let given : str_eq hotkey "" ≡ false = ground (arith, eq_iff hotkey "") in
    rw given (
      ap (releases_of k) (sent-send_releases answer last_error _)
      ∙ release_inputs_lem is_down k trim (split (to_upper hotkey)))
