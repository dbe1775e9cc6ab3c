-- ===== src/Input/Registration/Allowed.antt =====
-- No event starts what the configuration has switched off.
use clip_queue.Prelude.{
  ◌≡◌, refl, ◌⊎◌, inl, inr, Bool, true, false, not, ◌&&◌, String, List, [], ◌∷◌, ◌++◌, Option, none,
  some, if◌then◌else◌, str_eq, ◌==◌, Bool-cases, subst, ℕ,
}
use clip_queue.Config.Types.{Config, Macro}
use clip_queue.Input.Signature.{InputSignature}
use clip_queue.Input.Matcher.{
  Registered, Entries, SignatureMatcher, new_signature_matcher, append_entry, register, all_entries,
  get_all, match_signature,
}
use clip_queue.Input.Matcher.Lookup.{
  In, In-append, In-append_left, In-append_right, match_signature-Hit,
}
use clip_queue.Input.Registration.{
  Callback, on_toggle_ui, on_toggle_queue, on_paste_next, on_toggle_queue_order, run_macro,
  register_parsed, register_toggle_ui, register_toggle_queue, register_paste_next,
  register_toggle_queue_order, register_macro, register_macros, register_configured_hotkeys,
}

abbrev pub Among : Macro → List Macro → Type 0
Among macro [] = ⊥
Among macro (m ∷ macros) = (m ≡ macro) ⊎ Among macro macros

-- What a configuration allows to be started.
abbrev pub Allowed : Config → Callback → Type 0
Allowed cfg on_toggle_ui = str_eq cfg.hotkeys.toggle_ui "" ≡ false
Allowed cfg on_toggle_queue = cfg.features.enable_queue ≡ true
Allowed cfg on_paste_next = cfg.features.enable_queue ≡ true
Allowed cfg on_toggle_queue_order = cfg.features.enable_queue ≡ true
Allowed cfg (run_macro macro) =
    (cfg.features.enable_macros ≡ true) × (macro.enabled ≡ true) × Among macro cfg.macros

In-one : {C : Type 0} {new reg : Registered C} → In reg (new ∷ []) → new ≡ reg
In-one (inl e) = e
In-one (inr nothing) = absurd nothing

module _ {C : Type 0} where
  In-append_entry :
      (hash : ℕ) (new : Registered C) (entries : Entries C) (reg : Registered C)
      → In reg (all_entries (append_entry hash new entries))
      → (new ≡ reg) ⊎ In reg (all_entries entries)
  unfolding append_entry all_entries
  In-append_entry hash new [] reg h = inl (In-one h)
  In-append_entry hash new ((k, regs) ∷ entries) reg h = elim (Bool-cases (k == hash)) [
    | inl here ↦
        elim (In-append reg (regs ++ new ∷ []) (all_entries entries)
          (rw (append_entry, here) at h)) [
            | inl a ↦ elim (In-append reg regs (new ∷ []) a) [
              | inl b ↦ inr (In-append_left reg regs (all_entries entries) b)
              | inr c ↦ inl (In-one c)
            ]
            | inr b ↦ inr (In-append_right reg regs (all_entries entries) b)
          ]
    | inr there ↦
        elim (In-append reg regs (all_entries (append_entry hash new entries))
          (rw (append_entry, there) at h)) [
            | inl b ↦ inr (In-append_left reg regs (all_entries entries) b)
            | inr t ↦ elim (In-append_entry hash new entries reg t) [
              | inl e ↦ inl e
              | inr b ↦ inr (In-append_right reg regs (all_entries entries) b)
            ]
          ]
  ]

-- The registered callbacks are all allowed.
abbrev Safe : Config → SignatureMatcher Callback → Type 0
Safe cfg m = (reg : Registered Callback) → In reg (get_all m) → Allowed cfg reg.callback

register_parsed-Safe :
    (cfg : Config) (o : Option InputSignature) (id : String) (callback : Callback)
    (m : SignatureMatcher Callback)
    → Allowed cfg callback
    → Safe cfg m
    → Safe cfg (register_parsed o id callback m)
unfolding register_parsed register get_all
register_parsed-Safe cfg none id callback m allowed safe reg h = safe reg h
register_parsed-Safe cfg (some sig) id callback m allowed safe reg h =
    elim (In-append_entry sig.hash (record { signature = sig; callback = callback; id = id })
      m.signatures reg h) [
        | inl e ↦ subst (λ r. Allowed cfg r.callback) e allowed
        | inr old ↦ safe reg old
      ]

if-Safe :
    (cfg : Config) (test : Bool) (m m' : SignatureMatcher Callback)
    → (test ≡ true → Safe cfg m)
    → (test ≡ false → Safe cfg m')
    → Safe cfg (if test then m else m')
if-Safe cfg true m m' h h' = h refl
if-Safe cfg false m m' h h' = h' refl

and_left : (a b : Bool) → (a && b) ≡ true → a ≡ true
and_left true b h = refl
and_left false b h = h

is_set : (a : Bool) → not a ≡ false → a ≡ true
is_set true h = refl
is_set false h = cc

module _ (parse : String → Option InputSignature) (cfg : Config) where
  toggle_ui-Safe :
      (m : SignatureMatcher Callback) → Safe cfg m → Safe cfg (register_toggle_ui parse cfg m)
  unfolding register_toggle_ui
  toggle_ui-Safe m safe =
      if-Safe cfg _ _ _ (λ off. safe) (λ on. register_parsed-Safe cfg _ _ on_toggle_ui m on safe)

  toggle_queue-Safe :
      (m : SignatureMatcher Callback) → Safe cfg m → Safe cfg (register_toggle_queue parse cfg m)
  unfolding register_toggle_queue
  toggle_queue-Safe m safe =
      if-Safe cfg _ _ _ (λ on. register_parsed-Safe cfg _ _ on_toggle_queue m on safe) (λ off. safe)

  paste_next-Safe :
      (m : SignatureMatcher Callback) → Safe cfg m → Safe cfg (register_paste_next parse cfg m)
  unfolding register_paste_next
  paste_next-Safe m safe =
      if-Safe cfg _ _ _ (λ on. register_parsed-Safe cfg _ _ on_paste_next m on safe) (λ off. safe)

  toggle_queue_order-Safe :
      (m : SignatureMatcher Callback)
      → Safe cfg m
      → Safe cfg (register_toggle_queue_order parse cfg m)
  unfolding register_toggle_queue_order
  toggle_queue_order-Safe m safe =
      let given = not (str_eq cfg.hotkeys.toggle_queue_order "") in
      let sig = parse cfg.hotkeys.toggle_queue_order in
      if-Safe cfg (cfg.features.enable_queue && given)
        (register_parsed sig "toggle_queue_order" on_toggle_queue_order m) m
        (λ on.
          register_parsed-Safe cfg sig "toggle_queue_order" on_toggle_queue_order m
            (and_left cfg.features.enable_queue given on) safe)
        (λ off. safe)

  register_macro-Safe :
      (macro : Macro) (m : SignatureMatcher Callback)
      → cfg.features.enable_macros ≡ true
      → Among macro cfg.macros
      → Safe cfg m
      → Safe cfg (register_macro parse macro m)
  unfolding register_macro
  register_macro-Safe macro m on among safe =
      if-Safe cfg _ _ _ (λ off. safe)
        (λ enabled.
          register_parsed-Safe cfg _ _ (run_macro macro) m (on, is_set macro.enabled enabled, among)
            safe)

  register_macros-Safe :
      (macros : List Macro) (m : SignatureMatcher Callback)
      → cfg.features.enable_macros ≡ true
      → ((macro : Macro) → Among macro macros → Among macro cfg.macros)
      → Safe cfg m
      → Safe cfg (register_macros parse macros m)
  unfolding register_macros
  register_macros-Safe [] m on all safe = safe
  register_macros-Safe (macro ∷ macros) m on all safe =
      register_macros-Safe macros (register_macro parse macro m) on (λ other h. all other (inr h))
        (register_macro-Safe macro m on (all macro (inl refl)) safe)

  configured-Safe :
      (m : SignatureMatcher Callback)
      → Safe cfg m
      → Safe cfg (register_configured_hotkeys parse cfg m)
  unfolding register_configured_hotkeys
  configured-Safe m safe =
      let own =
        toggle_queue_order-Safe _
          (paste_next-Safe _ (toggle_queue-Safe _ (toggle_ui-Safe m safe))) in
      if-Safe cfg _ _ _ (λ on. register_macros-Safe cfg.macros _ on (λ macro h. h) own) (λ off. own)

  new-Safe : Safe cfg new_signature_matcher
  unfolding new_signature_matcher get_all all_entries
  new-Safe reg h = absurd h

  -- Whatever event is matched in a new matcher with the configured hotkeys: what it starts is
  -- switched on, that is the UI hotkey is set, the queue feature is on for the three queue hotkeys,
  -- and a macro is an enabled one of the configuration, with the macro feature on.
  pub register_configured_hotkeys-Allowed :
      (sig : InputSignature) (callback : Callback)
      → match_signature sig (register_configured_hotkeys parse cfg new_signature_matcher)
        ≡ some callback
      → Allowed cfg callback
  register_configured_hotkeys-Allowed sig callback h =
      let (reg, inside, same, e) = match_signature-Hit sig _ callback h in
      subst (Allowed cfg) e (configured-Safe new_signature_matcher new-Safe reg inside)
