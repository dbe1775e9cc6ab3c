-- ===== src/Host/Reload.antt =====
-- Saving the settings and the message that follows put the new hotkeys in the place of the old.
use clip_queue.Prelude.{
  ℕ, suc, ◌+◌, true, false, ◌&&◌, String, List, [], ◌∷◌, Option, none, some, ◌≡◌, refl, ◌⊎◌, inl,
  inr, Option-cases, All, get_elem?, subst, arith,
}
use clip_queue.Config.Types.{Config, Macro}
use clip_queue.Config.Store.{apply_change, wanted, commit}
use clip_queue.Controller.Queue.{set_order_strategy}
use clip_queue.Input.Signature.{InputSignature}
use clip_queue.Input.Matcher.{new_signature_matcher, unregister_all}
use clip_queue.Input.Registration.{register_configured_hotkeys}
use clip_queue.Server.Settings.{
  Served, SaveResult, saved, invalid_macro, not_saved, is_none, first_invalid, after_update,
  save_config,
}
use clip_queue.Host.{Host, reload_config, window_proc}

module _ (parse : String → Option InputSignature) {V W : Type 0}
    (save : Config → V → Option String × V) (host : Host) (new_cfg : Config) (st : Served V W) where
  -- The host reads neither the hotkey nor the signature of the macro.
  abbrev pub IsUnread : Macro → Type 0
  IsUnread macro = (parse macro.hotkey ≡ none) × (parse macro.signature ≡ none)

  -- The host reads the hotkey or the signature of the macro.
  abbrev pub IsRead : Macro → Type 0
  IsRead macro =
      ((key : InputSignature) × (parse macro.hotkey ≡ some key))
      ⊎ ((key : InputSignature) × (parse macro.signature ≡ some key))

  -- All macros are read and saved, and everything is in place; or a macro is not read, which the
  -- result names, and nothing has happened; or the save failed with the error of the result, and only
  -- the file may have changed.
  abbrev pub Applied : SaveResult × Served V W → Type 0
  Applied r =
      (All IsRead new_cfg.macros
        × ((save new_cfg st.file).0 ≡ none)
        × (r.0 ≡ saved)
        × (r.1.reloads ≡ suc st.reloads)
        × (r.1.config ≡ new_cfg)
        × (r.1.sys ≡ (set_order_strategy new_cfg.queue.default_order st.sys).1)
        × (r.1.file ≡ (save new_cfg st.file).1)
        × ((window_proc parse r.1.config reload_config host).1.matcher
            ≡ register_configured_hotkeys parse new_cfg new_signature_matcher))
      ⊎ (((i : ℕ) × (macro : Macro) × (get_elem? new_cfg.macros i ≡ some macro)
            × IsUnread macro
            × (r.0 ≡ invalid_macro i macro)
            × (r.1 ≡ st))
          ⊎ ((e : String) × ((save new_cfg st.file).0 ≡ some e)
              × (r.0 ≡ not_saved e)
              × (r.1 ≡ record st { file = (save new_cfg st.file).1 })))

  -- What the loop finds from the number `n` on.
  abbrev Found : ℕ → List Macro → Option (ℕ × Macro) → Type 0
  Found n macros none = All IsRead macros
  Found n macros (some bad) =
      (i : ℕ) × (bad.0 ≡ n + i) × (get_elem? macros i ≡ some bad.1) × IsUnread bad.1

  macro_cases :
      (macro : Macro)
      → ((is_none (parse macro.hotkey) && is_none (parse macro.signature) ≡ true) × IsUnread macro)
        ⊎ ((is_none (parse macro.hotkey) && is_none (parse macro.signature) ≡ false) × IsRead macro)
  macro_cases macro = elim (Option-cases (parse macro.hotkey)) [
    | inr (key, e) ↦ rw e (inr (refl, inl (key, refl)))
    | inl no_hotkey ↦ elim (Option-cases (parse macro.signature)) [
      | inr (key, e) ↦ rw (no_hotkey, e) (inr (refl, inr (key, refl)))
      | inl no_signature ↦ rw (no_hotkey, no_signature) (inl (refl, (refl, refl)))
    ]
  ]

  after_first :
      (n : ℕ) (macro : Macro) (macros : List Macro) (r : Option (ℕ × Macro))
      → IsRead macro
      → Found (n + 1) macros r
      → Found n (macro ∷ macros) r
  after_first n macro macros none read all = (read, all)
  after_first n macro macros (some bad) read (i, at, e, unread) =
      (suc i, omega (arith, at), e, unread)

  first_invalid-Found :
      (n : ℕ) (macros : List Macro) → Found n macros (first_invalid parse n macros)
  unfolding first_invalid
  first_invalid-Found n [] = tt
  first_invalid-Found n (macro ∷ macros) = elim (macro_cases macro) [
    | inl (bad, unread) ↦ rw (first_invalid, bad) (0, omega arith, refl, unread)
    | inr (fine, read) ↦
        rw (first_invalid, fine)
          (after_first n macro macros (first_invalid parse (n + 1) macros) read
            (first_invalid-Found (n + 1) macros))
  ]

  save-Applied :
      All IsRead new_cfg.macros
      → (e : Option String) → (save new_cfg st.file).0 ≡ e
      → Applied (
          after_update parse save new_cfg st (
            (commit save new_cfg st.config e).0,
            ((commit save new_cfg st.config e).1, (save new_cfg st.file).1),
          ))
  unfolding after_update commit window_proc unregister_all new_signature_matcher
  save-Applied read none fine = inl (read, fine, refl, refl, refl, refl, refl, refl)
  save-Applied read (some e) failed = inr (inr (e, failed, refl, refl))

  -- A save over the settings does one of three things. If the host reads a hotkey or a signature of
  -- every macro and the file is written, it reports success, the new configuration is in memory, the
  -- controller has been told its order, the reload is asked for once, and then the window has exactly the hotkeys of a fresh registration of
  -- it, whatever was registered before. If a macro is read neither way, it reports a macro like that
  -- with its number, and nothing has happened. If the write failed, it reports the error, and the
  -- configuration and the controller are as they were and no reload is asked for.
  pub save_config-Applied : Applied (save_config parse save true new_cfg st)
  unfolding save_config apply_change wanted
  save_config-Applied = settled (first_invalid parse 0 new_cfg.macros) refl
    where
      settled :
          (r : Option (ℕ × Macro))
          → first_invalid parse 0 new_cfg.macros ≡ r
          → Applied (save_config parse save true new_cfg st)
      settled none e =
          let found : All IsRead new_cfg.macros =
            subst (Found 0 new_cfg.macros) e (first_invalid-Found 0 new_cfg.macros) in
          rw (save_config, e) (save-Applied found (save new_cfg st.file).0 refl)
      settled (some bad) e =
          let (i, at, here, unread) =
            subst (Found 0 new_cfg.macros) e (first_invalid-Found 0 new_cfg.macros) in
          let there : get_elem? new_cfg.macros bad.0 ≡ some bad.1 =
            subst (λ k. get_elem? new_cfg.macros k ≡ some bad.1) (omega (arith, at)) here in
          rw (save_config, e) (inr (inl (bad.0, bad.1, there, unread, refl, refl)))
