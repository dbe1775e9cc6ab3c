-- ===== src/Config/Hotkeys/Valid.antt =====
-- What the check of the configuration lets through.
use clip_queue.Prelude.{
  ℕ, ◌+◌, ◌≡◌, ◌≢◌, ◌↔◌, ◌⊎◌, refl, Bool, true, String, List, [], ◌∷◌, none, All, arith, eq_iff,
  inl, inr, Option-cases,
}
use clip_queue.Config.Types.{Config, Macro}
use clip_queue.Config.Hotkeys.{valid_mode, validate_macro, validate_macros, validate_config}

module _ (is_base64 : String → Bool) (trim_sig : String → String) where
  pub record IsSound (macro : Macro) : Type 0 where
    pub has_hotkey : macro.hotkey ≢ ""
    pub has_signature : macro.signature ≢ ""
    pub signature_read : is_base64 (trim_sig macro.signature) ≡ true
    pub sequence_read : (macro.sequence ≡ "") ⊎ (is_base64 macro.sequence ≡ true)
    pub mode_known :
        (macro.mode ≡ "type")
        ⊎ (macro.mode ≡ "paste")
        ⊎ (macro.mode ≡ "type_hw")
        ⊎ (macro.mode ≡ "sequence")

  validate_macro-IsSound :
      (i : ℕ) (macro : Macro) → validate_macro is_base64 trim_sig i macro ≡ none → IsSound macro
  unfolding validate_macro valid_mode
  validate_macro-IsSound i macro h = record {
    has_hotkey = ground (arith, eq_iff macro.hotkey "");
    has_signature = ground (arith, eq_iff macro.signature "");
    signature_read = ground arith;
    sequence_read = ground (arith, eq_iff macro.sequence "");
    mode_known = ground (
      arith,
      eq_iff macro.mode "type",
      eq_iff macro.mode "paste",
      eq_iff macro.mode "type_hw",
      eq_iff macro.mode "sequence",
    );
  }

  IsSound-validate_macro :
      (i : ℕ) (macro : Macro) → IsSound macro → validate_macro is_base64 trim_sig i macro ≡ none
  unfolding validate_macro valid_mode
  IsSound-validate_macro i macro h =
      let hotkey = h.has_hotkey in
      let signature = h.has_signature in
      let read = h.signature_read in
      let sequence = h.sequence_read in
      let mode = h.mode_known in
      ground (
        arith,
        eq_iff macro.hotkey "",
        eq_iff macro.signature "",
        eq_iff macro.sequence "",
        eq_iff macro.mode "type",
        eq_iff macro.mode "paste",
        eq_iff macro.mode "type_hw",
        eq_iff macro.mode "sequence",
      )

  validate_macros-IsSound :
      (i : ℕ) (macros : List Macro)
      → validate_macros is_base64 trim_sig i macros ≡ none
      → All IsSound macros
  unfolding validate_macros
  validate_macros-IsSound i [] h = tt
  validate_macros-IsSound i (macro ∷ macros) h =
      elim (Option-cases (validate_macro is_base64 trim_sig i macro)) [
        | inl fine ↦ (
          validate_macro-IsSound i macro fine,
          validate_macros-IsSound (i + 1) macros (rw (validate_macros, fine) at h),
        )
        | inr (e, bad) ↦ cc (rw (validate_macros, bad) at h)
      ]

  IsSound-validate_macros :
      (i : ℕ) (macros : List Macro)
      → All IsSound macros
      → validate_macros is_base64 trim_sig i macros ≡ none
  unfolding validate_macros
  IsSound-validate_macros i [] h = refl
  IsSound-validate_macros i (macro ∷ macros) (sound, rest) =
      rw (validate_macros, IsSound-validate_macro i macro sound)
        (IsSound-validate_macros (i + 1) macros rest)

  -- The check of a configuration passes exactly when each of its macros has a hotkey, a signature
  -- in base64, a sequence in base64 or none, and one of the four modes.
  pub validate_config_iff :
      (cfg : Config) → (validate_config is_base64 trim_sig cfg ≡ none) ↔ All IsSound cfg.macros
  unfolding validate_config
  validate_config_iff cfg =
      (validate_macros-IsSound 0 cfg.macros, IsSound-validate_macros 0 cfg.macros)
