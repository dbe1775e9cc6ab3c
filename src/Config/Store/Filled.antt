-- ===== src/Config/Store/Filled.antt =====
-- Filling in the signatures twice is the same as once.
use clip_queue.Prelude.{
  ℕ, ◌≡◌, ◌≢◌, refl, true, String, List, [], some, eq_iff, Option-cases, inl, inr, arith,
}
use clip_queue.Config.Types.{Config, HotkeysConfig}
use clip_queue.Config.Hotkeys.{
  HotkeyResult, found, unknown_key, no_key, signature_bytes, encode_hotkey,
  generate_signature_from_hotkey, parse_hotkey,
}
use clip_queue.Config.Store.{
  fill, ensure_toggle_ui, ensure_toggle_queue_order, ensure_paste_next, ensure_toggle_queue,
  ensure_signatures,
}

module _ (to_upper : String → String) (split : String → List String) (trim : String → String)
    (encode : List ℕ → String) (some_text : (bytes : List ℕ) → bytes ≢ [] → encode bytes ≢ "") where
  encoded_nonempty :
      (r : HotkeyResult) (text : String)
      → encode_hotkey to_upper split trim encode r ≡ some text
      → text ≢ ""
  unfolding encode_hotkey signature_bytes
  encoded_nonempty (found modifiers vk) text h =
      let nonempty = some_text (signature_bytes to_upper split trim modifiers vk) (λ e. cc) in
      λ e. nonempty cc
  encoded_nonempty (unknown_key part) text h = cc
  encoded_nonempty no_key text h = cc

  generated_nonempty :
      (display text : String)
      → generate_signature_from_hotkey to_upper split trim encode display ≡ some text
      → text ≢ ""
  unfolding generate_signature_from_hotkey
  generated_nonempty display text h =
      encoded_nonempty (parse_hotkey to_upper split trim display) text h

  fill-fill :
      (signature display filled : String)
      → fill to_upper split trim encode signature display ≡ some filled
      → fill to_upper split trim encode filled display ≡ some filled
  unfolding fill
  fill-fill signature display filled h =
      ground (arith, eq_iff signature "", eq_iff filled "", generated_nonempty display filled)

  abbrev Filled : HotkeysConfig → String → String → String → String → Type 0
  Filled h tq pn qo ui =
      (fill to_upper split trim encode h.toggle_queue h.toggle_queue_display ≡ some tq)
      × (fill to_upper split trim encode h.paste_next h.paste_next_display ≡ some pn)
      × (fill to_upper split trim encode h.toggle_queue_order h.toggle_queue_order_display
          ≡ some qo)
      × (fill to_upper split trim encode h.toggle_ui h.toggle_ui_display ≡ some ui)

  abbrev with_signatures : HotkeysConfig → String → String → String → String → HotkeysConfig
  with_signatures h tq pn qo ui = record h {
    toggle_queue = tq;
    paste_next = pn;
    toggle_queue_order = qo;
    toggle_ui = ui;
  }

  ensure-Filled :
      (h : HotkeysConfig) (tq pn qo ui : String)
      → Filled h tq pn qo ui
      → ensure_toggle_queue to_upper split trim encode h ≡ (true, with_signatures h tq pn qo ui)
  unfolding ensure_toggle_queue ensure_paste_next ensure_toggle_queue_order ensure_toggle_ui
  ensure-Filled h tq pn qo ui (f1, f2, f3, f4) =
      rw
        (
          ensure_toggle_queue, f1, ensure_paste_next, f2, ensure_toggle_queue_order, f3,
          ensure_toggle_ui, f4,
        )
        refl

  ensured :
      (h : HotkeysConfig)
      → (ensure_toggle_queue to_upper split trim encode h).0 ≡ true
      → (tq : String) × (pn : String) × (qo : String) × (ui : String) × Filled h tq pn qo ui
  unfolding ensure_toggle_queue ensure_paste_next ensure_toggle_queue_order ensure_toggle_ui
  ensured h ok =
      elim (Option-cases (fill to_upper split trim encode h.toggle_queue h.toggle_queue_display)) [
        | inl e ↦ cc (rw (ensure_toggle_queue, e) at ok)
        | inr (tq, f1) ↦
            elim (Option-cases
              (fill to_upper split trim encode h.paste_next h.paste_next_display)) [
                | inl e ↦ cc (rw (ensure_toggle_queue, f1, ensure_paste_next, e) at ok)
                | inr (pn, f2) ↦
                    elim (Option-cases (
                      fill to_upper split trim encode h.toggle_queue_order
                        h.toggle_queue_order_display)) [
                          | inl e ↦ cc (
                              rw
                                (
                                  ensure_toggle_queue, f1, ensure_paste_next, f2,
                                  ensure_toggle_queue_order, e,
                                )
                                at ok)
                          | inr (qo, f3) ↦
                              elim (Option-cases
                                (fill to_upper split trim encode h.toggle_ui h.toggle_ui_display)) [
                                  | inl e ↦ cc (
                                      rw
                                        (
                                          ensure_toggle_queue, f1, ensure_paste_next, f2,
                                          ensure_toggle_queue_order, f3, ensure_toggle_ui, e,
                                        )
                                        at ok)
                                  | inr (ui, f4) ↦ (tq, pn, qo, ui, (f1, f2, f3, f4))
                                ]
                        ]
              ]
      ]

  -- If no bytes but none encode to the empty text: filling in the signatures of a configuration a
  -- second time, where it succeeded the first time, succeeds and changes nothing.
  ensure_signatures-ensure_signatures :
      (cfg : Config)
      → (ensure_signatures to_upper split trim encode cfg).0 ≡ true
      → ensure_signatures to_upper split trim encode
          (ensure_signatures to_upper split trim encode cfg).1
        ≡ (true, (ensure_signatures to_upper split trim encode cfg).1)
  unfolding ensure_signatures
  ensure_signatures-ensure_signatures cfg ok =
      let (tq, pn, qo, ui, (f1, f2, f3, f4)) = ensured cfg.hotkeys ok in
      let h = cfg.hotkeys in
      rw
        (
          ensure-Filled h tq pn qo ui (f1, f2, f3, f4),
          ensure-Filled (with_signatures h tq pn qo ui) tq pn qo ui (
            fill-fill h.toggle_queue h.toggle_queue_display tq f1,
            fill-fill h.paste_next h.paste_next_display pn f2,
            fill-fill h.toggle_queue_order h.toggle_queue_order_display qo f3,
            fill-fill h.toggle_ui h.toggle_ui_display ui f4,
          ),
        )
        refl
