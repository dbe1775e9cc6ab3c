-- ===== src/Uihost/Fallback/Sticky.antt =====
-- The primary is left alone once the fallback is in use.
use clip_queue.Prelude.{
  ◌≡◌, refl, true, String, List, [], ◌∷◌, map, Option, some, Option-cases, inl, inr,
}
use clip_queue.Uihost.Fallback.{
  UiHost, FallbackUiHost, active, retry, settle, on_host, attempt, hide, hide_host, Call, show,
  toggle, focus, hide_it, perform, run,
}

-- The four operations that address the active host.
pub data WindowCall : Type 0 where
  show_window toggle_window focus_window hide_window : WindowCall

abbrev pub as_call : WindowCall → Call
as_call show_window = show
as_call toggle_window = toggle
as_call focus_window = focus
as_call hide_window = hide_it

module _ {W : Type 0} where
  -- The operation of one host alone.
  pub operate : WindowCall → UiHost W → W → Option String × W
  operate show_window host w = host.show w
  operate toggle_window host w = host.toggle w
  operate focus_window host w = host.focus w
  operate hide_window host w = host.hide w

  pub operate_all : List WindowCall → UiHost W → W → W
  operate_all [] host w = w
  operate_all (c ∷ calls) host w = operate_all calls host (operate c host w).1

  attempt_used :
      (op : UiHost W → W → Option String × W) (h : FallbackUiHost W) (f : UiHost W) (w : W)
      → h.use_fallback ≡ true
      → h.fallback ≡ some f
      → (attempt op h w).1 ≡ h × (attempt op h w).2 ≡ (op f w).1
  unfolding attempt on_host settle retry active
  attempt_used op h f w used hf = elim (Option-cases (op f w).0) [
    | inl fine ↦ rw (used, hf, fine) (refl, refl)
    | inr (e, failed) ↦ rw (used, hf, failed) (refl, refl)
  ]

  hide_used :
      (h : FallbackUiHost W) (f : UiHost W) (w : W)
      → h.use_fallback ≡ true
      → h.fallback ≡ some f
      → (hide h w).1 ≡ h × (hide h w).2 ≡ (f.hide w).1
  unfolding hide hide_host active
  hide_used h f w used hf = rw (used, hf) (refl, refl)

  perform_used :
      (c : WindowCall) (h : FallbackUiHost W) (f : UiHost W) (w : W)
      → h.use_fallback ≡ true
      → h.fallback ≡ some f
      → (perform (as_call c) h w).1 ≡ h × (perform (as_call c) h w).2 ≡ (operate c f w).1
  unfolding perform operate
  perform_used show_window h f w used hf = attempt_used (λ host. host.show) h f w used hf
  perform_used toggle_window h f w used hf = attempt_used (λ host. host.toggle) h f w used hf
  perform_used focus_window h f w used hf = attempt_used (λ host. host.focus) h f w used hf
  perform_used hide_window h f w used hf = hide_used h f w used hf

  -- Once the fallback is in use, showing, toggling, focusing and hiding in any order call the
  -- fallback alone: what happens outside is what its own operations do, the primary is not called
  -- again, and the fallback stays in use.
  pub run-operate_all :
      (calls : List WindowCall) (h : FallbackUiHost W) (f : UiHost W) (w : W)
      → h.use_fallback ≡ true
      → h.fallback ≡ some f
      → ((run (map as_call calls) h w).1 ≡ h)
        × ((run (map as_call calls) h w).2 ≡ operate_all calls f w)
  unfolding run operate_all
  run-operate_all [] h f w used hf = (refl, refl)
  run-operate_all (c ∷ calls) h f w used hf =
      let (same, moved) = perform_used c h f w used hf in
      rw (run, same, moved) (run-operate_all calls h f (operate c f w).1 used hf)
