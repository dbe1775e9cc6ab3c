-- ===== src/Uihost/Fallback/Panics.antt =====
-- Which calls cannot meet a nil host.
use clip_queue.Prelude.{
  ◌≡◌, ◌≢◌, refl, ◌⊎◌, Bool, true, false, String, List, [], ◌∷◌, Option, none, some, All,
  Bool-cases, inl, inr, ◌∙◌,
}
use clip_queue.Uihost.Fallback.{
  UiHost, FallbackUiHost, Outcome, returned, panicked, active, switch_to_fallback,
  new_fallback_ui_host, retry, settle, on_host, attempt, hide, hide_host, close, switch_on,
  navigate, Call, show, toggle, focus, hide_it, close_it, navigate_to, perform, run,
}

-- Every operation but Navigate.
unfoldable pub is_window_call : Call → Bool
is_window_call (navigate_to url) = false
is_window_call _ = true

returned-panicked : (e : Option String) → returned e ≢ panicked
returned-panicked e h = cc

module _ {W : Type 0} where
  -- The active host is there.
  abbrev HasActive : FallbackUiHost W → Type 0
  HasActive h = (host : UiHost W) × (active h ≡ some host)

  -- No panic, and the fallback is still the same.
  abbrev Fine : Option (UiHost W) → Outcome × FallbackUiHost W × W → Type 0
  Fine fallback r = (r.0 ≢ panicked) × HasActive r.1 × (r.1.fallback ≡ fallback)

  retry-Fine :
      (op : UiHost W → W → Option String × W) (fallback : Option (UiHost W)) (h : FallbackUiHost W)
      (w : W)
      → h.fallback ≡ fallback
      → HasActive h
      → Fine fallback (retry op fallback h w)
  unfolding retry switch_to_fallback active
  retry-Fine op none h w e has = (returned-panicked none, has, e)
  retry-Fine op (some f) h w e has = elim (Bool-cases h.use_fallback) [
    | inl used ↦ rw used (returned-panicked none, (f, e), e)
    | inr fresh ↦ rw fresh (returned-panicked (op f w).0, (f, e), e)
  ]

  settle-Fine :
      (op : UiHost W → W → Option String × W) (h : FallbackUiHost W) (e : Option String) (w : W)
      → HasActive h
      → Fine h.fallback (settle op h (e, w))
  unfolding settle
  settle-Fine op h none w has = (returned-panicked none, has, refl)
  settle-Fine op h (some e) w has = retry-Fine op h.fallback h w refl has

  attempt-Fine :
      (op : UiHost W → W → Option String × W) (h : FallbackUiHost W) (w : W)
      → HasActive h
      → Fine h.fallback (attempt op h w)
  unfolding attempt on_host
  attempt-Fine op h w (host, e) =
      rw (attempt, e) (settle-Fine op h (op host w).0 (op host w).1 (host, e))

  hide-Fine : (h : FallbackUiHost W) (w : W) → HasActive h → Fine h.fallback (hide h w)
  unfolding hide hide_host
  hide-Fine h w (host, e) = rw (hide, e) (returned-panicked (host.hide w).0, (host, e), refl)

  -- The call does not switch to a host that is not there.
  abbrev pub IsSafe : Option (UiHost W) → Call → Type 0
  IsSafe fallback call = (is_window_call call ≡ true) ⊎ ((host : UiHost W) × (fallback ≡ some host))

  switch_on-Fine :
      (failed e : Option String) (url : String) (h : FallbackUiHost W) (w : W)
      → HasActive h
      → IsSafe h.fallback (navigate_to url)
      → Fine h.fallback (returned e, switch_on failed h, w)
  unfolding switch_on switch_to_fallback active is_window_call
  switch_on-Fine none e url h w has safe = (returned-panicked e, has, refl)
  switch_on-Fine (some bad) e url h w has (inl window) = cc
  switch_on-Fine (some bad) e url h w has (inr there) = (returned-panicked e, there, refl)

  perform-Fine :
      (call : Call) (h : FallbackUiHost W) (w : W)
      → HasActive h
      → IsSafe h.fallback call
      → Fine h.fallback (perform call h w)
  unfolding perform close navigate
  perform-Fine show h w has safe = attempt-Fine _ h w has
  perform-Fine toggle h w has safe = attempt-Fine _ h w has
  perform-Fine focus h w has safe = attempt-Fine _ h w has
  perform-Fine hide_it h w has safe = hide-Fine h w has
  perform-Fine close_it h w has safe = (returned-panicked _, has, refl)
  perform-Fine (navigate_to url) h w has safe =
      switch_on-Fine _ _ url h (perform (navigate_to url) h w).2 has safe

  run-Fine :
      (calls : List Call) (h : FallbackUiHost W) (fallback : Option (UiHost W)) (w : W)
      → HasActive h
      → h.fallback ≡ fallback
      → All (IsSafe fallback) calls
      → All (λ outcome. outcome ≢ panicked) (run calls h w).0
  unfolding run
  run-Fine [] h fallback w has e safe = tt
  run-Fine (call ∷ calls) h fallback w has e (this, safe) =
      let (fine, has', e') = perform-Fine call h w has (rw e this) in
      (fine, run-Fine calls (perform call h w).1 fallback (perform call h w).2 has' (e' ∙ e) safe)

  -- A host that is made with a primary: whatever fails, no call of any history panics, if there is a
  -- fallback too or no call is Navigate.
  pub run-panicked :
      (p : UiHost W) (fallback : Option (UiHost W)) (calls : List Call) (w : W)
      → All (IsSafe fallback) calls
      → All (λ outcome. outcome ≢ panicked) (run calls (new_fallback_ui_host (some p) fallback) w).0
  unfolding new_fallback_ui_host active
  run-panicked p fallback calls w safe =
      run-Fine calls (new_fallback_ui_host (some p) fallback) fallback w (p, refl) refl safe
