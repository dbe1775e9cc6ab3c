-- ===== src/Host/Lifecycle.antt =====
-- What the host has of Windows after a start is given back when its message loop has ended, as far as
-- Windows takes it.
use clip_queue.Prelude.{
  ℕ, Bool, true, false, not, String, [], ◌∷◌, Option, none, some, if◌then◌else◌, ◌==◌, ◌&&◌, List,
  ◌≡◌, refl, ap, Bool-cases, inl, inr, arith,
}
use clip_queue.Config.Types.{Config}
use clip_queue.Input.Signature.{InputSignature}
use clip_queue.Input.Matcher.{SignatureMatcher}
use clip_queue.Input.Registration.{Callback}
use clip_queue.Host.{
  Answers, Closing, StartError, Host, new_host, without, unhook, start_listener, stop_listener,
  start_tray, start_features, after_listener, start, cleanup,
}

-- The hooks that Windows does not remove.
unfoldable pub refused : (ℕ → Bool) → List ℕ → List ℕ
refused unhooks [] = []
refused unhooks (h ∷ hooks) =
    let rest = refused unhooks hooks in if unhooks h then rest else h ∷ rest

-- `after` is what `before` is once it has tried to give back everything: of each thing exactly that is
-- left which Windows refused to take.
pub record IsReleased (closing : Closing) (before after : Host) : Type 0 where
  pub hooks : after.hooks ≡ refused closing.unhooks before.hooks
  pub listener : after.has_listener ≡ (before.has_listener && not closing.removes_listener)
  pub icon : after.has_icon ≡ (before.has_icon && not closing.removes_icon)
  pub owner : after.clipboard_owner ≡ 0
  pub window : after.has_window ≡ (before.has_window && not closing.destroys_window)
  pub class' : after.has_class ≡ (before.has_class && not closing.unregisters_class)
  pub handles : (after.keyboard_hook ≡ 0) × (after.mouse_hook ≡ 0)

-- The two hooks that the fields name are all that are installed, and an icon belongs to a tray.
record Tidy (host : Host) : Type 0 where
  hooked : host.hooks ≡ host.mouse_hook ∷ host.keyboard_hook ∷ []
  keyboard : (host.keyboard_hook == 0) ≡ false
  mouse : (host.mouse_hook == 0) ≡ false
  icon : (host.has_icon && not host.has_tray) ≡ false

unhook_both :
    (u : ℕ → Bool) (m k : ℕ) → unhook u m (unhook u k (m ∷ k ∷ [])) ≡ refused u (m ∷ k ∷ [])
unfolding unhook without refused
unhook_both u m k = elim (Bool-cases (m == k)) [
  | inl e ↦ let same : m ≡ k = ground arith in rw same (ground arith)
  | inr e ↦ ground arith
]

given_back :
    (icon tray removes : Bool)
    → (icon && not tray) ≡ false
    → (if tray then icon && not removes else icon) ≡ (icon && not removes)
given_back icon true removes h = refl
given_back true false removes h = cc
given_back false false removes h = refl

cleanup-IsReleased :
    (closing : Closing) (host : Host) → Tidy host → IsReleased closing host (cleanup closing host)
unfolding cleanup stop_listener
cleanup-IsReleased closing host tidy = record {
  hooks =
      rw (tidy.keyboard, tidy.mouse, tidy.hooked)
        (unhook_both closing.unhooks host.mouse_hook host.keyboard_hook);
  listener = refl;
  icon = given_back host.has_icon host.has_tray closing.removes_icon tidy.icon;
  owner = refl;
  window = refl;
  class' = refl;
  handles = (refl, refl);
}

module _ (parse : String → Option InputSignature) (cfg : Config) (answers : Answers) where
  -- If there is no error, the host is tidy.
  abbrev Good : Option StartError × Host → Type 0
  Good (none, host) = Tidy host
  Good (some e, host) = Unit

  start_tray-Tidy : (host : Host) → Tidy host → Tidy (start_tray parse cfg answers host)
  unfolding start_tray
  start_tray-Tidy host tidy = elim (Bool-cases cfg.app.silent) [
    | inl e ↦ rw e tidy
    | inr e ↦ rw e (record {
      hooked = tidy.hooked;
      keyboard = tidy.keyboard;
      mouse = tidy.mouse;
      icon = ground arith;
    })
  ]

  start_features-Good : (host : Host) → Tidy host → Good (start_features parse cfg answers host)
  unfolding start_features
  start_features-Good host tidy = elim (Bool-cases cfg.features.enable_clipboard) [
    | inr e ↦ rw e (start_tray-Tidy _ (registered host tidy))
    | inl e ↦ elim (Bool-cases answers.adds_listener) [
      | inl f ↦ rw (e, f) (start_tray-Tidy _ (registered host tidy))
      | inr f ↦ rw (e, f) tt
    ]
  ]
    where
      registered :
          (host : Host)
          → Tidy host
          → {m : SignatureMatcher Callback} {l : Bool}
          → Tidy (record host { matcher = m; has_listener = l })
      registered host tidy = record {
        hooked = tidy.hooked;
        keyboard = tidy.keyboard;
        mouse = tidy.mouse;
        icon = tidy.icon;
      }

  start_listener-Good :
      (host : Host)
      → host.hooks ≡ []
      → host.has_tray ≡ false
      → host.has_icon ≡ false
      → Good (start_listener answers host)
  unfolding start_listener
  start_listener-Good host bare no_tray dark = elim (Bool-cases (answers.keyboard_hook == 0)) [
    | inl e ↦ rw e tt
    | inr e ↦ elim (Bool-cases (answers.mouse_hook == 0)) [
      | inl f ↦ rw (e, f) tt
      | inr f ↦
          rw (e, f)
            (record {
              hooked = ap (λ hs. answers.mouse_hook ∷ answers.keyboard_hook ∷ hs) bare;
              keyboard = e;
              mouse = f;
              icon = rw (no_tray, dark) refl;
            })
    ]
  ]

  after_listener-Good :
      (r : Option StartError × Host) → Good r → Good (after_listener parse cfg answers r)
  unfolding after_listener
  after_listener-Good (none, host) tidy = start_features-Good host tidy
  after_listener-Good (some e, host) tidy = tt

  if-Good :
      (b : Bool) (x y : Option StartError × Host) → Good x → Good y → Good (if b then x else y)
  if-Good true x y hx hy = hx
  if-Good false x y hx hy = hy

  start-Good : Good (start parse cfg answers new_host)
  unfolding start new_host
  start-Good = if-Good (not answers.registers_class) _ _ tt (
      if-Good (answers.creates_window == 0) _ _ tt
        (after_listener-Good (start_listener answers _) (start_listener-Good _ refl refl refl)))

  Good-IsReleased :
      (closing : Closing) (r : Option StartError × Host)
      → Good r
      → r.0 ≡ none
      → IsReleased closing r.1 (cleanup closing r.1)
  Good-IsReleased closing (none, host) tidy e = cleanup-IsReleased closing host tidy
  Good-IsReleased closing (some bad, host) tidy e = cc

  -- Whatever Windows answers at the start: if a new host starts without an error, then behind its
  -- message loop it asks for the removal of both hooks, the clipboard's listener, the icon, the window
  -- and its class. Of each thing exactly that is left which Windows refuses to take back, and a refusal
  -- does not keep the others; the host names no hook and no owner of the clipboard any more.
  pub cleanup-start-IsReleased :
      (closing : Closing)
      → (start parse cfg answers new_host).0 ≡ none
      → IsReleased closing
          (start parse cfg answers new_host).1
          (cleanup closing (start parse cfg answers new_host).1)
  cleanup-start-IsReleased closing e =
      Good-IsReleased closing (start parse cfg answers new_host) start-Good e
