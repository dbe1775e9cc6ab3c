-- ===== src/Tests/Hosting.antt =====
-- The theorems on the host of platform/windows, applied to concrete answers and settings.
use clip_queue.Prelude.{
  ℕ, zero, suc, ◌≡◌, refl, true, String, [], ◌∷◌, Option, some, none, false, ◌==◌,
}
use clip_queue.Config.Types.{Config}
use clip_queue.Config.Store.{apply_change}
use clip_queue.Input.Signature.{InputSignature, source_keyboard}
use clip_queue.Server.Settings.{Served, save_config, saved}
use clip_queue.Host.{
  Answers, Closing, new_host, start, cleanup, start_listener, start_features, after_listener,
  start_tray,
}
use clip_queue.Host.Lifecycle.{IsReleased, cleanup-start-IsReleased}
use clip_queue.Host.Reload.{Applied, save_config-Applied}
use clip_queue.Tests.Desk.{config, busy, Desk}

abbrev key : InputSignature
key = record { hash = 7; raw_data = 86 ∷ []; source_type = source_keyboard; modifier_state = 1 }

abbrev parse : String → Option InputSignature
parse s = some key

abbrev answers : Answers
answers = record {
  registers_class = true;
  creates_window = 3;
  keyboard_hook = 4;
  mouse_hook = 5;
  unhooks = λ h. true;
  adds_listener = true;
  shows_icon = true;
}

started : (start parse (config "FIFO") answers new_host).0 ≡ none
unfolding start new_host start_listener after_listener start_features start_tray
started = refl

-- Windows keeps the mouse hook and the icon.
abbrev closing : Closing
closing = record {
  unhooks = λ h. h == 4;
  removes_listener = true;
  removes_icon = false;
  destroys_window = true;
  unregisters_class = true;
}

cleanup-start-IsReleased_example :
    IsReleased closing
      (start parse (config "FIFO") answers new_host).1
      (cleanup closing (start parse (config "FIFO") answers new_host).1)
cleanup-start-IsReleased_example =
    cleanup-start-IsReleased parse (config "FIFO") answers closing started

-- A file whose first save fails.
abbrev save : Config → ℕ → Option String × ℕ
save cfg zero = (some "disk full", 1)
save cfg (suc n) = (none, suc (suc n))

abbrev served : ℕ → Served ℕ Desk
served n = record { config = config "LIFO"; file = n; sys = busy "LIFO"; reloads = 0 }

save_config-Applied_example :
    Applied parse save new_host
      (config "FIFO")
      (served 1)
      (save_config parse save true (config "FIFO") (served 1))
save_config-Applied_example = save_config-Applied parse save new_host (config "FIFO") (served 1)

saved_now : (save_config parse save true (config "FIFO") (served 1)).0 ≡ saved
unfolding save_config apply_change
saved_now = refl
