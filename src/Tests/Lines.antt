-- ===== src/Tests/Lines.antt =====
-- The theorems on internal/parser and internal/uihost, applied to concrete inputs.
use clip_queue.Prelude.{
  ◌≡◌, ◌≢◌, refl, true, List, [], ◌∷◌, map, some, All, String, false, none, inl,
}
use clip_queue.Parser.{Pipeline, parse, to_string, is_quote, is_blank, is_special}
use clip_queue.Parser.Steps.{IsChain, parse-IsChain}
use clip_queue.Parser.Words.{pipe, is_plain}
use clip_queue.Parser.Words.Lines.{IsLine, parse-to_string}
use clip_queue.Uihost.Fallback
use clip_queue.Uihost.Fallback.Panics.{IsSafe, is_window_call, run-panicked}
use clip_queue.Uihost.Fallback.Sticky.{
  as_call, operate_all, show_window, hide_window, toggle_window, run-operate_all,
}

parse-IsChain_example : IsChain (parse (108 ∷ 115 ∷ 124 ∷ 119 ∷ 99 ∷ [])).steps
parse-IsChain_example = parse-IsChain (108 ∷ 115 ∷ 124 ∷ 119 ∷ 99 ∷ [])

-- `ls a | wc`
abbrev ls_wc : Pipeline
ls_wc = record {
  steps =
      record { command = 108 ∷ 115 ∷ []; args = (97 ∷ []) ∷ []; operator = 124 ∷ [] }
      ∷ record { command = 119 ∷ 99 ∷ []; args = []; operator = [] }
      ∷ [];
  original = [];
}

ls_wc-IsLine : IsLine ls_wc.steps
unfolding is_plain is_quote is_blank is_special
ls_wc-IsLine = (
  ((refl, (refl, (refl, tt))), ((refl, (refl, tt)), tt)),
  (pipe, refl),
  (((refl, (refl, (refl, tt))), tt), refl),
)

parse-to_string_example :
    parse (to_string ls_wc) ≡ record { steps = ls_wc.steps; original = to_string ls_wc }
parse-to_string_example = parse-to_string ls_wc ls_wc-IsLine

-- A host that always fails, and one that works; each call adds its name.
abbrev broken : Fallback.UiHost (List String)
broken = record {
  show = λ w. (some "no window", "broken" ∷ w);
  hide = λ w. (some "no window", "broken" ∷ w);
  toggle = λ w. (some "no window", "broken" ∷ w);
  focus = λ w. (some "no window", "broken" ∷ w);
  close = λ w. (some "no window", "broken" ∷ w);
  navigate = λ url w. (some "no window", "broken" ∷ w);
}

abbrev browser : Fallback.UiHost (List String)
browser = record {
  show = λ w. (none, "show" ∷ w);
  hide = λ w. (none, "hide" ∷ w);
  toggle = λ w. (none, "toggle" ∷ w);
  focus = λ w. (none, "focus" ∷ w);
  close = λ w. (none, "close" ∷ w);
  navigate = λ url w. (none, url ∷ w);
}

abbrev fresh : Fallback.FallbackUiHost (List String)
fresh = record { primary = some broken; fallback = some browser; use_fallback = false }

-- There is no fallback, and no call is Navigate.
abbrev three_calls : List Fallback.Call
three_calls = Fallback.show ∷ Fallback.hide_it ∷ Fallback.close_it ∷ []

three_calls-IsSafe : All (IsSafe {W = List String} none) three_calls
unfolding is_window_call
three_calls-IsSafe = (inl refl, (inl refl, (inl refl, tt)))

run-panicked_example :
    All
      (λ outcome. outcome ≢ Fallback.panicked)
      (Fallback.run three_calls (Fallback.new_fallback_ui_host (some broken) none) []).0
run-panicked_example = run-panicked broken none three_calls [] three_calls-IsSafe

abbrev switched : Fallback.FallbackUiHost (List String)
switched = record fresh { use_fallback = true }

run-operate_all_example :
    ((Fallback.run (map as_call (show_window ∷ toggle_window ∷ hide_window ∷ [])) switched []).1
      ≡ switched)
    × ((Fallback.run (map as_call (show_window ∷ toggle_window ∷ hide_window ∷ [])) switched []).2
        ≡ operate_all (show_window ∷ toggle_window ∷ hide_window ∷ []) browser [])
run-operate_all_example =
    run-operate_all (show_window ∷ toggle_window ∷ hide_window ∷ []) switched browser [] refl refl
