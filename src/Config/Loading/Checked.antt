-- ===== src/Config/Loading/Checked.antt =====
-- Load gives only configurations that validateConfig takes, and those that it writes are checked too.
use clip_queue.Prelude.{
  ℕ, Bool, true, false, String, List, [], ◌∷◌, Option, none, some, if◌then◌else◌, ◌≡◌, refl,
  Bool-cases, Option-cases, inl, inr, All,
}
use clip_queue.Config.Types.{Config, Macro}
use clip_queue.Config.Hotkeys.{validate_config}
use clip_queue.Config.Store.{default_config, ensure_signatures}
use clip_queue.Config.Loading.{
  OldConfig, Effect, wrote, made_dir, Loaded, loaded, not_loaded, io_error, Disk, migrate_macros,
  ensure_data_dir, save_and_ensure, checked, load_default, load_migrated, load_new, load_existing,
  load,
}

module _ (to_upper : String → String) (split : String → List String) (trim : String → String)
    (encode : List ℕ → String) (is_base64 : String → Bool) (trim_sig : String → String) where
  abbrev pub Passes : Config → Type 0
  Passes cfg = validate_config is_base64 trim_sig cfg ≡ none

  abbrev Recorded : Effect → Type 0
  Recorded (wrote cfg) = Passes cfg
  Recorded (made_dir dir) = Unit

  -- The configuration passes if there is one, and so does each that is written.
  abbrev pub Sound : Loaded × List Effect → Type 0
  Sound (loaded cfg, effects) = Passes cfg × All Recorded effects
  Sound (not_loaded e, effects) = All Recorded effects

  module _ (disk : Disk) where
    ensure_data_dir-Sound :
        (cfg : Config)
        → Passes cfg
        → Sound (ensure_data_dir to_upper split trim encode is_base64 trim_sig disk cfg)
    unfolding ensure_data_dir
    ensure_data_dir-Sound cfg h = elim (Bool-cases disk.makes_dir) [
      | inl e ↦ rw e (h, (tt, tt))
      | inr e ↦ rw e tt
    ]

    save_and_ensure-Sound :
        (cfg : Config)
        → Passes cfg
        → Sound (save_and_ensure to_upper split trim encode is_base64 trim_sig disk cfg)
    unfolding save_and_ensure ensure_data_dir
    save_and_ensure-Sound cfg h = elim (Bool-cases disk.writes) [
      | inr e ↦ rw e tt
      | inl e ↦ elim (Bool-cases disk.makes_dir) [
        | inl f ↦ rw (e, f) (h, (h, (tt, tt)))
        | inr f ↦ rw (e, f) (h, tt)
      ]
    ]

    checked-Sound :
        (cfg : Config) (next : Loaded × List Effect)
        → (Passes cfg → Sound next)
        → Sound (checked to_upper split trim encode is_base64 trim_sig disk cfg next)
    unfolding checked
    checked-Sound cfg next h = elim (Option-cases (validate_config is_base64 trim_sig cfg)) [
      | inl e ↦ rw (checked, e) (h e)
      | inr (bad, e) ↦ rw (checked, e) tt
    ]

    load_default-Sound :
        (r : Bool × Config)
        → Passes r.1
        → Sound (load_default to_upper split trim encode is_base64 trim_sig disk r)
    unfolding load_default
    load_default-Sound (true, cfg) h = save_and_ensure-Sound cfg h
    load_default-Sound (false, cfg) h = tt

    load_migrated-Sound :
        (old : OldConfig) (r : Option String × List Macro)
        → Sound (load_migrated to_upper split trim encode is_base64 trim_sig disk old r)
    unfolding load_migrated
    load_migrated-Sound old (some hotkey, macros) = tt
    load_migrated-Sound old (none, macros) = checked-Sound _ _ (λ h. save_and_ensure-Sound _ h)

    load_new-Sound :
        (bytes : List ℕ) → Sound (load_new to_upper split trim encode is_base64 trim_sig disk bytes)
    unfolding load_new
    load_new-Sound bytes = elim (Option-cases (disk.new_yaml bytes default_config)) [
      | inl e ↦ rw (load_new, e) tt
      | inr (cfg, e) ↦ rw (load_new, e) (checked-Sound cfg _ (λ h. ensure_data_dir-Sound cfg h))
    ]

    old_macros-Sound :
        (bytes : List ℕ) (old : OldConfig) (macros : List (String × Macro))
        → Sound (elim macros as (λ ms. Loaded × List Effect) [
          | [] ↦ load_new to_upper split trim encode is_base64 trim_sig disk bytes
          | m ∷ ms ↦
              load_migrated to_upper split trim encode is_base64 trim_sig disk old
                (migrate_macros to_upper split trim encode is_base64 trim_sig (m ∷ ms))
        ])
    old_macros-Sound bytes old [] = load_new-Sound bytes
    old_macros-Sound bytes old (m ∷ ms) = load_migrated-Sound old _

    load_existing-Sound :
        (bytes : List ℕ)
        → Sound (load_existing to_upper split trim encode is_base64 trim_sig disk bytes)
    unfolding load_existing
    load_existing-Sound bytes = elim (Option-cases (disk.old_yaml bytes)) [
      | inl e ↦ rw (load_existing, e) (load_new-Sound bytes)
      | inr (old, e) ↦ rw (load_existing, e) (old_macros-Sound bytes old old.macros)
    ]

    defaults-Passes : Passes (ensure_signatures to_upper split trim encode default_config).1
    unfolding ensure_signatures validate_config default_config
    defaults-Passes = refl

    if-Sound :
        (b : Bool) (x y : Loaded × List Effect) → Sound x → Sound y → Sound (if b then x else y)
    if-Sound true x y hx hy = hx
    if-Sound false x y hx hy = hy

    reads-Sound :
        (reads : Option (List ℕ))
        → Sound (elim reads as (λ r. Loaded × List Effect) [
          | none ↦ (not_loaded io_error, [])
          | some bytes ↦ load_existing to_upper split trim encode is_base64 trim_sig disk bytes
        ])
    reads-Sound none = tt
    reads-Sound (some bytes) = load_existing-Sound bytes

    -- Whatever the files hold and whichever writes fail: a configuration that Load returns passes
    -- validateConfig, migrated and new ones included, and so does each that Load writes.
    pub load-Sound : Sound (load to_upper split trim encode is_base64 trim_sig disk)
    unfolding load
    load-Sound =
        if-Sound disk.exists _ _ (reads-Sound disk.reads) (load_default-Sound _ defaults-Passes)
