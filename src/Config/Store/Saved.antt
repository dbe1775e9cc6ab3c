-- ===== src/Config/Store/Saved.antt =====
-- The configuration in memory is the one that is read from the file.
use clip_queue.Prelude.{◌≡◌, String, List, [], ◌∷◌, Option, none, some}
use clip_queue.Config.Types.{Config}
use clip_queue.Config.Store.{Change, apply_change, save_config}

-- The changes from left to right: what is in memory, and everything outside, at the end.
unfoldable pub apply_all :
    {W : Type 0} → (Config → W → Option String × W) → List Change → Config → W → Config × W
apply_all save [] current w = (current, w)
apply_all save (change ∷ changes) current w =
    let r = apply_change save change current w in apply_all save changes r.1 r.2

-- The bytes of the file, of the type `B`, are `file w`, and `unmarshal` reads them.
module _ {W B : Type 0} (marshal : Config → B × Option String) (normalize : B → B)
    (write_file : B → W → Option String × W) (file : W → B) (unmarshal : B → Option Config) where
  abbrev save : Config → W → Option String × W
  save = save_config marshal normalize write_file

  -- YAML reads back what it has written, a file that is written has the bytes, and a write that fails
  -- leaves the file as it was.
  pub record IsSafe : Type 0 where
    pub reads :
        (cfg : Config) → (marshal cfg).1 ≡ none → unmarshal (normalize (marshal cfg).0) ≡ some cfg
    pub writes :
        (bytes : B) (w : W) → (write_file bytes w).0 ≡ none → file (write_file bytes w).1 ≡ bytes
    pub keeps :
        (bytes : B) (w : W) (e : String)
        → (write_file bytes w).0 ≡ some e
        → file (write_file bytes w).1 ≡ file w

  -- The file is read as the configuration in memory.
  abbrev Agrees : Config × W → Type 0
  Agrees (current, w) = unmarshal (file w) ≡ some current
