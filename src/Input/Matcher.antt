-- ===== src/Input/Matcher.antt =====
-- platform/windows/input_signature.go: the registered signatures. The Go map from a hash to a list
-- is a list of entries; its order stands for the order in which Go happens to visit the map, which
-- no theorem fixes. `C` is the type of the callbacks.
pub mod Lookup
pub mod Index
pub mod Complete
use clip_queue.Prelude.{
  ℕ, Bool, true, false, not, String, List, [], ◌∷◌, ◌++◌, Option, none, some, if◌then◌else◌, ◌==◌,
  str_eq,
}
use clip_queue.Input.Signature.{InputSignature, source_mouse_button, equals}

pub record Registered (C : Type 0) : Type 0 where
  pub signature : InputSignature
  pub callback : C
  pub id : String

abbrev pub Entries : Type 0 → Type 0
Entries C = List (ℕ × List (Registered C))

pub record SignatureMatcher (C : Type 0) : Type 0 where
  pub signatures : Entries C

module _ {C : Type 0} where
  -- `NewSignatureMatcher` and `UnregisterAll`: no entry.
  unfoldable pub new_signature_matcher : SignatureMatcher C
  new_signature_matcher = record { signatures = [] }

  unfoldable pub unregister_all : SignatureMatcher C → SignatureMatcher C
  unregister_all m = record m { signatures = [] }

  -- `m.signatures[hash]`; a missing key gives the empty list.
  unfoldable pub entry : ℕ → Entries C → List (Registered C)
  entry hash [] = []
  entry hash ((h, regs) ∷ entries) = if h == hash then regs else entry hash entries

  -- `m.signatures[hash] = append(m.signatures[hash], reg)`
  unfoldable pub append_entry : ℕ → Registered C → Entries C → Entries C
  append_entry hash reg [] = (hash, reg ∷ []) ∷ []
  append_entry hash reg ((h, regs) ∷ entries) =
      if h == hash
      then (h, regs ++ reg ∷ []) ∷ entries
      else (h, regs) ∷ append_entry hash reg entries

  unfoldable pub register : InputSignature → String → C → SignatureMatcher C → SignatureMatcher C
  unfolding append_entry
  register sig id callback m = record m {
    signatures =
        append_entry sig.hash (record { signature = sig; callback = callback; id = id })
          m.signatures;
  }

  -- The list without its first entry of that ID; `none` if it has none.
  unfoldable pub remove_id : String → List (Registered C) → Option (List (Registered C))
  remove_id id [] = none
  remove_id id (reg ∷ regs) =
      let rest = remove_id id regs in
      if str_eq reg.id id
      then some regs
      else elim rest [ none ↦ none | some left ↦ some (reg ∷ left) ]

  -- What becomes of an entry: it is deleted when its list is empty.
  unfoldable pub put_back : ℕ → List (Registered C) → Entries C → Entries C
  put_back hash [] entries = entries
  put_back hash (reg ∷ regs) entries = (hash, reg ∷ regs) ∷ entries

  unfoldable pub unregister_from : String → Entries C → Entries C
  unfolding remove_id put_back
  unregister_from id [] = []
  unregister_from id ((hash, regs) ∷ entries) =
      let rest = unregister_from id entries in
      elim (remove_id id regs) [
        | none ↦ (hash, regs) ∷ rest
        | some left ↦ put_back hash left entries
      ]

  -- `Unregister`
  unfoldable pub unregister : String → SignatureMatcher C → SignatureMatcher C
  unfolding unregister_from
  unregister id m = record m { signatures = unregister_from id m.signatures }

  -- `for _, reg := range regs { if reg.Signature.Equals(sig) { return reg.Callback } }`
  unfoldable pub find_equal : InputSignature → List (Registered C) → Option C
  find_equal sig [] = none
  find_equal sig (reg ∷ regs) =
      if equals reg.signature sig then some reg.callback else find_equal sig regs

  -- The same over the mouse buttons alone.
  unfoldable pub find_mouse : InputSignature → List (Registered C) → Option C
  find_mouse sig [] = none
  find_mouse sig (reg ∷ regs) =
      let rest = find_mouse sig regs in
      if not (reg.signature.source_type == source_mouse_button)
      then rest
      else if equals reg.signature sig
      then some reg.callback
      else rest

  -- The first of two results.
  abbrev pub or_else : Option C → Option C → Option C
  or_else (some c) other = some c
  or_else none other = other

  unfoldable pub find_mouse_in : InputSignature → Entries C → Option C
  unfolding find_mouse
  find_mouse_in sig [] = none
  find_mouse_in sig ((hash, regs) ∷ entries) =
      or_else (find_mouse sig regs) (find_mouse_in sig entries)

  -- `Match`
  unfoldable pub match_signature : InputSignature → SignatureMatcher C → Option C
  unfolding entry find_equal find_mouse_in
  match_signature sig m = or_else (find_equal sig (entry sig.hash m.signatures)) (
      if not (sig.source_type == source_mouse_button) then none else find_mouse_in sig m.signatures)

  unfoldable pub all_entries : Entries C → List (Registered C)
  all_entries [] = []
  all_entries ((hash, regs) ∷ entries) = regs ++ all_entries entries

  -- `GetAll`
  unfoldable pub get_all : SignatureMatcher C → List (Registered C)
  unfolding all_entries
  get_all m = all_entries m.signatures
