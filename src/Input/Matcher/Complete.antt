-- ===== src/Input/Matcher/Complete.antt =====
-- `Match` misses nothing, after any commands.
use clip_queue.Prelude.{
  ◌≡◌, ◌≢◌, inl, inr, true, false, String, List, [], ◌∷◌, none, some, ◌==◌, ap, Bool-cases,
  Option-cases, arith,
}
use clip_queue.Input.Signature.{InputSignature, source_mouse_button, equals}
use clip_queue.Input.Matcher.{
  Registered, Entries, SignatureMatcher, new_signature_matcher, unregister_all, entry, register,
  unregister, find_equal, find_mouse, find_mouse_in, match_signature, all_entries, get_all,
}
use clip_queue.Input.Matcher.Lookup.{In, In-append, Hit, match_signature-Hit}
use clip_queue.Input.Matcher.Index.{
  IsIndexed, In-entry, append_entry-IsIndexed, unregister_from-IsIndexed,
}

module _ {C : Type 0} where
  find_equal_complete :
      (sig : InputSignature) (regs : List (Registered C)) (reg : Registered C)
      → In reg regs
      → equals reg.signature sig ≡ true
      → find_equal sig regs ≢ none
  unfolding find_equal
  find_equal_complete sig [] reg h e = absurd h
  find_equal_complete sig (x ∷ regs) reg (inl same) e = elim (Bool-cases (equals x.signature sig)) [
    | inl hit ↦ ground arith
    | inr miss ↦ cc (ap (λ (r : Registered C). equals r.signature sig) same)
  ]
  find_equal_complete sig (x ∷ regs) reg (inr h) e =
      ground (arith, find_equal_complete sig regs reg h e)

  find_mouse_complete :
      (sig : InputSignature) (regs : List (Registered C)) (reg : Registered C)
      → In reg regs
      → equals reg.signature sig ≡ true
      → reg.signature.source_type ≡ source_mouse_button
      → find_mouse sig regs ≢ none
  unfolding find_mouse
  find_mouse_complete sig [] reg h e m = absurd h
  find_mouse_complete sig (x ∷ regs) reg (inl same) e m =
      let hit = ap (λ (r : Registered C). equals r.signature sig) same in
      let mouse = ap (λ (r : Registered C). r.signature.source_type) same in ground arith
  find_mouse_complete sig (x ∷ regs) reg (inr h) e m =
      ground (arith, find_mouse_complete sig regs reg h e m)

  find_mouse_in_complete :
      (sig : InputSignature) (entries : Entries C) (reg : Registered C)
      → In reg (all_entries entries)
      → equals reg.signature sig ≡ true
      → reg.signature.source_type ≡ source_mouse_button
      → find_mouse_in sig entries ≢ none
  unfolding find_mouse_in all_entries
  find_mouse_in_complete sig [] reg h e m = absurd h
  find_mouse_in_complete sig ((k, regs) ∷ entries) reg h e m =
      elim (In-append reg regs (all_entries entries) h) [
        | inl now ↦ ground (arith, find_mouse_complete sig regs reg now e m)
        | inr later ↦ ground (arith, find_mouse_in_complete sig entries reg later e m)
      ]

equals_source : (s t : InputSignature) → equals s t ≡ true → s.source_type ≡ t.source_type
unfolding equals
equals_source s t e = ground arith

equals_hash :
    (s t : InputSignature)
    → equals s t ≡ true
    → (s.source_type == source_mouse_button) ≡ false
    → s.hash ≡ t.hash
unfolding equals
equals_hash s t e other = ground arith

module _ {C : Type 0} where
  -- If the index is in order, `Match` finds a callback whenever some registered signature equals the
  -- event.
  pub match_signature_complete :
      (sig : InputSignature) (m : SignatureMatcher C) (reg : Registered C)
      → IsIndexed m.signatures
      → In reg (get_all m)
      → equals reg.signature sig ≡ true
      → match_signature sig m ≢ none
  unfolding match_signature get_all
  match_signature_complete sig m reg v h e =
      elim (Bool-cases (reg.signature.source_type == source_mouse_button)) [
        | inl mouse ↦ ground (
          arith,
          equals_source reg.signature sig e,
          find_mouse_in_complete sig m.signatures reg h e,
        )
        | inr other ↦
            let found =
              find_equal_complete sig (entry reg.signature.hash m.signatures) reg
                (In-entry m.signatures reg v h) e in
            let same = equals_hash reg.signature sig e other in ground (arith, rw same at found)
      ]

-- The commands of the matcher; a list of them has the last one first.
pub data Command (C : Type 0) : Type 0 where
  registers : InputSignature → String → C → Command C
  unregisters : String → Command C
  unregisters_all : Command C

module _ {C : Type 0} where
  unfoldable pub after : List (Command C) → SignatureMatcher C
  after [] = new_signature_matcher
  after (registers sig id callback ∷ commands) = register sig id callback (after commands)
  after (unregisters id ∷ commands) = unregister id (after commands)
  after (unregisters_all ∷ commands) = unregister_all (after commands)

  pub after-IsIndexed : (commands : List (Command C)) → IsIndexed (after commands).signatures
  unfolding after new_signature_matcher register unregister unregister_all
  after-IsIndexed [] = tt
  after-IsIndexed (registers sig id callback ∷ commands) =
      append_entry-IsIndexed _ (after commands).signatures (after-IsIndexed commands)
  after-IsIndexed (unregisters id ∷ commands) =
      unregister_from-IsIndexed id (after commands).signatures (after-IsIndexed commands)
  after-IsIndexed (unregisters_all ∷ commands) = tt

  -- After any commands on a new matcher, an event is matched whenever some registered signature
  -- equals it, and then the callback belongs to a registered signature that equals it.
  pub match_signature-after :
      (sig : InputSignature) (commands : List (Command C)) (reg : Registered C)
      → In reg (get_all (after commands))
      → equals reg.signature sig ≡ true
      → (c : C) × (match_signature sig (after commands) ≡ some c)
        × Hit sig (get_all (after commands)) c
  match_signature-after sig commands reg h e =
      elim (Option-cases (match_signature sig (after commands))) [
        | inl missed ↦ absurd (
            match_signature_complete sig (after commands) reg (after-IsIndexed commands) h e missed)
        | inr (c, hit) ↦ (c, hit, match_signature-Hit sig (after commands) c hit)
      ]
