-- ===== src/Input/Matcher/Lookup.antt =====
-- What `Match` finds among the registered signatures.
use clip_queue.Prelude.{
  ℕ, ◌≡◌, refl, ◌⊎◌, inl, inr, true, not, List, [], ◌∷◌, ◌++◌, some, ◌==◌, Bool-cases, Option-cases,
  arith,
}
use clip_queue.Input.Signature.{InputSignature, source_mouse_button, equals}
use clip_queue.Input.Matcher.{
  Registered, Entries, SignatureMatcher, entry, find_equal, find_mouse, find_mouse_in,
  match_signature, all_entries, get_all,
}

module _ {C : Type 0} where
  -- `reg` stands in the list.
  abbrev pub In : Registered C → List (Registered C) → Type 0
  In reg [] = ⊥
  In reg (x ∷ xs) = (x ≡ reg) ⊎ In reg xs

  pub In-append_left :
      (reg : Registered C) (xs ys : List (Registered C)) → In reg xs → In reg (xs ++ ys)
  In-append_left reg [] ys h = absurd h
  In-append_left reg (x ∷ xs) ys (inl e) = inl e
  In-append_left reg (x ∷ xs) ys (inr h) = inr (In-append_left reg xs ys h)

  pub In-append_right :
      (reg : Registered C) (xs ys : List (Registered C)) → In reg ys → In reg (xs ++ ys)
  In-append_right reg [] ys h = h
  In-append_right reg (x ∷ xs) ys h = inr (In-append_right reg xs ys h)

  pub In-append :
      (reg : Registered C) (xs ys : List (Registered C)) → In reg (xs ++ ys) → In reg xs ⊎ In reg ys
  In-append reg [] ys h = inr h
  In-append reg (x ∷ xs) ys (inl e) = inl (inl e)
  In-append reg (x ∷ xs) ys (inr h) = elim (In-append reg xs ys h) [
    | inl l ↦ inl (inr l)
    | inr r ↦ inr r
  ]

  -- A hit: a registered signature that equals the event, and its callback.
  abbrev pub Hit : InputSignature → List (Registered C) → C → Type 0
  Hit sig regs c =
      (reg : Registered C) × In reg regs × (equals reg.signature sig ≡ true) × (reg.callback ≡ c)

  find_equal-Hit :
      (sig : InputSignature) (regs : List (Registered C)) (c : C)
      → find_equal sig regs ≡ some c
      → Hit sig regs c
  unfolding find_equal
  find_equal-Hit sig [] c h = cc
  find_equal-Hit sig (reg ∷ regs) c h = elim (Bool-cases (equals reg.signature sig)) [
    | inl yes' ↦ (reg, inl refl, yes', ground arith)
    | inr no' ↦
        let (found, inside, eq, cb) = find_equal-Hit sig regs c (rw no' at h) in
        (found, inr inside, eq, cb)
  ]

  find_mouse-Hit :
      (sig : InputSignature) (regs : List (Registered C)) (c : C)
      → find_mouse sig regs ≡ some c
      → Hit sig regs c
  unfolding find_mouse
  find_mouse-Hit sig [] c h = cc
  find_mouse-Hit sig (reg ∷ regs) c h =
      elim (Bool-cases (not (reg.signature.source_type == source_mouse_button))) [
        | inl other ↦
            let (found, inside, eq, cb) = find_mouse-Hit sig regs c (rw other at h) in
            (found, inr inside, eq, cb)
        | inr mouse ↦ elim (Bool-cases (equals reg.signature sig)) [
          | inl yes' ↦ (reg, inl refl, yes', ground arith)
          | inr no' ↦
              let (found, inside, eq, cb) = find_mouse-Hit sig regs c (rw (mouse, no') at h) in
              (found, inr inside, eq, cb)
        ]
      ]

  -- A list of one entry is part of all.
  entry-In :
      (hash : ℕ) (entries : Entries C) (reg : Registered C)
      → In reg (entry hash entries)
      → In reg (all_entries entries)
  unfolding entry all_entries
  entry-In hash [] reg h = absurd h
  entry-In hash ((k, regs) ∷ entries) reg h = elim (Bool-cases (k == hash)) [
    | inl here ↦ In-append_left reg regs (all_entries entries) (rw here at h)
    | inr there ↦
        In-append_right reg regs (all_entries entries) (entry-In hash entries reg (rw there at h))
  ]

  find_mouse_in-Hit :
      (sig : InputSignature) (entries : Entries C) (c : C)
      → find_mouse_in sig entries ≡ some c
      → Hit sig (all_entries entries) c
  unfolding find_mouse_in all_entries
  find_mouse_in-Hit sig [] c h = cc
  find_mouse_in-Hit sig ((hash, regs) ∷ entries) c h = elim (Option-cases (find_mouse sig regs)) [
    | inl none' ↦
        let (found, inside, eq, cb) = find_mouse_in-Hit sig entries c (rw none' at h) in
        (found, In-append_right found regs (all_entries entries) inside, eq, cb)
    | inr (d, some') ↦
        let (found, inside, eq, cb) = find_mouse-Hit sig regs c (ground arith) in
        (found, In-append_left found regs (all_entries entries) inside, eq, cb)
  ]

  -- `Match` returns only the callback of a registered signature that equals the event.
  pub match_signature-Hit :
      (sig : InputSignature) (m : SignatureMatcher C) (c : C)
      → match_signature sig m ≡ some c
      → Hit sig (get_all m) c
  unfolding match_signature get_all
  match_signature-Hit sig m c h =
      elim (Option-cases (find_equal sig (entry sig.hash m.signatures))) [
        | inr (d, e) ↦
            let (found, inside, eq, cb) =
              find_equal-Hit sig (entry sig.hash m.signatures) c (ground arith) in
            (found, entry-In sig.hash m.signatures found inside, eq, cb)
        | inl e ↦ find_mouse_in-Hit sig m.signatures c (ground arith)
      ]
