-- ===== src/Input/Matcher/Index.antt =====
-- The index of the registered signatures: every signature stands under its own hash, and no hash
-- has two entries.
use clip_queue.Prelude.{
  ℕ, ◌≡◌, ◌≢◌, refl, inl, inr, String, List, [], ◌∷◌, some, ◌==◌, str_eq, subst, Bool-cases,
  Option-cases, All, All-append, arith,
}
use clip_queue.Input.Matcher.{
  Registered, Entries, entry, append_entry, remove_id, put_back, unregister_from, all_entries,
}
use clip_queue.Input.Matcher.Lookup.{In, In-append}

module _ {C : Type 0} where
  abbrev pub Under : ℕ → List (Registered C) → Type 0
  Under hash = All (λ reg. reg.signature.hash ≡ hash)

  abbrev pub Lacks : ℕ → Entries C → Type 0
  Lacks hash [] = Unit
  Lacks hash ((h, regs) ∷ entries) = (h ≢ hash) × Lacks hash entries

  abbrev pub IsIndexed : Entries C → Type 0
  IsIndexed [] = Unit
  IsIndexed ((h, regs) ∷ entries) = Under h regs × Lacks h entries × IsIndexed entries

  append_entry-Lacks :
      (h hash : ℕ) (reg : Registered C) (entries : Entries C)
      → hash ≢ h
      → Lacks h entries
      → Lacks h (append_entry hash reg entries)
  unfolding append_entry
  append_entry-Lacks h hash reg [] ne l = (ne, tt)
  append_entry-Lacks h hash reg ((k, regs) ∷ entries) ne (hk, l) =
      ground (arith, append_entry-Lacks h hash reg entries ne l)

  pub append_entry-IsIndexed :
      (reg : Registered C) (entries : Entries C)
      → IsIndexed entries
      → IsIndexed (append_entry reg.signature.hash reg entries)
  unfolding append_entry
  append_entry-IsIndexed reg [] v = ((refl, tt), tt, tt)
  append_entry-IsIndexed reg ((k, regs) ∷ entries) (u, l, v) =
      elim (Bool-cases (k == reg.signature.hash)) [
        | inl here ↦ rw here (All-append _ regs (reg ∷ []) u (ground arith, tt), l, v)
        | inr there ↦ rw there (
          u,
          append_entry-Lacks k reg.signature.hash reg entries (ground arith) l,
          append_entry-IsIndexed reg entries v,
        )
      ]

  remove_id-Under :
      (id : String) (hash : ℕ) (regs left : List (Registered C))
      → Under hash regs
      → remove_id id regs ≡ some left
      → Under hash left
  unfolding remove_id
  remove_id-Under id hash [] left u h = cc
  remove_id-Under id hash (reg ∷ regs) left (e, u) h = elim (Bool-cases (str_eq reg.id id)) [
    | inl here ↦ let p : regs ≡ left = ground arith in subst (Under hash) p u
    | inr there ↦ elim (Option-cases (remove_id id regs)) [
      | inl missing ↦ absurd (ground arith)
      | inr (rest, found) ↦
          let p : reg ∷ rest ≡ left = ground arith in
          subst (Under hash) p (e, remove_id-Under id hash regs rest u found)
    ]
  ]

  entry-Lacks : (hash : ℕ) (entries : Entries C) → Lacks hash entries → entry hash entries ≡ []
  unfolding entry
  entry-Lacks hash [] l = refl
  entry-Lacks hash ((k, regs) ∷ entries) (ne, l) = ground (arith, entry-Lacks hash entries l)

  Under-In :
      (hash : ℕ) (regs : List (Registered C)) (reg : Registered C)
      → Under hash regs
      → In reg regs
      → reg.signature.hash ≡ hash
  Under-In hash [] reg u h = absurd h
  Under-In hash (x ∷ regs) reg (e, u) (inl same) = cc
  Under-In hash (x ∷ regs) reg (e, u) (inr h) = Under-In hash regs reg u h

  pub In-entry :
      (entries : Entries C) (reg : Registered C)
      → IsIndexed entries
      → In reg (all_entries entries)
      → In reg (entry reg.signature.hash entries)
  unfolding all_entries entry
  In-entry [] reg v h = absurd h
  In-entry ((k, regs) ∷ entries) reg (u, l, v) h = elim (Bool-cases (k == reg.signature.hash)) [
    | inl here ↦ rw here (elim (In-append reg regs (all_entries entries) h) [
      | inl now ↦ now
      | inr later ↦
          let k_is : k ≡ reg.signature.hash = ground arith in
          absurd (
            rw (entry-Lacks reg.signature.hash entries (subst (λ n. Lacks n entries) k_is l)) at
              (In-entry entries reg v later))
    ])
    | inr there ↦ rw there (elim (In-append reg regs (all_entries entries) h) [
      | inl now ↦ absurd (ground (arith, Under-In k regs reg u now))
      | inr later ↦ In-entry entries reg v later
    ])
  ]

  put_back-IsIndexed :
      (hash : ℕ) (left : List (Registered C)) (entries : Entries C)
      → Under hash left
      → Lacks hash entries
      → IsIndexed entries
      → IsIndexed (put_back hash left entries)
  unfolding put_back
  put_back-IsIndexed hash [] entries u l v = v
  put_back-IsIndexed hash (reg ∷ left) entries u l v = (u, l, v)

  put_back-Lacks :
      (h hash : ℕ) (left : List (Registered C)) (entries : Entries C)
      → hash ≢ h
      → Lacks h entries
      → Lacks h (put_back hash left entries)
  unfolding put_back
  put_back-Lacks h hash [] entries ne l = l
  put_back-Lacks h hash (reg ∷ left) entries ne l = (ne, l)

  unregister_from-Lacks :
      (h : ℕ) (id : String) (entries : Entries C)
      → Lacks h entries
      → Lacks h (unregister_from id entries)
  unfolding unregister_from
  unregister_from-Lacks h id [] l = l
  unregister_from-Lacks h id ((k, regs) ∷ entries) (ne, l) =
      elim (Option-cases (remove_id id regs)) [
        | inl missing ↦ rw (missing, Lacks) (ne, unregister_from-Lacks h id entries l)
        | inr (left, found) ↦ rw (found, Lacks) (put_back-Lacks h k left entries ne l)
      ]

  pub unregister_from-IsIndexed :
      (id : String) (entries : Entries C)
      → IsIndexed entries
      → IsIndexed (unregister_from id entries)
  unfolding unregister_from
  unregister_from-IsIndexed id [] v = v
  unregister_from-IsIndexed id ((k, regs) ∷ entries) (u, l, v) =
      elim (Option-cases (remove_id id regs)) [
        | inl missing ↦
            rw (missing, IsIndexed)
              (u, unregister_from-Lacks k id entries l, unregister_from-IsIndexed id entries v)
        | inr (left, found) ↦
            rw (found, IsIndexed)
              (put_back-IsIndexed k left entries (remove_id-Under id k regs left u found) l v)
      ]
