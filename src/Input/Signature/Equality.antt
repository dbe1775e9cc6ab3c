-- ===== src/Input/Signature/Equality.antt =====
-- What `Equals` compares.
use clip_queue.Prelude.{
  ℕ, ◌≡◌, ◌≢◌, ◌↔◌, refl, ap, true, List, [], ◌∷◌, if◌then◌else◌, ◌==◌, Bool-cases, inl, inr, arith,
}
use clip_queue.Input.Signature.{
  InputSignature, source_mouse_button, mouse_button_edge_down, bytes_equal,
  mouse_button_raw_data_equal, equals, compute_hash,
}

pub bytes_equal_iff : (xs ys : List ℕ) → (bytes_equal xs ys ≡ true) ↔ (xs ≡ ys)
unfolding bytes_equal
bytes_equal_iff [] [] = (λ _. refl, λ _. refl)
bytes_equal_iff [] (y ∷ ys) = (λ h. cc, λ h. cc)
bytes_equal_iff (x ∷ xs) [] = (λ h. cc, λ h. cc)
bytes_equal_iff (x ∷ xs) (y ∷ ys) =
    let (sound, complete) = bytes_equal_iff xs ys in
    (λ h. ground (arith, sound), λ h. ground (arith, complete))

-- A mouse event by its button and by whether it is a press: releases and the old records without an
-- edge are alike. No event is `[]`.
pub button_identity : List ℕ → List ℕ
button_identity [] = []
button_identity (button ∷ []) = button ∷ 0 ∷ []
button_identity (button ∷ edge ∷ _) =
    button ∷ (if edge == mouse_button_edge_down then 1 else 0) ∷ []

pub mouse_equal_iff :
    (left right : List ℕ)
    → left ≢ []
    → right ≢ []
    → (mouse_button_raw_data_equal left right ≡ true)
      ↔ (button_identity left ≡ button_identity right)
unfolding mouse_button_raw_data_equal button_identity
mouse_equal_iff [] right h k = absurd (h refl)
mouse_equal_iff (x ∷ left) [] h k = absurd (k refl)
mouse_equal_iff (x ∷ []) (y ∷ []) h k = (λ e. ground arith, λ e. ground arith)
mouse_equal_iff (x ∷ []) (y ∷ f ∷ _) h k = (λ e. ground arith, λ e. ground arith)
mouse_equal_iff (x ∷ d ∷ _) (y ∷ []) h k = (λ e. ground arith, λ e. ground arith)
mouse_equal_iff (x ∷ d ∷ _) (y ∷ f ∷ _) h k = (λ e. ground arith, λ e. ground arith)

-- What identifies an event: its source, the modifiers, and the raw data or the mouse button.
pub identity : InputSignature → ℕ × ℕ × List ℕ
unfolding button_identity
identity s = (
  s.source_type,
  s.modifier_state,
  (if s.source_type == source_mouse_button then button_identity s.raw_data else s.raw_data),
)

-- A signature as the program makes them: its hash is computed, and a mouse button has raw data.
pub record IsMade (fnv : List ℕ → ℕ) (s : InputSignature) : Type 0 where
  pub hashed : s.hash ≡ compute_hash fnv s.source_type s.modifier_state s.raw_data
  pub has_button : s.source_type ≡ source_mouse_button → s.raw_data ≢ []

equals_source : (s t : InputSignature) → equals s t ≡ true → s.source_type ≡ t.source_type
unfolding equals
equals_source s t e = ground arith

equals_modifiers : (s t : InputSignature) → equals s t ≡ true → s.modifier_state ≡ t.modifier_state
unfolding equals
equals_modifiers s t e = ground arith

identity_parts :
    (s t : InputSignature)
    → identity s ≡ identity t
    → (s.source_type ≡ t.source_type) × (s.modifier_state ≡ t.modifier_state)
unfolding identity
identity_parts s t e = (ap (λ k. k.0) e, ap (λ k. k.1) e)

-- The last two comparisons of `Equals`, of events of one source and the same modifiers.
data_equal_iff :
    (fnv : List ℕ → ℕ) (s t : InputSignature)
    → IsMade fnv s
    → IsMade fnv t
    → s.source_type ≡ t.source_type
    → s.modifier_state ≡ t.modifier_state
    → (equals s t ≡ true) ↔ (identity s ≡ identity t)
unfolding equals identity compute_hash
data_equal_iff fnv s t hs ht es em = elim (Bool-cases (s.source_type == source_mouse_button)) [
  | inl mouse ↦
      let (sound, complete) =
        mouse_equal_iff s.raw_data t.raw_data (hs.has_button (ground arith))
          (ht.has_button (ground arith)) in
      (λ e. ground (arith, sound), λ e. ground (arith, complete))
  | inr other ↦
      let (sound, complete) = bytes_equal_iff s.raw_data t.raw_data in
      (λ e. ground (arith, sound), λ e. ground (arith, complete))
]

-- `Equals` holds between two made signatures exactly when they have the same identity, so it is an
-- equivalence, and the comparison of the hashes never refuses equal data.
pub equals_iff :
    (fnv : List ℕ → ℕ) (s t : InputSignature)
    → IsMade fnv s
    → IsMade fnv t
    → (equals s t ≡ true) ↔ (identity s ≡ identity t)
equals_iff fnv s t hs ht = (
  λ e. (data_equal_iff fnv s t hs ht (equals_source s t e) (equals_modifiers s t e)).0 e,
  λ e. (data_equal_iff fnv s t hs ht (identity_parts s t e).0 (identity_parts s t e).1).1 e,
)
