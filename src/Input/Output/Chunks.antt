-- ===== src/Input/Output/Chunks.antt =====
-- The inputs are sent in order, in chunks of at most fifty.
use clip_queue.Prelude.{
  true≢false, ℕ, zero, suc, ◌+◌, ◌≤◌, ◌<◌, ◌≡◌, refl, sym, ap, ◌∙◌, List, [], ◌∷◌, ◌++◌, Option,
  none, append-nil, append_assoc, arith, ◌==◌, ◌⊎◌, ◌≢◌, ==_iff, length, length-drop, take, drop,
  Bool-cases, inl, inr,
}
use clip_queue.Input.Sequence.{KeyboardInput, Step, sleep_ms, send}
use clip_queue.Input.Output.{chunk_size, get_last_error, send_chunks, send_all}

-- The inputs of all sends, in order.
unfoldable pub sent : List Step → List KeyboardInput
sent [] = []
sent (sleep_ms d ∷ steps) = sent steps
sent (send inputs ∷ steps) = inputs ++ sent steps

-- Every send has between one and fifty inputs.
abbrev pub Bounded : List Step → Type 0
Bounded [] = Unit
Bounded (sleep_ms d ∷ steps) = Bounded steps
Bounded (send inputs ∷ steps) = (0 < length inputs) × (length inputs ≤ chunk_size) × Bounded steps

pub take-drop {ℓ} : {A : Type ℓ} (n : ℕ) (xs : List A) → take n xs ++ drop n xs ≡ xs
take-drop zero xs = refl
take-drop (suc n) [] = refl
take-drop (suc n) (x ∷ xs) = ap (◌∷◌ x) (take-drop n xs)

length-take {ℓ} : {A : Type ℓ} (n : ℕ) (xs : List A) → length (take n xs) ≤ n
length-take zero xs = omega arith
length-take (suc n) [] = omega arith
length-take (suc n) (x ∷ xs) = omega (arith, length-take n xs)

module _ (answer : ℕ → List KeyboardInput → ℕ) (last_error : ℕ → ℕ) where
  -- The rest that is not sent is empty and there is no error, or a send was short and its code is
  -- the error.
  abbrev pub Outcome : List KeyboardInput → List Step × Option ℕ → Type 0
  Outcome inputs r =
      (rest : List KeyboardInput) × (sent r.0 ++ rest ≡ inputs)
      × (((rest ≡ []) × (r.1 ≡ none))
          ⊎ ((i : ℕ) × (chunk : List KeyboardInput) × (answer i chunk ≢ length chunk)
              × ((before : List KeyboardInput) × (sent r.0 ≡ before ++ chunk))
              × (r.1 ≡ get_last_error (last_error i))))

  send_chunks-Outcome :
      (fuel call : ℕ) (inputs : List KeyboardInput)
      → length inputs ≤ fuel
      → Outcome inputs (send_chunks answer last_error fuel call inputs)
  unfolding send_chunks sent
  send_chunks-Outcome zero call [] h = ([], refl, inl (refl, refl))
  send_chunks-Outcome zero call (x ∷ rest) h = absurd (omega arith)
  send_chunks-Outcome (suc fuel) call [] h = ([], refl, inl (refl, refl))
  send_chunks-Outcome (suc fuel) call (x ∷ rest) h =
      let chunk = take chunk_size (x ∷ rest) in
      let (left, e, all) =
        send_chunks-Outcome fuel (call + 1) (drop chunk_size (x ∷ rest))
          (omega (arith, length-drop chunk_size (x ∷ rest))) in
      elim (Bool-cases (answer call chunk == length chunk)) [
        | inl fine ↦
            rw (send_chunks, fine)
              (
                left,
                append_assoc chunk _ left
                    ∙ ap (λ t. chunk ++ t) e
                    ∙ take-drop chunk_size (x ∷ rest),
                elim all [
                  | inl done ↦ inl done
                  | inr (i, last, is_short, (before, at_end), failed) ↦ inr (
                    i,
                    last,
                    is_short,
                    (
                      chunk ++ before,
                      ap (λ t. chunk ++ t) at_end ∙ sym (append_assoc chunk before last),
                    ),
                    failed,
                  )
                ],
              )
        | inr short ↦
            let is_short : answer call chunk ≢ length chunk =
              λ e. true≢false (sym ((==_iff (answer call chunk) (length chunk)).1 e) ∙ short) in
            rw (send_chunks, short)
              (
                drop chunk_size (x ∷ rest),
                ap (λ t. t ++ drop chunk_size (x ∷ rest)) (append-nil chunk)
                    ∙ take-drop chunk_size (x ∷ rest),
                inr (call, chunk, is_short, ([], append-nil chunk), refl),
              )
      ]

  send_chunks-Bounded :
      (fuel call : ℕ) (inputs : List KeyboardInput)
      → Bounded (send_chunks answer last_error fuel call inputs).0
  unfolding send_chunks
  send_chunks-Bounded zero call inputs = tt
  send_chunks-Bounded (suc fuel) call [] = tt
  send_chunks-Bounded (suc fuel) call (x ∷ rest) =
      let chunk = take chunk_size (x ∷ rest) in
      let bound = length-take chunk_size (x ∷ rest) in
      elim (Bool-cases (answer call chunk == length chunk)) [
        | inl fine ↦
            rw (send_chunks, fine)
              (omega arith, bound, send_chunks-Bounded fuel (call + 1) (drop chunk_size (x ∷ rest)))
        | inr short ↦ rw (send_chunks, short) (omega arith, bound, tt)
      ]

  -- Whatever the sends report: each of them has between one and fifty inputs, and what they send is a
  -- first part of the inputs, in order. Either this is all of them and no error is returned, or the
  -- last send reported another number than it was given, and the error is the one of its code, nil
  -- for 0.
  pub send_all-sent :
      (inputs : List KeyboardInput)
      → let r = send_all answer last_error inputs in
        Bounded r.0
        × ((rest : List KeyboardInput) × (sent r.0 ++ rest ≡ inputs)
            × (((rest ≡ []) × (r.1 ≡ none))
                ⊎ ((i : ℕ) × (chunk : List KeyboardInput) × (answer i chunk ≢ length chunk)
                    × ((before : List KeyboardInput) × (sent r.0 ≡ before ++ chunk))
                    × (r.1 ≡ get_last_error (last_error i)))))
  unfolding send_all
  send_all-sent inputs = (
    send_chunks-Bounded (length inputs) 0 inputs,
    send_chunks-Outcome (length inputs) 0 inputs (omega arith),
  )

  pub send_all_lem :
      (inputs : List KeyboardInput)
      → ((i : ℕ) (chunk : List KeyboardInput) → answer i chunk ≡ length chunk)
      → (sent (send_all answer last_error inputs).0 ≡ inputs)
        × ((send_all answer last_error inputs).1 ≡ none)
  unfolding send_all
  send_all_lem inputs works =
      let r = send_chunks answer last_error (length inputs) 0 inputs in
      let (rest, e, outcome) = send_chunks-Outcome (length inputs) 0 inputs (omega arith) in
      elim outcome [
        | inl (done, fine) ↦
            (sym (append-nil (sent r.0)) ∙ ap (λ t. sent r.0 ++ t) (sym done) ∙ e, fine)
        | inr (i, chunk, short, at_end, failed) ↦ absurd (short (works i chunk))
      ]
