-- ===== src/Input/Signature/Bytes.antt =====
-- Signatures written to bytes and read back.
use clip_queue.Prelude.{
  ℕ, ◌+◌, ◌-◌, ◌*◌, ◌/◌, ◌%◌, ◌<◌, ◌≡◌, refl, String, List, [], ◌∷◌, Option, some, append-nil,
  length, take, ap, arith,
}
use clip_queue.Input.Signature.{
  InputSignature, to_bytes, read_padded, read_ok, compute_hash, signature_from_bytes,
  new_input_signature, to_base64, signature_from_base64,
}

take_all {ℓ} : {A : Type ℓ} (xs : List A) → take (length xs) xs ≡ xs
take_all [] = refl
take_all (x ∷ xs) = ap (◌∷◌ x) (take_all xs)

read_padded_exact : (xs : List ℕ) → read_padded (length xs) xs ≡ xs
unfolding read_padded
read_padded_exact xs =
    let none_missing : length xs - length xs ≡ 0 = omega arith in
    rw (take_all xs, none_missing) (append-nil xs)

module _ (fnv : List ℕ → ℕ) where
  new_lem :
      (s : InputSignature)
      → s.hash ≡ compute_hash fnv s.source_type s.modifier_state s.raw_data
      → read_ok (new_input_signature fnv s.source_type s.raw_data s.modifier_state) ≡ read_ok s
  unfolding new_input_signature
  new_lem s hashed = ground arith

  -- A signature with its computed hash and fewer than 2^16 raw bytes is read back from its bytes.
  pub signature_from_bytes-to_bytes :
      (s : InputSignature)
      → length s.raw_data < 65536
      → s.hash ≡ compute_hash fnv s.source_type s.modifier_state s.raw_data
      → signature_from_bytes fnv (to_bytes s) ≡ read_ok s
  unfolding signature_from_bytes to_bytes
  signature_from_bytes-to_bytes s fits hashed =
      let whole : length s.raw_data % 256 + 256 * (length s.raw_data / 256 % 256)
          ≡ length s.raw_data =
        omega arith in
      rw (whole, read_padded_exact s.raw_data) (new_lem s hashed)

  module _ (encode : List ℕ → String) (decode : String → Option (List ℕ))
      (decode-encode : (bytes : List ℕ) → decode (encode bytes) ≡ some bytes) where
    -- The same through base64, if decoding undoes encoding.
    pub signature_from_base64-to_base64 :
        (s : InputSignature)
        → length s.raw_data < 65536
        → s.hash ≡ compute_hash fnv s.source_type s.modifier_state s.raw_data
        → signature_from_base64 fnv encode decode (to_base64 fnv encode decode s) ≡ read_ok s
    unfolding signature_from_base64 to_base64
    signature_from_base64-to_base64 s fits hashed =
        rw (decode-encode (to_bytes s), signature_from_base64)
          (signature_from_bytes-to_bytes s fits hashed)
