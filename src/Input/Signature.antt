-- ===== src/Input/Signature.antt =====
-- platform/windows/input_signature.go: signatures of input events. A byte is a number below 256.
-- `fnv` is the 64-bit FNV-1a sum of the standard library over all the bytes written to it.
-- `DisplayHint` and `RecordedAt`, which are only shown, are left out.
pub mod Bytes
pub mod Equality
use clip_queue.Prelude.{
  ℕ, ◌+◌, ◌-◌, ◌*◌, ◌/◌, ◌%◌, Bool, true, false, not, ◌&&◌, ◌||◌, String, List, [], ◌∷◌, ◌++◌,
  Option, none, some, if◌then◌else◌, ltb, ◌==◌, length, take, replicate,
}

-- `InputSourceType`, a byte.
abbrev pub source_keyboard : ℕ
source_keyboard = 0

abbrev pub source_mouse_button : ℕ
source_mouse_button = 1

abbrev pub source_mouse_wheel : ℕ
source_mouse_wheel = 2

abbrev pub source_hid : ℕ
source_hid = 3

abbrev pub source_unknown : ℕ
source_unknown = 4

-- `InputSourceType.String`.
unfoldable pub source_name : ℕ → String
source_name s =
    if s == source_keyboard
    then "Keyboard"
    else if s == source_mouse_button
    then "Mouse"
    else if s == source_mouse_wheel
    then "Wheel"
    else if s == source_hid
    then "HID"
    else "Unknown"

pub record InputSignature : Type 0 where
  pub hash : ℕ
  pub raw_data : List ℕ
  pub source_type : ℕ
  pub modifier_state : ℕ

abbrev pub mod_ctrl : ℕ
mod_ctrl = 1

abbrev pub mod_alt : ℕ
mod_alt = 2

abbrev pub mod_shift : ℕ
mod_shift = 4

abbrev pub mod_win : ℕ
mod_win = 8

abbrev pub mouse_button_edge_legacy : ℕ
mouse_button_edge_legacy = 0

abbrev pub mouse_button_edge_down : ℕ
mouse_button_edge_down = 1

abbrev pub mouse_button_edge_up : ℕ
mouse_button_edge_up = 2

-- `bytes.Equal`
unfoldable pub bytes_equal : List ℕ → List ℕ → Bool
bytes_equal [] [] = true
bytes_equal [] (y ∷ ys) = false
bytes_equal (x ∷ xs) [] = false
bytes_equal (x ∷ xs) (y ∷ ys) = (x == y) && bytes_equal xs ys

-- `none` is the result with `ok` false.
unfoldable pub decode_mouse_button_raw_data : List ℕ → Option (ℕ × ℕ)
decode_mouse_button_raw_data [] = none
decode_mouse_button_raw_data (button ∷ []) = some (button, mouse_button_edge_legacy)
decode_mouse_button_raw_data (button ∷ edge ∷ _) = some (
  button,
  (if edge == mouse_button_edge_down || edge == mouse_button_edge_up
      then edge
      else mouse_button_edge_legacy),
)

-- The comparison of two decoded buttons.
unfoldable pub buttons_equal : Option (ℕ × ℕ) → Option (ℕ × ℕ) → Bool
buttons_equal none right = false
buttons_equal (some left) none = false
buttons_equal (some (left_button, left_edge)) (some (right_button, right_edge)) =
    if not (left_button == right_button)
    then false
    else if left_edge == mouse_button_edge_legacy || right_edge == mouse_button_edge_legacy
    then not (left_edge == mouse_button_edge_down) && not (right_edge == mouse_button_edge_down)
    else left_edge == right_edge

unfoldable pub mouse_button_raw_data_equal : List ℕ → List ℕ → Bool
unfolding decode_mouse_button_raw_data buttons_equal
mouse_button_raw_data_equal left right =
    buttons_equal (decode_mouse_button_raw_data left) (decode_mouse_button_raw_data right)

-- `Equals`
unfoldable pub equals : InputSignature → InputSignature → Bool
unfolding mouse_button_raw_data_equal bytes_equal
equals s other =
    if not (s.source_type == other.source_type)
    then false
    else if not (s.modifier_state == other.modifier_state)
    then false
    else if s.source_type == source_mouse_button
    then mouse_button_raw_data_equal s.raw_data other.raw_data
    else if not (s.hash == other.hash)
    then false
    else bytes_equal s.raw_data other.raw_data

-- The two bytes of a `uint16`, the low one first.
unfoldable pub uint16_bytes : ℕ → List ℕ
uint16_bytes n = n % 256 ∷ (n / 256) % 256 ∷ []

-- `ToBytes`
unfoldable pub to_bytes : InputSignature → List ℕ
unfolding uint16_bytes
to_bytes s =
    (1 ∷ s.source_type ∷ s.modifier_state ∷ []) ++ (uint16_bytes (length s.raw_data) ++ s.raw_data)

-- `make([]byte, n)`, filled from what is left of the input as far as that goes.
unfoldable pub read_padded : ℕ → List ℕ → List ℕ
read_padded n rest = take n rest ++ replicate (n - length rest) 0

pub data ReadError : Type 0 where
  too_short : ReadError
  unsupported_version : ℕ → ReadError
  bad_base64 : ReadError

pub data ReadResult : Type 0 where
  read_ok : InputSignature → ReadResult
  read_err : ReadError → ReadResult

module _ (fnv : List ℕ → ℕ) where
  -- `computeHash`, on the three parts that it reads.
  unfoldable pub compute_hash : ℕ → ℕ → List ℕ → ℕ
  compute_hash source_type modifiers raw_data = fnv (source_type ∷ modifiers ∷ raw_data)

  -- `NewInputSignature`
  unfoldable pub new_input_signature : ℕ → List ℕ → ℕ → InputSignature
  unfolding compute_hash
  new_input_signature source_type raw_data modifiers = record {
    hash = compute_hash source_type modifiers raw_data;
    raw_data = raw_data;
    source_type = source_type;
    modifier_state = modifiers;
  }

  -- The length and the raw data: `rawLen` stays 0 if its two bytes are not there.
  unfoldable pub read_raw : List ℕ → List ℕ
  unfolding read_padded
  read_raw (lo ∷ hi ∷ rest) = read_padded (lo + 256 * hi) rest
  read_raw _ = []

  -- `SignatureFromBytes`
  unfoldable pub signature_from_bytes : List ℕ → ReadResult
  unfolding new_input_signature read_raw
  signature_from_bytes (version ∷ source_type ∷ modifiers ∷ next ∷ rest) =
      if version == 1
      then read_ok (new_input_signature source_type (read_raw (next ∷ rest)) modifiers)
      else read_err (unsupported_version version)
  signature_from_bytes _ = read_err too_short

  -- `ToBase64` and `SignatureFromBase64`, with the standard library's two functions.
  module _ (encode : List ℕ → String) (decode : String → Option (List ℕ)) where
    unfoldable pub to_base64 : InputSignature → String
    unfolding to_bytes
    to_base64 s = encode (to_bytes s)

    unfoldable pub signature_from_base64 : String → ReadResult
    unfolding signature_from_bytes
    signature_from_base64 encoded = elim (decode encoded) [
      | none ↦ read_err bad_base64
      | some bytes ↦ signature_from_bytes bytes
    ]
