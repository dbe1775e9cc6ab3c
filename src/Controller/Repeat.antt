-- ===== src/Controller/Repeat.antt =====
-- What repeats the newest history item, and how the history takes a new one.
use clip_queue.Prelude.{
  ℕ, zero, suc, ◌+◌, ◌<◌, ◌≤◌, ◌==◌, ==_iff, ◌≡◌, ◌≢◌, ◌↔◌, refl, ◌⊎◌, inl, inr, Bool, true, false,
  not, ◌&&◌, if◌then◌else◌, leb, ltb, String, str_eq, eq_iff, List, [], ◌∷◌, ◌++◌, length, drop,
  last?, none, some, Bool-cases, Option-cases, arith,
}
use clip_queue.Clipboard.Content.{Content, ContentType, empty, text, files, image, same_type}
use clip_queue.Controller.Watch.{second, clipboard_content_matches, duplicate_of, push_history}

-- The content behind the others, of which the oldest has gone if there were fifty already.
abbrev pub Pushed : Content → List Content → List Content → Type 0
Pushed content before after =
    ((length before < 50) × (after ≡ before ++ content ∷ []))
    ⊎ ((50 ≤ length before)
        × ((oldest : Content) × (rest : List Content) × (before ≡ oldest ∷ rest)
            × (after ≡ rest ++ content ∷ [])))

pub push_history-Pushed :
    (content : Content) (history : List Content)
    → Pushed content history (push_history content history)
unfolding push_history
push_history-Pushed content history = elim (Bool-cases (leb 50 (length history))) [
  | inr room ↦ rw room (inl (ground arith, refl))
  | inl full ↦ rw full (inr (ground arith, oldest_goes history (ground arith)))
]
  where
    oldest_goes :
        (history : List Content)
        → 50 ≤ length history
        → (oldest : Content) × (rest : List Content) × (history ≡ oldest ∷ rest)
          × (drop 1 history ++ content ∷ [] ≡ rest ++ content ∷ [])
    oldest_goes [] h = absurd (omega (arith, h))
    oldest_goes (x ∷ rest) h = (x, rest, refl, refl)

-- The same payload, as far as it is compared: texts as such, images by the numbers of the clipboard
-- they were read under, if both have one, and everything else by its size.
abbrev pub SamePayload : ContentType → Content → Content → Type 0
SamePayload text current previous = current.text ≡ previous.text
SamePayload image current previous =
    ((current.source_seq ≢ 0)
      × (previous.source_seq ≢ 0)
      × (current.source_seq ≡ previous.source_seq))
    ⊎ (((current.source_seq ≡ 0) ⊎ (previous.source_seq ≡ 0))
        × (current.size_bytes ≡ previous.size_bytes))
SamePayload files current previous = current.size_bytes ≡ previous.size_bytes
SamePayload empty current previous = current.size_bytes ≡ previous.size_bytes

-- The content has the type and the payload of the item and is less than a second younger.
abbrev pub Repeats : Content → Content → Type 0
Repeats content item =
    (content.kind ≡ item.kind)
    × (content.timestamp < item.timestamp + 1_000_000_000)
    × SamePayload content.kind content item

-- The content repeats the newest item.
abbrev pub IsRepeat : Content → List Content → Type 0
IsRepeat content history = (item : Content) × (last? history ≡ some item) × Repeats content item

pub same_type_iff : (k l : ContentType) → (same_type k l ≡ true) ↔ (k ≡ l)
same_type_iff empty empty = (λ e. refl, λ e. refl)
same_type_iff empty text = (λ e. cc, λ e. cc)
same_type_iff empty files = (λ e. cc, λ e. cc)
same_type_iff empty image = (λ e. cc, λ e. cc)
same_type_iff text empty = (λ e. cc, λ e. cc)
same_type_iff text text = (λ e. refl, λ e. refl)
same_type_iff text files = (λ e. cc, λ e. cc)
same_type_iff text image = (λ e. cc, λ e. cc)
same_type_iff files empty = (λ e. cc, λ e. cc)
same_type_iff files text = (λ e. cc, λ e. cc)
same_type_iff files files = (λ e. refl, λ e. refl)
same_type_iff files image = (λ e. cc, λ e. cc)
same_type_iff image empty = (λ e. cc, λ e. cc)
same_type_iff image text = (λ e. cc, λ e. cc)
same_type_iff image files = (λ e. cc, λ e. cc)
same_type_iff image image = (λ e. refl, λ e. refl)

matches_iff :
    (k : ContentType) (current previous : Content)
    → (elim k [
      | text ↦ str_eq current.text previous.text
      | image ↦
          if not (current.source_seq == 0) && not (previous.source_seq == 0)
          then current.source_seq == previous.source_seq
          else current.size_bytes == previous.size_bytes
      | _ ↦ current.size_bytes == previous.size_bytes
    ]
        ≡ true)
      ↔ SamePayload k current previous
matches_iff text current previous = eq_iff current.text previous.text
matches_iff files current previous = ==_iff current.size_bytes previous.size_bytes
matches_iff empty current previous = ==_iff current.size_bytes previous.size_bytes
matches_iff image current previous =
    images_iff current.source_seq previous.source_seq current.size_bytes previous.size_bytes
  where
    images_iff :
        (a b m n : ℕ)
        → ((if not (a == 0) && not (b == 0) then a == b else m == n) ≡ true)
          ↔ (((a ≢ 0) × (b ≢ 0) × (a ≡ b)) ⊎ (((a ≡ 0) ⊎ (b ≡ 0)) × (m ≡ n)))
    images_iff zero b m n = (
      λ e. inr (inl refl, (==_iff m n).0 e),
      λ h. elim h [ inl (na, nb, e) ↦ absurd (na refl) | inr (z, e) ↦ (==_iff m n).1 e ],
    )
    images_iff (suc a) zero m n =
        let some_a : (suc a == 0) ≡ false = ground arith in
        rw some_a (
          λ e. inr (inr refl, (==_iff m n).0 e),
          λ h. elim h [ inl (na, nb, e) ↦ absurd (nb refl) | inr (z, e) ↦ (==_iff m n).1 e ],
        )
    images_iff (suc a) (suc b) m n =
        let some_a : (suc a == 0) ≡ false = ground arith in
        let some_b : (suc b == 0) ≡ false = ground arith in
        rw (some_a, some_b)
          (
            λ e. inl (λ z. omega (arith, z), λ z. omega (arith, z), (==_iff (suc a) (suc b)).0 e),
            λ h. elim h [
              | inl (na, nb, e) ↦ (==_iff (suc a) (suc b)).1 e
              | inr (z, e) ↦
                  absurd (elim z [ inl za ↦ omega (arith, za) | inr zb ↦ omega (arith, zb) ])
            ],
          )

ltb_iff : (a b : ℕ) → (ltb a b ≡ true) ↔ (a < b)
ltb_iff a b = ground arith

and_iff : (a b : Bool) → ((a && b) ≡ true) ↔ ((a ≡ true) × (b ≡ true))
and_iff true b = (λ e. (refl, e), λ h. h.1)
and_iff false b = (λ e. cc, λ h. cc)

-- The test of `duplicate_of`.
is_repeat : Content → Content → Bool
is_repeat content last =
    same_type content.kind last.kind
    && ltb content.timestamp (last.timestamp + second)
    && clipboard_content_matches content last

is_repeat_iff : (content last : Content) → (is_repeat content last ≡ true) ↔ Repeats content last
unfolding is_repeat clipboard_content_matches
is_repeat_iff content last =
    let kinds = same_type_iff content.kind last.kind in
    let times = ltb_iff content.timestamp (last.timestamp + second) in
    let payloads = matches_iff content.kind content last in
    (
      λ e.
          let (both, payload) = (and_iff _ (clipboard_content_matches content last)).0 e in
          let (kind, time) = (and_iff (same_type content.kind last.kind) _).0 both in
          (kinds.0 kind, times.0 time, payloads.0 payload),
      λ h.
          let (kind, time, payload) = h in
          (and_iff _ (clipboard_content_matches content last)).1 (
            (and_iff (same_type content.kind last.kind) _).1 (kinds.1 kind, times.1 time),
            payloads.1 payload,
          ),
    )

pub duplicate_of-some :
    (content : Content) (history : List Content) (id : String)
    → duplicate_of content history ≡ some id
    → (item : Content) × (last? history ≡ some item) × Repeats content item × (item.id ≡ id)
unfolding duplicate_of is_repeat
duplicate_of-some content history id e = elim (Option-cases (last? history)) [
  | inl nothing ↦ cc
  | inr (item, newest) ↦ elim (Bool-cases (is_repeat content item)) [
    | inl same ↦
        let found : some item.id ≡ some id = rw (duplicate_of, newest, same) at e in
        (item, newest, (is_repeat_iff content item).0 same, cc)
    | inr other ↦ let missing : none ≡ some id = rw (duplicate_of, newest, other) at e in cc
  ]
]

pub duplicate_of-none :
    (content : Content) (history : List Content)
    → duplicate_of content history ≡ none
    → ¬ IsRepeat content history
unfolding duplicate_of is_repeat
duplicate_of-none content history e (item, newest, repeats) =
    let same : is_repeat content item ≡ true = (is_repeat_iff content item).1 repeats in
    let found : some item.id ≡ none = rw (duplicate_of, newest, same) at e in cc
