-- ===== src/Clipboard/Content.antt =====
-- platform/windows/clipboard.go: the type of a clipboard item. A time is in nanoseconds.
use clip_queue.Prelude.{ℕ, Bool, true, false, not, ◌&&◌, String, List, [], length, ◌==◌}

pub data ContentType : Type 0 where
  empty text files image : ContentType

-- `ContentType.String`. The `default` branch is for numbers that are none of the four constants.
unfoldable pub type_name : ContentType → String
type_name empty = "Empty"
type_name text = "Text"
type_name files = "Files"
type_name image = "Image"

-- `a == b` on two values of the enumeration.
abbrev pub same_type : ContentType → ContentType → Bool
same_type empty empty = true
same_type text text = true
same_type files files = true
same_type image image = true
same_type _ _ = false

pub record Content : Type 0 where
  pub id : String
  pub timestamp : ℕ
  pub kind : ContentType
  pub text : String
  pub files : List String
  pub image_png : List ℕ
  pub size_bytes : ℕ
  pub preview : String
  pub source_seq : ℕ

-- `ClipboardContent.NeedsImageCapture`.
unfoldable pub needs_image_capture : Content → Bool
needs_image_capture c =
    same_type c.kind image && (length c.image_png == 0) && not (c.source_seq == 0)

-- Go's zero value of the struct.
unfoldable pub zero_content : Content
zero_content = record {
  id = "";
  timestamp = 0;
  kind = empty;
  text = "";
  files = [];
  image_png = [];
  size_bytes = 0;
  preview = "";
  source_seq = 0;
}
