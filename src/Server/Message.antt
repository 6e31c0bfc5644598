-- ===== src/Server/Message.antt =====
-- A request as a client writes it (RFC 9112), to be read by `read_and_parse` of
-- backend/src/server.cpp.
pub mod Separator
pub mod Headers
pub mod Length
pub mod Declared
pub mod Framing
pub mod Target
pub mod Request
pub mod RoundTrip
pub mod Response
use frag.Prelude.{ℕ, ◌≡◌, ◌≢◌, List, [], ◌∷◌, ◌++◌, All, map}
use frag.Text.{Bytes, codes}
use frag.Dictionary.{HasDistinctKeys}
use frag.Utils.Case.{to_lower}
use frag.Utils.Trim.{trim}
use frag.Utils.Split.Laws.{Lacks}

-- A header line without its end, and the whole header section with the empty line behind it.
abbrev pub header_text : Bytes × Bytes → Bytes
header_text (name, value) = name ++ (b':' ∷ b' ' ∷ value)

abbrev pub header_lines : List (Bytes × Bytes) → Bytes
header_lines [] = b'\r' ∷ b'\n' ∷ []
header_lines (header ∷ headers) = header_text header ++ (b'\r' ∷ b'\n' ∷ header_lines headers)

-- A name without colons, and a value; neither holds a carriage return.
pub record IsLine (header : Bytes × Bytes) : Type 0 where
  pub name_line : Lacks b'\r' header.0
  pub name_colon : Lacks b':' header.0
  pub value_line : Lacks b'\r' header.1

-- A header whose name and value have no blanks at their ends.
pub record IsHeader (header : Bytes × Bytes) : Type 0 where
  pub is_line : IsLine header
  pub name_trimmed : trim header.0 ≡ header.0
  pub value_trimmed : trim header.1 ≡ header.1

pub headers-IsLine : (headers : List (Bytes × Bytes)) → All IsHeader headers → All IsLine headers
headers-IsLine [] h = tt
headers-IsLine (header ∷ headers) (hd, h) = (hd.is_line, headers-IsLine headers h)

-- The headers under their names in lower case.
abbrev pub lower_name : Bytes × Bytes → Bytes × Bytes
lower_name (name, value) = (to_lower name, value)
