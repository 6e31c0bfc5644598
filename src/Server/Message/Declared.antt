-- ===== src/Server/Message/Declared.antt =====
-- `read_and_parse` (backend/src/server.cpp) reads the length of the body by a search of its own in
-- the header section, and the headers by a loop over the lines. They agree on written headers.
use frag.Prelude.{
  ℕ, ◌+◌, ◌-◌, ◌≡◌, refl, sym, ap, ◌∙◌, Option, none, List, [], ◌∷◌, ◌++◌, map, some, arith, All,
  append_assoc, length, length-append, take-append, drop-append,
}
use frag.Text.{Bytes, codes, find, substr}
use frag.Text.Laws.{find_zero, find-append, find_at-skip, find_at-append}
use frag.Text.Number.{stoull}
use frag.Dictionary.{get}
use frag.Utils.Case.{lower_char, to_lower}
use frag.Utils.Trim.{trim, is_blank}
use frag.Utils.Trim.Padding.{trim-cons}
use frag.Utils.Split.Laws.{Lacks}
use frag.Http.{crlf}
use frag.Server.Receive.{declared_length, or_zero}
use frag.Server.Message.{header_lines, IsLine}
use frag.Server.Message.Length.{
  length_name, length_key, lower_header, lower_header-IsLine, Search, not_there, there, find_length,
  to_lower-append, to_lower-Lacks, to_lower-header_lines,
}

-- The number in the value of the header, or 0.
abbrev pub length_in : Option Bytes → ℕ
length_in none = 0
length_in (some value) = or_zero (stoull (trim value))

-- What the search does by where the name and the end of its line are found.
declared_none :
    (section : Bytes) → find (to_lower section) length_key 0 ≡ none → declared_length section ≡ 0
unfolding declared_length
declared_none section absent = rw (absent, declared_length)

declared_some :
    (section : Bytes) (start end : ℕ)
    → find (to_lower section) length_key 0 ≡ some start
    → find (to_lower section) crlf (start + 17) ≡ some end
    → declared_length section
      ≡ or_zero (stoull (trim (substr (to_lower section) (start + 17) (end - (start + 17)))))
unfolding declared_length
declared_some section start end found ends = rw (found, declared_length, ends)

-- The value behind the name.
value_behind :
    (front value rest : Bytes)
    → Lacks b'\r' value
    → let text = front ++ (b' ' ∷ (value ++ (b'\r' ∷ b'\n' ∷ rest))) in
      (end : ℕ) × (find text crlf (length front) ≡ some end)
      × (trim (substr text (length front) (end - length front)) ≡ trim value)
value_behind front value rest no_line =
    let padded = b' ' ∷ value in
    let tail = b'\r' ∷ b'\n' ∷ rest in
    let n : length front + length padded - length front ≡ length padded = omega arith in
    (
      length front + length padded,
      (find-append front (padded ++ tail) crlf
          ∙ find_at-skip b'\r' (b'\n' ∷ []) padded tail (length front)
              ((λ e. absurd (omega (arith, e))), no_line)
          ∙ find_at-append crlf rest (length front + length padded)),
      rw (n, drop-append front (padded ++ tail), take-append padded tail)
          (trim-cons b' ' value (unfold is_blank in refl)),
    )

declared_found :
    (section line : Bytes) (headers : List (Bytes × Bytes)) (result : Option ℕ)
    → to_lower section ≡ line ++ (b'\r' ∷ b'\n' ∷ header_lines headers)
    → find (line ++ (b'\r' ∷ b'\n' ∷ header_lines headers)) length_key 0 ≡ result
    → Search headers (0 + length line) result
    → declared_length section ≡ length_in (get length_name headers)
declared_found section line headers none e found (not_there absent) =
    declared_none section (rw e found) ∙ ap length_in (sym absent)
declared_found section line headers _ e found (there front value rest named no_line splits) =
    let before = line ++ (front ++ length_key) in
    let (end, ends, same) = value_behind before value rest no_line in
    let whole : line ++ (b'\r' ∷ b'\n' ∷ header_lines headers)
        ≡ before ++ (b' ' ∷ (value ++ (b'\r' ∷ b'\n' ∷ rest))) =
      ap (λ t. line ++ t) (splits ∙ sym (append_assoc front length_key _))
      ∙ sym (append_assoc line (front ++ length_key) _) in
    let place : 0 + length line + length front + 17 ≡ length before =
      omega (arith, length-append line (front ++ length_key), length-append front length_key) in
    let lowered = e ∙ whole in
    declared_some section (0 + length line + length front) end (rw e found)
      (rw (lowered, place) ends)
    ∙ rw (lowered, place) (ap (λ s. or_zero (stoull s)) same ∙ ap length_in (sym named))

lower_lines :
    (headers : List (Bytes × Bytes))
    → to_lower (b'\r' ∷ b'\n' ∷ header_lines headers)
      ≡ b'\r' ∷ b'\n' ∷ header_lines (map lower_header headers)
unfolding to_lower lower_char
lower_lines headers = ap (λ t. b'\r' ∷ b'\n' ∷ t) (to_lower-header_lines headers)

lower_lines-IsLine :
    (headers : List (Bytes × Bytes)) → All IsLine headers → All IsLine (map lower_header headers)
lower_lines-IsLine [] h = tt
lower_lines-IsLine (header ∷ headers) (hd, h) =
    (lower_header-IsLine header hd, lower_lines-IsLine headers h)

-- The length that the search finds in written headers is the number in the value that the header
-- of that name has.
pub declared_length-get :
    (line : Bytes) (headers : List (Bytes × Bytes))
    → Lacks b'\r' line
    → All IsLine headers
    → declared_length (line ++ (b'\r' ∷ b'\n' ∷ header_lines headers))
      ≡ length_in (get length_name (map lower_header headers))
declared_length-get line headers no_line h =
    let low : to_lower (line ++ (b'\r' ∷ b'\n' ∷ header_lines headers))
        ≡ to_lower line ++ (b'\r' ∷ b'\n' ∷ header_lines (map lower_header headers)) =
      to_lower-append line (b'\r' ∷ b'\n' ∷ header_lines headers)
      ∙ ap (λ t. to_lower line ++ t) (lower_lines headers) in
    let search =
      find_length (map lower_header headers) (0 + length (to_lower line))
        (lower_lines-IsLine headers h) in
    declared_found _ (to_lower line) (map lower_header headers) _ low
      (find_zero (to_lower line ++ (b'\r' ∷ b'\n' ∷ header_lines (map lower_header headers)))
          length_key
        ∙ find_at-skip b'\r' (codes "\ncontent-length:") (to_lower line)
            (b'\r' ∷ b'\n' ∷ header_lines (map lower_header headers)) 0
            (to_lower-Lacks b'\r' line (omega arith) no_line))
      search
