-- ===== src/Server/Message/Length.antt =====
-- The length that `read_and_parse` (backend/src/server.cpp) finds in written headers.
use frag.Prelude.{
  ℕ, ◌+◌, ◌<◌, ◌≡◌, refl, sym, ap, ◌∙◌, false, Option, none, inl, inr, List, [], ◌∷◌, ◌++◌, map,
  some, arith, All, append_assoc, length, Bool-cases, length-append,
}
use mathlib.Core.Path.{ap₂}
use frag.Text.{Bytes, codes, find_at, starts_with, same}
use frag.Text.Laws.{find_at-skip, find_at-append, same_iff, same_refl}
use frag.Dictionary.{get}
use frag.Utils.Case.{lower_char, to_lower}
use frag.Utils.Split.Laws.{Lacks}
use frag.Server.Message.Separator.{header_text-Lacks}
use frag.Server.Message.{header_text, header_lines, IsLine}

pub to_lower-append : (s t : Bytes) → to_lower (s ++ t) ≡ to_lower s ++ to_lower t
unfolding to_lower
to_lower-append [] t = refl
to_lower-append (c ∷ s) t = ap (◌∷◌ (lower_char c)) (to_lower-append s t)

pub to_lower-Lacks : (d : ℕ) (s : Bytes) → d < b'A' → Lacks d s → Lacks d (to_lower s)
unfolding to_lower lower_char
to_lower-Lacks d [] low h = tt
to_lower-Lacks d (c ∷ s) low (hc, h) = (λ e. ground (arith, low, hc), to_lower-Lacks d s low h)

abbrev pub lower_header : Bytes × Bytes → Bytes × Bytes
lower_header (name, value) = (to_lower name, to_lower value)

pub to_lower-header_lines :
    (headers : List (Bytes × Bytes))
    → to_lower (header_lines headers) ≡ header_lines (map lower_header headers)
unfolding to_lower lower_char
to_lower-header_lines [] = refl
to_lower-header_lines ((name, value) ∷ headers) =
    to_lower-append (header_text (name, value)) (b'\r' ∷ b'\n' ∷ header_lines headers)
    ∙ ap₂ (λ s t. s ++ t) (to_lower-append name (b':' ∷ b' ' ∷ value))
        (ap (λ t. b'\r' ∷ b'\n' ∷ t) (to_lower-header_lines headers))

pub lower_header-IsLine : (header : Bytes × Bytes) → IsLine header → IsLine (lower_header header)
lower_header-IsLine (name, value) h = record {
  name_line = to_lower-Lacks b'\r' name (omega arith) h.name_line;
  name_colon = to_lower-Lacks b':' name (omega arith) h.name_colon;
  value_line = to_lower-Lacks b'\r' value (omega arith) h.value_line;
}

-- A name behind which a colon stands.
starts_with-name :
    (wanted name rest : Bytes)
    → Lacks b':' wanted
    → Lacks b':' name
    → starts_with (wanted ++ (b':' ∷ [])) (name ++ (b':' ∷ rest)) ≡ same name wanted
unfolding starts_with same
starts_with-name [] [] rest hw hn = refl
starts_with-name [] (c ∷ name) rest hw (ne, hn) = ground (arith, ne)
starts_with-name (w ∷ wanted) [] rest (ne, hw) hn = ground (arith, ne)
starts_with-name (w ∷ wanted) (c ∷ name) rest (_, hw) (_, hn) =
    ground (arith, starts_with-name wanted name rest hw hn)

abbrev pub length_name : Bytes
length_name = codes "content-length"

abbrev pub length_key : Bytes
length_key = codes "\r\ncontent-length:"

length_name-Lacks : Lacks b':' length_name
length_name-Lacks = ground arith

-- Where the search from the end of a line in front of the headers stops, and what stands there.
pub data Search (headers : List (Bytes × Bytes)) (i : ℕ) : Option ℕ → Type 0 where
  not_there : get length_name headers ≡ none → Search headers i none
  there :
      (front value rest : Bytes)
      → get length_name headers ≡ some value
      → Lacks b'\r' value
      → b'\r' ∷ b'\n' ∷ header_lines headers
        ≡ front ++ (length_key ++ (b' ' ∷ (value ++ (b'\r' ∷ b'\n' ∷ rest))))
      → Search headers i (some (i + length front))

pass_other :
    (header : Bytes × Bytes) (s : Bytes) (i : ℕ)
    → IsLine header
    → same header.0 length_name ≡ false
    → find_at length_key (b'\r' ∷ b'\n' ∷ (header_text header ++ s)) i
      ≡ find_at length_key s (i + 2 + length (header_text header))
unfolding find_at starts_with
pass_other (name, value) s i h other =
    let key : starts_with (length_name ++ (b':' ∷ [])) (header_text (name, value) ++ s) ≡ false =
      ap (λ t. starts_with (length_name ++ (b':' ∷ [])) t)
        (append_assoc name (b':' ∷ b' ' ∷ value) s)
      ∙ starts_with-name length_name name _ length_name-Lacks h.name_colon
      ∙ other in
    rw key (
      find_at-skip b'\r' (codes "\ncontent-length:") (header_text (name, value)) s (i + 1 + 1)
        (header_text-Lacks name value h.name_line h.value_line)
      ∙ ap (find_at length_key s) {x = i + 1 + 1 + length (header_text (name, value))}
          (omega arith))

find_named :
    (value : Bytes) (headers : List (Bytes × Bytes)) (i : ℕ)
    → Lacks b'\r' value
    → Search
        ((length_name, value) ∷ headers)
        i
        (find_at length_key (b'\r' ∷ b'\n' ∷ header_lines ((length_name, value) ∷ headers)) i)
find_named value headers i no_line =
    let here : find_at length_key (b'\r' ∷ b'\n' ∷ header_lines ((length_name, value) ∷ headers)) i
        ≡ some (i + 0) =
      find_at-append length_key (b' ' ∷ (value ++ (b'\r' ∷ b'\n' ∷ header_lines headers))) i
      ∙ ap some (omega arith) in
    rw here (
      there [] value (header_lines headers) (unfold get in rw (same_refl length_name) refl) no_line
        refl)

-- A search that has passed over a header of another name.
Search-other :
    (name value : Bytes) (headers : List (Bytes × Bytes)) (i : ℕ) {result : Option ℕ}
    → same name length_name ≡ false
    → Search headers (i + 2 + length (header_text (name, value))) result
    → Search ((name, value) ∷ headers) i result
unfolding get
Search-other name value headers i other (not_there absent) = not_there (rw other absent)
Search-other name value headers i other (there front v rest found no_line splits) =
    let text = header_text (name, value) in
    let place : i + 2 + length text + length front ≡ i + length (b'\r' ∷ b'\n' ∷ (text ++ front)) =
      omega (arith, length-append text front) in
    rw place (
      there (b'\r' ∷ b'\n' ∷ (text ++ front)) v rest (rw other found) no_line (
        ap (λ t. b'\r' ∷ b'\n' ∷ t) (ap (λ t. text ++ t) splits ∙ sym (append_assoc text front _))))

pub find_length :
    (headers : List (Bytes × Bytes)) (i : ℕ)
    → All IsLine headers
    → Search headers i (find_at length_key (b'\r' ∷ b'\n' ∷ header_lines headers) i)
find_length [] i h = unfold find_at in unfold starts_with in unfold get in not_there refl
find_length ((name, value) ∷ headers) i (hd, h) = elim (Bool-cases (same name length_name)) [
  | inl e ↦
      let named = (same_iff name length_name).0 e in
      rw named (find_named value headers i hd.value_line)
  | inr e ↦ rw (pass_other (name, value) (b'\r' ∷ b'\n' ∷ header_lines headers) i hd e) (
      Search-other name value headers i e
        (find_length headers (i + 2 + length (header_text (name, value))) h))
]
