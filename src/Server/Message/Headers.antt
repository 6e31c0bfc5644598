-- ===== src/Server/Message/Headers.antt =====
-- The header loop of `read_and_parse` (backend/src/server.cpp) on written headers.
use frag.Prelude.{
  ℕ, zero, suc, ◌+◌, ◌-◌, ◌<◌, ◌≡◌, refl, sym, ap, ◌∙◌, true, false, ◌==◌, ==_refl, List, [], ◌∷◌,
  ◌++◌, map, some, arith, ltb, All, append_assoc, length, length-append, take-append, drop-append,
  drop_behind,
}
use frag.Text.{Bytes, find, substr}
use frag.Text.Laws.{find_zero, find-append, find_at-skip, find_at-append}
use frag.Dictionary.{put, put_all}
use frag.Utils.Case.{to_lower}
use frag.Utils.Trim.{trim}
use frag.Utils.Trim.Padding.{trim-cons}
use frag.Http.{crlf}
use frag.Server.Parse.{add_header, header_loop}
use frag.Server.Message.{header_text, header_lines, IsHeader, lower_name}
use frag.Server.Message.Separator.{header_text-Lacks}

-- A line of a header writes the value under the name in lower case.
add_header-put :
    (name value : Bytes) (headers : List (Bytes × Bytes))
    → IsHeader (name, value)
    → add_header headers (header_text (name, value)) ≡ put (to_lower name) value headers
unfolding add_header
add_header-put name value headers h =
    let colon : find (name ++ (b':' ∷ b' ' ∷ value)) (b':' ∷ []) 0 ≡ some (length name) =
      find_zero (name ++ (b':' ∷ b' ' ∷ value)) (b':' ∷ [])
      ∙ find_at-skip b':' [] name (b':' ∷ b' ' ∷ value) 0 h.is_line.name_colon
      ∙ find_at-append (b':' ∷ []) (b' ' ∷ value) (0 + length name)
      ∙ ap some (omega arith) in
    let padded : trim (b' ' ∷ value) ≡ value =
      trim-cons b' ' value (unfold frag.Utils.Trim.is_blank in refl) ∙ h.value_trimmed in
    rw (
      colon,
      add_header,
      take-append name (b':' ∷ b' ' ∷ value),
      drop_behind name b':' (b' ' ∷ value),
      padded,
      h.name_trimmed,
    )

-- The end of a header line.
find_line :
    (header : Bytes × Bytes) (front rest : Bytes)
    → IsHeader header
    → find (front ++ (header_text header ++ (b'\r' ∷ b'\n' ∷ rest))) crlf (length front)
      ≡ some (length front + length (header_text header))
find_line header front rest h =
    find-append front (header_text header ++ (b'\r' ∷ b'\n' ∷ rest)) crlf
    ∙ find_at-skip b'\r' (b'\n' ∷ []) (header_text header) (b'\r' ∷ b'\n' ∷ rest) (length front)
        (header_text-Lacks header.0 header.1 h.is_line.name_line h.is_line.value_line)
    ∙ find_at-append crlf rest (length front + length (header_text header))

substr_line :
    (front text rest raw : Bytes)
    → raw ≡ front ++ (text ++ rest)
    → substr raw (length front) (length front + length text - length front) ≡ text
substr_line front text rest raw e =
    let n : length front + length text - length front ≡ length text = omega arith in
    rw (n, e, drop-append front (text ++ rest)) (take-append text rest)

-- From the end of the text in front, the loop writes all headers.
pub header_loop-put_all :
    (headers : List (Bytes × Bytes)) (rounds : ℕ) (raw front body : Bytes)
    (known : List (Bytes × Bytes))
    → All IsHeader headers
    → length headers < rounds
    → raw ≡ front ++ (header_lines headers ++ body)
    → header_loop rounds raw (length front) known ≡ put_all known (map lower_name headers)
unfolding header_loop
header_loop-put_all headers zero raw front body known h enough e = absurd (omega (arith, enough))
header_loop-put_all [] (suc rounds) raw front body known h enough e =
    let inside : ltb (length front) (length raw) ≡ true =
      ground (arith, ap length e, length-append front (b'\r' ∷ b'\n' ∷ body)) in
    let here : find raw crlf (length front) ≡ some (length front) =
      ap (λ t. find t crlf (length front)) e
      ∙ find-append front (b'\r' ∷ b'\n' ∷ body) crlf
      ∙ find_at-append crlf body (length front) in
    rw (inside, here, header_loop, ==_refl (length front)) refl
header_loop-put_all ((name, value) ∷ headers) (suc rounds) raw front body known (hd, h) enough e =
    let text = header_text (name, value) in
    let rest = header_lines headers ++ body in
    let whole : raw ≡ front ++ (text ++ (b'\r' ∷ b'\n' ∷ rest)) =
      e ∙ ap (λ t. front ++ t) (append_assoc text (b'\r' ∷ b'\n' ∷ header_lines headers) body) in
    let inside : ltb (length front) (length raw) ≡ true = ground (
      arith,
      ap length whole,
      length-append front (text ++ (b'\r' ∷ b'\n' ∷ rest)),
      length-append text (b'\r' ∷ b'\n' ∷ rest),
    ) in
    let end : find raw crlf (length front) ≡ some (length front + length text) =
      ap (λ t. find t crlf (length front)) whole ∙ find_line (name, value) front rest hd in
    let moved : ((length front + length text) == length front) ≡ false =
      ground (arith, length-append name (b':' ∷ b' ' ∷ value)) in
    let line : substr raw (length front) (length front + length text - length front) ≡ text =
      substr_line front text (b'\r' ∷ b'\n' ∷ rest) raw whole in
    let next : length front + length text + 2 ≡ length (front ++ (text ++ (b'\r' ∷ b'\n' ∷ []))) =
      omega (
        arith,
        length-append front (text ++ (b'\r' ∷ b'\n' ∷ [])),
        length-append text (b'\r' ∷ b'\n' ∷ []),
      ) in
    let later : raw ≡ (front ++ (text ++ (b'\r' ∷ b'\n' ∷ []))) ++ rest =
      whole
      ∙ ap (λ t. front ++ t) (sym (append_assoc text (b'\r' ∷ b'\n' ∷ []) rest))
      ∙ sym (append_assoc front (text ++ (b'\r' ∷ b'\n' ∷ [])) rest) in
    rw (inside, end, header_loop, moved, line, add_header-put name value known hd, next)
      (header_loop-put_all headers rounds raw (front ++ (text ++ (b'\r' ∷ b'\n' ∷ []))) body _ h
        (omega (arith, enough)) later)
