-- ===== src/Server/Message/RoundTrip.antt =====
-- `read_and_parse` (backend/src/server.cpp) on a request that is written, sent and received.
use frag.Prelude.{
  ℕ, ◌+◌, ◌<◌, ◌≡◌, ◌≢◌, refl, sym, ap, ◌∙◌, false, ◌&&◌, inl, inr, List, [], ◌∷◌, ◌++◌, map, some,
  arith, ltb, All, All-append, append_assoc, length, length-append, take, take-append, Bool-cases,
  is_empty, is_empty-append, if◌then◌else◌,
}
use mathlib.Core.Path.{ap₂}
use frag.Text.{Bytes, codes, find, substr_from}
use frag.Text.Laws.{find_zero, find_at-skip, find_at-append}
use frag.Dictionary.{put_all-new}
use frag.Utils.Split.Laws.{Lacks}
use frag.Http.{empty_request, crlf}
use frag.Server.Receive.{Received, declared_length}
use frag.Server.Receive.Chunks.{joined, late, IsWhole, no_bytes, receive_loop-late}
use frag.Server.Parse.{
  parse_request, parse_lines, read_and_parse, set_target, raw_target, header_loop,
}
use frag.Server.Message.{header_text, header_lines, lower_name, headers-IsLine}
use frag.Server.Message.Request.{Message, IsMessage, request_line, print_request, request_of}
use frag.Server.Message.Framing.{head, head-append, Frames, framed-Frames}
use frag.Server.Message.Headers.{header_loop-put_all}
use frag.Server.Message.Declared.{declared_length-get}
use frag.Server.Message.Target.{
  target_text, target_text-Lacks, space-IsOutside, line-IsOutside, set_target-target_text,
  raw_target-middle,
}

length_headers : (headers : List (Bytes × Bytes)) → length headers < length (header_lines headers)
length_headers [] = omega arith
length_headers (header ∷ headers) = omega (
  arith,
  length_headers headers,
  length-append (header_text header) (b'\r' ∷ b'\n' ∷ header_lines headers),
)

parse_request-found :
    (st : Received) (line_end m_end : ℕ)
    → is_empty st.raw ≡ false
    → find st.raw crlf 0 ≡ some line_end
    → find (take line_end st.raw) (b' ' ∷ []) 0 ≡ some m_end
    → parse_request st ≡ parse_lines st line_end (take line_end st.raw) m_end
unfolding parse_request
parse_request-found st line_end m_end full line method = rw (full, line, parse_request, method)

module _ (m : Message) (h : IsMessage m) where
  request_line-Lacks : Lacks b'\r' (request_line m)
  request_line-Lacks =
      All-append (λ c. c ≢ b'\r') m.method _ h.method_line
        (
          (λ e. absurd (omega (arith, e))),
          All-append (λ c. c ≢ b'\r') (target_text m.path m.query) (b' ' ∷ codes "HTTP/1.1")
              (target_text-Lacks b'\r' m.path m.query line-IsOutside h.path h.query) (ground arith),
        )

  text_IsWhole :
      (pos : ℕ) → Frames (request_line m) m.headers m.body pos → IsWhole (print_request m) pos
  text_IsWhole pos frames =
      let declared : declared_length (take (pos + 4) (print_request m)) ≡ length m.body =
        ap declared_length frames.front
        ∙ declared_length-get (request_line m) m.headers request_line-Lacks
            (headers-IsLine m.headers h.headers)
        ∙ h.declared in
      let whole = head-append (request_line m) m.headers m.body in
      (
        frames.found,
        omega (
          arith,
          declared,
          frames.place,
          ap length whole,
          length-append (head (request_line m) m.headers) m.body,
        ),
        h.small,
      )

  line_end : find (print_request m) crlf 0 ≡ some (length (request_line m))
  line_end =
      find_zero (print_request m) crlf
      ∙ find_at-skip b'\r' (b'\n' ∷ []) (request_line m) _ 0 request_line-Lacks
      ∙ find_at-append crlf (header_lines m.headers ++ m.body) (0 + length (request_line m))
      ∙ ap some (omega arith)

  method_end : find (request_line m) (b' ' ∷ []) 0 ≡ some (length m.method)
  method_end =
      find_zero (request_line m) (b' ' ∷ [])
      ∙ find_at-skip b' ' [] m.method _ 0 h.method_space
      ∙ find_at-append (b' ' ∷ []) _ (0 + length m.method)
      ∙ ap some (omega arith)

  target_of_line :
      set_target
        (record empty_request { method = take (length m.method) (request_line m) })
        (raw_target (request_line m) (length m.method + 1))
      ≡ record empty_request { method = m.method; path = m.path; query_params = m.query }
  target_of_line =
      ap₂ (λ method target. set_target (record empty_request { method = method }) target)
        (take-append m.method _)
        (raw_target-middle m.method (target_text m.path m.query) (codes "HTTP/1.1")
          (target_text-Lacks b' ' m.path m.query space-IsOutside h.path h.query))
      ∙ set_target-target_text m.method m.path m.query h.path h.query h.query_keys

  headers_of_text :
      header_loop (length (print_request m)) (print_request m) (length (request_line m) + 2) []
      ≡ map lower_name m.headers
  headers_of_text =
      let front = request_line m ++ (b'\r' ∷ b'\n' ∷ []) in
      let place : length (request_line m) + 2 ≡ length front =
        omega (arith, length-append (request_line m) (b'\r' ∷ b'\n' ∷ [])) in
      let splits =
        sym
          (append_assoc (request_line m) (b'\r' ∷ b'\n' ∷ []) (header_lines m.headers ++ m.body)) in
      let rounds : length m.headers < length (print_request m) = omega (
        arith,
        length_headers m.headers,
        ap length splits,
        length-append front (header_lines m.headers ++ m.body),
        length-append (header_lines m.headers) m.body,
      ) in
      rw place (
        header_loop-put_all m.headers _ (print_request m) front m.body [] h.headers rounds splits
        ∙ put_all-new (map lower_name m.headers) h.header_keys)

  -- What stands behind the headers.
  body_of_text :
      (pos : ℕ)
      → Frames (request_line m) m.headers m.body pos
      → (if ltb 0 (pos + 4) && ltb (pos + 4) (length (print_request m))
          then substr_from (print_request m) (pos + 4)
          else [])
        ≡ m.body
  body_of_text pos frames =
      elim (Bool-cases (ltb 0 (pos + 4) && ltb (pos + 4) (length (print_request m)))) [
        | inl more ↦ rw more frames.behind
        | inr less ↦
            let whole = head-append (request_line m) m.headers m.body in
            rw less (
              sym (
                no_bytes m.body (
                  ground (
                    arith,
                    less,
                    frames.place,
                    ap length whole,
                    length-append (head (request_line m) m.headers) m.body,
                  ))))
      ]

  parse_lines-late :
      (pos : ℕ)
      → Frames (request_line m) m.headers m.body pos
      → parse_lines
          (late (print_request m) pos)
          (length (request_line m))
          (request_line m)
          (length m.method)
        ≡ request_of m
  unfolding parse_lines
  parse_lines-late pos frames = rw (target_of_line, headers_of_text, body_of_text pos frames) refl

  parse_request-late :
      (pos : ℕ)
      → Frames (request_line m) m.headers m.body pos
      → parse_request (late (print_request m) pos) ≡ request_of m
  parse_request-late pos frames =
      let line : take (length (request_line m)) (print_request m) ≡ request_line m =
        take-append (request_line m) (b'\r' ∷ b'\n' ∷ (header_lines m.headers ++ m.body)) in
      parse_request-found (late (print_request m) pos) (length (request_line m)) (length m.method)
        (is_empty-append (request_line m) b'\r' _) line_end (rw line method_end)
      ∙ ap
          (λ l.
            parse_lines (late (print_request m) pos) (length (request_line m)) l (length m.method))
          line
      ∙ parse_lines-late pos frames

-- A message is read back from its text, however it is split into chunks that are not empty: method,
-- path, query parameters, headers under their names in lower case, and body. The method has no
-- space; path and parameters are bytes, which the text percent-encodes; parameters and lower-case
-- header names differ; method and headers have no carriage return, header names no colon, and
-- neither names nor values blanks at their ends; the Content-Length header gives the length of the
-- body, or is missing where that is empty; and the text is below the limit.
pub read_and_parse-print_request :
    (m : Message) (chunks : List Bytes)
    → IsMessage m
    → joined chunks ≡ print_request m
    → All (λ chunk. is_empty chunk ≡ false) chunks
    → read_and_parse chunks ≡ request_of m
unfolding read_and_parse
read_and_parse-print_request m chunks h sent full =
    let (pos, frames) =
      framed-Frames (request_line m) m.headers m.body (request_line-Lacks m h)
        (headers-IsLine m.headers h.headers) in
    let whole : IsWhole (joined chunks) pos = rw sent (text_IsWhole m h pos frames) in
    ap parse_request (receive_loop-late chunks pos whole full)
    ∙ ap (λ text. parse_request (late text pos)) sent
    ∙ parse_request-late m h pos frames
