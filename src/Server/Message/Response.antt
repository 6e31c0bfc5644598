-- ===== src/Server/Message/Response.antt =====
-- The text of a response (`build_response` of backend/src/server.cpp) as a client takes it apart.
use frag.Prelude.{
  ℕ, ◌+◌, ◌<◌, ◌^◌, ◌≡◌, ◌≢◌, refl, ap, ◌∙◌, true, false, List, [], ◌∷◌, ◌++◌, map, some, arith,
  All, All-append, append_assoc, append-nil, length, take, drop, is_empty, if◌then◌else◌,
}
use mathlib.Core.Path.{ap₂}
use frag.Text.{Bytes, codes, find, same}
use frag.Text.Number.{is_digit, print_nat}
use frag.Text.Number.Digits.{print_nat-digits}
use frag.Text.Number.RoundTrip.{stoull-print_nat}
use frag.Dictionary.{get}
use frag.Utils.Case.{lower_char, to_lower}
use frag.Utils.Trim.{is_blank}
use frag.Utils.Trim.Padding.{trim-solid}
use frag.Utils.Split.Laws.{Lacks}
use frag.Http.{HttpResponse, build_response}
use frag.Server.Receive.{declared_length}
use frag.Server.Receive.Chunks.{separator}
use frag.Server.Message.{header_lines, IsLine}
use frag.Server.Message.Framing.{framed-Frames}
use frag.Server.Message.Length.{length_name, lower_header}
use frag.Server.Message.Declared.{length_in, declared_length-get}

-- The headers of a response.
abbrev pub response_headers : Bytes → HttpResponse → List (Bytes × Bytes)
response_headers cors_origin resp =
    (codes "Content-Type", resp.content_type ++ codes "; charset=utf-8")
    ∷ (codes "Content-Length", print_nat (length resp.body))
    ∷ (codes "Connection", codes "close")
    ∷ (codes "Access-Control-Allow-Origin", cors_origin)
    ∷ (codes "Access-Control-Allow-Methods", codes "GET, POST, DELETE, OPTIONS")
    ∷ (codes "Access-Control-Allow-Headers", codes "Content-Type, Authorization")
    ∷ []

abbrev pub status_line : HttpResponse → Bytes
status_line resp =
    codes "HTTP/1.1 "
    ++ (print_nat resp.status_code
        ++ (b' ' ∷ (if is_empty resp.status_text then codes "OK" else resp.status_text)))

build_response-lines :
    (cors_origin : Bytes) (resp : HttpResponse)
    → build_response cors_origin resp
      ≡ status_line resp
        ++ (b'\r' ∷ b'\n' ∷ (header_lines (response_headers cors_origin resp) ++ resp.body))
unfolding build_response
build_response-lines cors_origin resp = simp (append_assoc)

digit-plain : (c : ℕ) → is_digit c ≡ true → (c ≢ b'\r') × (is_blank c ≡ false) × (lower_char c ≡ c)
unfolding is_digit is_blank lower_char
digit-plain c h = ground arith

digits_line : (s : Bytes) → All (λ c. is_digit c ≡ true) s → Lacks b'\r' s
digits_line [] h = tt
digits_line (c ∷ s) (hc, h) = ((digit-plain c hc).0, digits_line s h)

digits_solid : (s : Bytes) → All (λ c. is_digit c ≡ true) s → All (λ c. is_blank c ≡ false) s
digits_solid [] h = tt
digits_solid (c ∷ s) (hc, h) = ((digit-plain c hc).1, digits_solid s h)

to_lower-digits : (s : Bytes) → All (λ c. is_digit c ≡ true) s → to_lower s ≡ s
unfolding to_lower
to_lower-digits [] h = refl
to_lower-digits (c ∷ s) (hc, h) = ap₂ (λ x xs. x ∷ xs) (digit-plain c hc).2 (to_lower-digits s h)

-- A printed number is read back from a header.
length_in-print_nat : (n : ℕ) → n < 2 ^ 64 → length_in (some (to_lower (print_nat n))) ≡ n
length_in-print_nat n small =
    let digits = print_nat-digits n in
    rw
      (
        to_lower-digits (print_nat n) digits,
        trim-solid (print_nat n) (digits_solid (print_nat n) digits),
        ← append-nil (print_nat n),
        stoull-print_nat n [] small tt,
      )
      refl

-- Texts of a response that stay within their line.
pub record IsClean (cors_origin : Bytes) (resp : HttpResponse) : Type 0 where
  pub status_text : Lacks b'\r' resp.status_text
  pub content_type : Lacks b'\r' resp.content_type
  pub origin : Lacks b'\r' cors_origin
  pub small : length resp.body < 2 ^ 64

module _ (cors_origin : Bytes) (resp : HttpResponse) (clean : IsClean cors_origin resp) where
  response_lines : All IsLine (response_headers cors_origin resp)
  response_lines = (
    (record {
      name_line = ground arith;
      name_colon = ground arith;
      value_line =
          All-append (λ c. c ≢ b'\r') resp.content_type (codes "; charset=utf-8") clean.content_type
            (ground arith);
    }),
    (
      record {
        name_line = ground arith;
        name_colon = ground arith;
        value_line = digits_line _ (print_nat-digits (length resp.body));
      },
      (
        record { name_line = ground arith; name_colon = ground arith; value_line = ground arith },
        (
          record { name_line = ground arith; name_colon = ground arith; value_line = clean.origin },
          (
            record {
              name_line = ground arith;
              name_colon = ground arith;
              value_line = ground arith;
            },
            (
              record {
                name_line = ground arith;
                name_colon = ground arith;
                value_line = ground arith;
              },
              tt,
            ),
          ),
        ),
      ),
    ),
  )

  status_line-Lacks : Lacks b'\r' (status_line resp)
  status_line-Lacks =
      All-append (λ c. c ≢ b'\r') (codes "HTTP/1.1 ") _ (ground arith)
        (All-append (λ c. c ≢ b'\r') (print_nat resp.status_code) _
          (digits_line _ (print_nat-digits resp.status_code))
          ((λ e. absurd (omega (arith, e))), text_line resp.status_text clean.status_text))
    where
      text_line :
          (text : Bytes)
          → Lacks b'\r' text
          → Lacks b'\r' (if is_empty text then codes "OK" else text)
      text_line [] h = ground arith
      text_line (c ∷ text) h = h

  declared_by_headers :
      length_in (get length_name (map lower_header (response_headers cors_origin resp)))
      ≡ length resp.body
  unfolding get same to_lower lower_char
  declared_by_headers = length_in-print_nat (length resp.body) clean.small

  -- In the text of a response whose status text, content type and allowed origin have no carriage
  -- return and whose body is shorter than 2 ^ 64, the first empty line ends the headers: behind it
  -- stands the body, and the Content-Length in front of it gives the length of the body.
  pub build_response-framing :
      (pos : ℕ) × (find (build_response cors_origin resp) separator 0 ≡ some pos)
      × (declared_length (take (pos + 4) (build_response cors_origin resp)) ≡ length resp.body)
      × (drop (pos + 4) (build_response cors_origin resp) ≡ resp.body)
  build_response-framing =
      let (pos, frames) =
        framed-Frames (status_line resp) (response_headers cors_origin resp) resp.body
          status_line-Lacks response_lines in
      rw (build_response-lines cors_origin resp) (
        pos,
        frames.found,
        ap declared_length frames.front
            ∙ declared_length-get (status_line resp) (response_headers cors_origin resp)
                status_line-Lacks response_lines
            ∙ declared_by_headers,
        frames.behind,
      )
