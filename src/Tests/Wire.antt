-- ===== src/Tests/Wire.antt =====
-- Requests and responses as they go over the connection (backend/src/server.cpp).
use frag.Prelude.{
  ◌≡◌, ◌+◌, refl, ℕ, false, List, [], ◌∷◌, some, arith, All, length, take, drop, is_empty,
}
use frag.Text.{Bytes, codes, find}
use frag.Dictionary.{HasDistinctKeys}
use frag.Http.{HttpResponse, ok, build_response}
use frag.Utils.Split.{split}
use frag.Utils.Split.RoundTrip.{joined_by, split-joined_by}
use frag.Server.Query.{parse_query}
use frag.Server.Query.RoundTrip.{print_query, parse_query-print_query}
use frag.Server.Receive.{declared_length}
use frag.Server.Receive.Chunks.{separator, joined}
use frag.Server.Parse.{read_and_parse}
use frag.Server.Message.{IsHeader}
use frag.Server.Message.Request.{Message, IsMessage, print_request, request_of}
use frag.Server.Message.RoundTrip.{read_and_parse-print_request}
use frag.Server.Message.Response.{build_response-framing}
use frag.Tests.Bodies.{sent_text}

split-joined_by_example :
    split (joined_by b'/' ([] ∷ codes "api" ∷ codes "x" ∷ [])) b'/'
    ≡ [] ∷ codes "api" ∷ codes "x" ∷ []
split-joined_by_example =
    split-joined_by b'/' ([] ∷ codes "api" ∷ codes "x" ∷ []) (ground arith) refl

abbrev pub chat_query : List (Bytes × Bytes)
chat_query = (codes "chat_id", codes "c1") ∷ (codes "since", codes "5") ∷ []

pub chat_query-distinct : HasDistinctKeys chat_query
chat_query-distinct = ((ground arith, tt), (tt, tt))

parse_query-print_query_example : parse_query (print_query chat_query) ≡ chat_query
parse_query-print_query_example =
    parse_query-print_query chat_query ground arith chat_query-distinct

abbrev pub bearer_header : Bytes × Bytes
bearer_header = (codes "Authorization", codes "Bearer secret")

pub bearer_header-IsHeader : IsHeader bearer_header
unfolding frag.Utils.Trim.trim frag.Utils.Trim.is_blank
bearer_header-IsHeader = record {
  is_line = record {
    name_line = ground arith;
    name_colon = ground arith;
    value_line = ground arith;
  };
  name_trimmed = refl;
  value_trimmed = refl;
}

abbrev pub length_header : Bytes × Bytes
length_header = (codes "Content-Length", codes "87")

pub length_header-IsHeader : IsHeader length_header
unfolding frag.Utils.Trim.trim frag.Utils.Trim.is_blank
length_header-IsHeader = record {
  is_line = record {
    name_line = ground arith;
    name_colon = ground arith;
    value_line = ground arith;
  };
  name_trimmed = refl;
  value_trimmed = refl;
}

abbrev pub post_message : Message
post_message = record {
  method = codes "POST";
  path = codes "/api/fragments";
  query = [];
  headers = bearer_header ∷ length_header ∷ [];
  body = sent_text;
}

text_length : length sent_text ≡ 87
text_length = refl

pub post_message-IsMessage : IsMessage post_message
unfolding frag.Utils.Case.to_lower frag.Utils.Case.lower_char frag.Dictionary.get frag.Text.same
    frag.Utils.Trim.trim frag.Utils.Trim.is_blank frag.Text.Number.stoull
    frag.Utils.UrlDecode.Paths.encode_path
post_message-IsMessage = record {
  method_space = ground arith;
  method_line = ground arith;
  path = ground arith;
  query = tt;
  query_keys = tt;
  headers = (bearer_header-IsHeader, (length_header-IsHeader, tt));
  header_keys = ((ground arith, tt), (tt, tt));
  declared = refl;
  small = omega arith;
}

-- The message in two chunks.
abbrev pub post_chunks : List Bytes
post_chunks = take 40 (print_request post_message) ∷ drop 40 (print_request post_message) ∷ []

pub post_chunks-joined : joined post_chunks ≡ print_request post_message
unfolding frag.Utils.UrlDecode.Paths.encode_path
post_chunks-joined = refl

pub post_chunks-full : All (λ chunk. is_empty chunk ≡ false) post_chunks
unfolding frag.Utils.UrlDecode.Paths.encode_path
post_chunks-full = (refl, (refl, tt))

read_and_parse-print_request_example : read_and_parse post_chunks ≡ request_of post_message
read_and_parse-print_request_example =
    read_and_parse-print_request post_message post_chunks post_message-IsMessage post_chunks-joined
      post_chunks-full

abbrev list_response : HttpResponse
list_response = ok (codes "[]")

build_response-framing_example :
    (pos : ℕ) × (find (build_response (codes "*") list_response) separator 0 ≡ some pos)
    × (declared_length (take (pos + 4) (build_response (codes "*") list_response)) ≡ 2)
    × (drop (pos + 4) (build_response (codes "*") list_response) ≡ codes "[]")
build_response-framing_example = build_response-framing (codes "*") list_response (record {
  status_text = ground arith;
  content_type = ground arith;
  origin = ground arith;
  small = omega arith;
})
