-- ===== src/Tests/Texts.antt =====
-- The text functions of backend/src/utils.hpp, the JSON functions of backend/src/handlers.cpp and
-- the configuration of backend/src/main.cpp on small inputs.
use frag.Prelude.{◌/◌, ◌%◌, ◌<◌, ◌≡◌, refl, [], ◌∷◌, ◌++◌, some, arith, All}
use frag.Prelude.Int.{pos, negsuc}
use frag.Text.{Bytes, codes}
use frag.Text.Number.{print_nat, print_int, stoull, stoll}
use frag.Utils.Base64.{base64_encode, base64_decode}
use frag.Utils.Base64.RoundTrip.{base64_decode-encode}
use frag.Utils.UrlDecode.{url_decode}
use frag.Utils.UrlDecode.RoundTrip.{percent_encode, url_decode-percent_encode}
use frag.Utils.Split.{split}
use frag.Utils.Trim.{trim}
use frag.Utils.Uuid.{uuid4}
use frag.Utils.Uuid.Shape.{IsUuid4, uuid4-IsUuid4}
use frag.Utils.JsonEscape.{json_escape, hex_digit}
use frag.Json.Read.{read_value, extract_string, extract_int}
use frag.Json.Escape.{read_value-json_escape, read_value-json_escape_control}
use frag.App.Config.{load_config}
use frag.App.CommandLine.{invocation, serves, usage}

abbrev greeting : Bytes
greeting = codes "a b"

abbrev quoted_greeting : Bytes
quoted_greeting = codes "a\"b"

encode_greeting : base64_encode greeting ≡ codes "YSBi"
unfolding base64_encode frag.Utils.Base64.b64_char
encode_greeting = refl

encode_padded : base64_encode (codes "a") ≡ codes "YQ=="
unfolding base64_encode frag.Utils.Base64.b64_char
encode_padded = refl

decode_plus : url_decode (codes "a+b%20c") ≡ codes "a b c"
unfolding url_decode
decode_plus = refl

split_path : split (codes "/api/x/") b'/' ≡ [] ∷ codes "api" ∷ codes "x" ∷ []
unfolding split
split_path = refl

trim_blanks : trim (codes " \tab \r\n") ≡ codes "ab"
unfolding trim frag.Utils.Trim.is_blank
trim_blanks = refl

escape_quote : json_escape quoted_greeting ≡ codes "a\\\"b"
unfolding json_escape
escape_quote = refl

abbrev sample_body : Bytes
sample_body = codes "{\"id\":\"i1\", \"ttl\": -5}"

extract_id : extract_string sample_body (codes "id") ≡ codes "i1"
unfolding extract_string frag.Json.Read.value_start frag.Text.find
extract_id = refl

extract_ttl : extract_int sample_body (codes "ttl") (pos 0) ≡ negsuc 4
unfolding extract_int frag.Json.Read.value_start frag.Text.find stoll
extract_ttl = refl

-- A value that reads like a key is taken for it: the reader goes on to the next member.
extract_confused :
    extract_string
      (codes "{\"id\":\"chat_id\",\"message_id\":\"m\",\"chat_id\":\"c\"}")
      (codes "chat_id")
    ≡ codes "m"
unfolding extract_string frag.Json.Read.value_start frag.Text.find
extract_confused = refl

configured_port : (load_config (some (codes "{\"port\": 9000}"))).port ≡ pos 9000
unfolding load_config frag.Text.find frag.Text.Number.stoi
configured_port = refl

config_flag : invocation (codes "-c" ∷ codes "x.json" ∷ []) ≡ serves (codes "x.json")
unfolding invocation
config_flag = refl

help_flag : invocation (codes "--help" ∷ []) ≡ usage
unfolding invocation
help_flag = refl

greeting-All : All (λ c. c < 256) greeting
greeting-All = (omega arith, (omega arith, (omega arith, tt)))

base64_decode-encode_example : base64_decode (base64_encode greeting) ≡ greeting
base64_decode-encode_example = base64_decode-encode greeting greeting-All

url_decode-percent_encode_example : url_decode (percent_encode greeting) ≡ greeting
url_decode-percent_encode_example = url_decode-percent_encode greeting greeting-All

read_value-json_escape_example :
    read_value (json_escape quoted_greeting ++ (b'"' ∷ codes ",")) ≡ quoted_greeting
read_value-json_escape_example =
    read_value-json_escape quoted_greeting (codes ",")
      (ground arith, (ground arith, (ground arith, tt)))

uuid_text :
    uuid4 0x0123456789abcdef 0xfedcba9876543210 ≡ codes "01234567-89ab-4def-bedc-ba9876543210"
unfolding uuid4 frag.Utils.JsonEscape.hex_digit
uuid_text = refl

uuid4-IsUuid4_example : IsUuid4 (uuid4 0x0123456789abcdef 0xfedcba9876543210)
uuid4-IsUuid4_example = uuid4-IsUuid4 0x0123456789abcdef 0xfedcba9876543210

read_value-json_escape_control_example :
    read_value (json_escape (1 ∷ []) ++ (b'"' ∷ []))
    ≡ b'u' ∷ b'0' ∷ b'0' ∷ hex_digit (1 / 16) ∷ hex_digit (1 % 16) ∷ []
read_value-json_escape_control_example =
    read_value-json_escape_control 1 [] (omega arith) (ground arith) (ground arith) (ground arith)
