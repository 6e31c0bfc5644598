-- ===== src/Handlers/Body.antt =====
-- A body with the members that the browser client writes for a fragment (frontend/js/app.js,
-- `sendMessage`), read by `make_post_fragment_handler` of backend/src/handlers.cpp.
pub mod Client
use frag.Prelude.{◌≡◌, ◌≢◌, refl, ◌∙◌, List, [], ◌∷◌, ◌++◌, arith, All, ◌==◌, ◌||◌, false}
use frag.Prelude.Int.{ℤ, pos}
use frag.Text.{Bytes, codes}
use frag.Text.Number.{print_int, is_digit}
use frag.Text.Number.RoundTrip.{IsInt64, stoll-print_int, print_int_first}
use frag.Fragment.{Fragment}
use frag.Json.Read.{extract_string, extract_int, skip_blanks}
use frag.Handlers.{fragment_of_body}
use frag.Json.Members.{Plain}
use frag.Json.Members.Extract.{object, extract_string-among, extract_int-object}

abbrev pub field_names : List Bytes
field_names =
    codes "id"
    ∷ codes "message_id"
    ∷ codes "chat_id"
    ∷ codes "sender_hash"
    ∷ codes "payload"
    ∷ codes "ttl"
    ∷ []

-- The members with a text, in the order in which the client writes them.
abbrev texts : Fragment → List (Bytes × Bytes)
texts f =
    (codes "id", f.id)
    ∷ (codes "message_id", f.message_id)
    ∷ (codes "chat_id", f.chat_id)
    ∷ (codes "sender_hash", f.sender_hash)
    ∷ (codes "payload", f.payload)
    ∷ []

-- The members of a fragment without white space, each text as it is between its quotes.
abbrev pub client_body : Fragment → Bytes
client_body f = object (texts f) (codes "ttl") (print_int f.ttl ++ codes "}")

-- A text without quotes and backslashes that is not the name of a field.
abbrev pub IsValue : Bytes → Type 0
IsValue v = Plain v × All (λ name. v ≢ name) field_names

pub record IsSendable (f : Fragment) : Type 0 where
  pub id : IsValue f.id
  pub message_id : IsValue f.message_id
  pub chat_id : IsValue f.chat_id
  pub sender_hash : IsValue f.sender_hash
  pub payload : IsValue f.payload
  pub ttl : IsInt64 f.ttl

skip_blanks-print_int :
    (x : ℤ) (rest : Bytes) → skip_blanks (print_int x ++ rest) ≡ print_int x ++ rest
unfolding skip_blanks
skip_blanks-print_int x rest =
    let (c, (s, begins, first)) = print_int_first x rest in
    let solid : ((c == b' ') || (c == b'\t')) ≡ false = unfold is_digit in ground arith in
    rw (begins, solid)

-- What a member in front of a key needs, by its name and its value.
beside :
    {key name v : Bytes}
    → Plain name
    → name ≢ key
    → IsValue v
    → v ≢ key
    → (Plain name × (name ≢ key)) × (Plain v × (v ≢ key))
beside plain other value different = ((plain, other), (value.0, different))

module _ (f : Fragment) (h : IsSendable f) where
  read_id : extract_string (client_body f) (codes "id") ≡ f.id
  read_id =
      extract_string-among (codes "id") f.id []
        ((codes "message_id", f.message_id)
          ∷ (codes "chat_id", f.chat_id)
          ∷ (codes "sender_hash", f.sender_hash)
          ∷ (codes "payload", f.payload)
          ∷ [])
        (codes "ttl") _ (ground arith) tt h.id.0

  read_message_id : extract_string (client_body f) (codes "message_id") ≡ f.message_id
  read_message_id =
      extract_string-among (codes "message_id") f.message_id ((codes "id", f.id) ∷ [])
        ((codes "chat_id", f.chat_id)
          ∷ (codes "sender_hash", f.sender_hash)
          ∷ (codes "payload", f.payload)
          ∷ [])
        (codes "ttl") _ (ground arith)
        (beside (ground arith) (ground arith) h.id (ground (arith, h.id.1)), tt) h.message_id.0

  read_chat_id : extract_string (client_body f) (codes "chat_id") ≡ f.chat_id
  read_chat_id =
      extract_string-among (codes "chat_id") f.chat_id
        ((codes "id", f.id) ∷ (codes "message_id", f.message_id) ∷ [])
        ((codes "sender_hash", f.sender_hash) ∷ (codes "payload", f.payload) ∷ []) (codes "ttl") _
        (ground arith)
        (
          beside (ground arith) (ground arith) h.id (ground (arith, h.id.1)),
          (beside (ground arith) (ground arith) h.message_id (ground (arith, h.message_id.1)), tt),
        )
        h.chat_id.0

  read_sender_hash : extract_string (client_body f) (codes "sender_hash") ≡ f.sender_hash
  read_sender_hash =
      extract_string-among (codes "sender_hash") f.sender_hash
        ((codes "id", f.id)
          ∷ (codes "message_id", f.message_id)
          ∷ (codes "chat_id", f.chat_id)
          ∷ [])
        ((codes "payload", f.payload) ∷ []) (codes "ttl") _ (ground arith)
        (
          beside (ground arith) (ground arith) h.id (ground (arith, h.id.1)),
          (
            beside (ground arith) (ground arith) h.message_id (ground (arith, h.message_id.1)),
            (beside (ground arith) (ground arith) h.chat_id (ground (arith, h.chat_id.1)), tt),
          ),
        )
        h.sender_hash.0

  read_payload : extract_string (client_body f) (codes "payload") ≡ f.payload
  read_payload =
      extract_string-among (codes "payload") f.payload
        ((codes "id", f.id)
          ∷ (codes "message_id", f.message_id)
          ∷ (codes "chat_id", f.chat_id)
          ∷ (codes "sender_hash", f.sender_hash)
          ∷ [])
        [] (codes "ttl") _ (ground arith)
        (
          beside (ground arith) (ground arith) h.id (ground (arith, h.id.1)),
          (
            beside (ground arith) (ground arith) h.message_id (ground (arith, h.message_id.1)),
            (
              beside (ground arith) (ground arith) h.chat_id (ground (arith, h.chat_id.1)),
              (
                beside (ground arith) (ground arith) h.sender_hash
                    (ground (arith, h.sender_hash.1)),
                tt,
              ),
            ),
          ),
        )
        h.payload.0

  read_ttl : extract_int (client_body f) (codes "ttl") (pos 0) ≡ f.ttl
  unfolding is_digit
  read_ttl =
      extract_int-object (codes "ttl") (ground arith) (texts f)
        (
          beside (ground arith) (ground arith) h.id (ground (arith, h.id.1)),
          (
            beside (ground arith) (ground arith) h.message_id (ground (arith, h.message_id.1)),
            (
              beside (ground arith) (ground arith) h.chat_id (ground (arith, h.chat_id.1)),
              (
                beside (ground arith) (ground arith) h.sender_hash
                    (ground (arith, h.sender_hash.1)),
                (beside (ground arith) (ground arith) h.payload (ground (arith, h.payload.1)), tt),
              ),
            ),
          ),
        )
        (print_int f.ttl ++ codes "}") (pos 0)
      ∙ rw (skip_blanks-print_int f.ttl (codes "}"), stoll-print_int f.ttl (codes "}") h.ttl refl)

  -- Every member is read back.
  pub fragment_of_body_raw :
      (now : ℤ) → fragment_of_body (client_body f) now ≡ record f { timestamp = now }
  unfolding fragment_of_body
  fragment_of_body_raw now =
      rw (read_id, read_message_id, read_chat_id, read_sender_hash, read_payload, read_ttl)
