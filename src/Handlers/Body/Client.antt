-- ===== src/Handlers/Body/Client.antt =====
-- The body of Handlers.Body as the JSON text that the browser client sends (frontend/js/app.js,
-- `sendMessage`) for texts that need no escapes, for `make_post_fragment_handler` of
-- backend/src/handlers.cpp.
use frag.Prelude.{◌≡◌, ◌≢◌, refl, [], ◌∷◌, arith, All, append_assoc}
use frag.Prelude.Int.{ℤ}
use frag.Text.{Bytes, codes}
use frag.Text.Number.RoundTrip.{IsInt64}
use frag.Fragment.{Fragment}
use frag.Json.Read.{quoted}
use frag.Json.Members.{Plain}
use frag.Json.Grammar.{
  Value, string, number, no_members, member, object, Denotes, string_text, object_text,
}
use frag.Json.Grammar.Fragments.{
  IsPlain, IsPlain-Spells, int_text, with_entry-Entries, ends_with_entry,
}
use frag.Handlers.{fragment_of_body}
use frag.Handlers.Body.{IsValue, IsSendable, field_names, client_body, fragment_of_body_raw}

-- A text that JSON writes without escapes, and that is not the name of a field.
abbrev pub IsWritten : Bytes → Type 0
IsWritten v = IsPlain v × All (λ name. v ≢ name) field_names

pub record IsClientFragment (f : Fragment) : Type 0 where
  pub id : IsWritten f.id
  pub message_id : IsWritten f.message_id
  pub chat_id : IsWritten f.chat_id
  pub sender_hash : IsWritten f.sender_hash
  pub payload : IsWritten f.payload
  pub ttl : IsInt64 f.ttl

IsPlain-Plain : (s : Bytes) → IsPlain s → Plain s
IsPlain-Plain [] h = tt
IsPlain-Plain (c ∷ s) ((_, quote, slash), h) = ((quote, slash), IsPlain-Plain s h)

IsWritten-IsValue : (v : Bytes) → IsWritten v → IsValue v
IsWritten-IsValue v (plain, no_name) = (IsPlain-Plain v plain, no_name)

IsClientFragment-IsSendable : (f : Fragment) → IsClientFragment f → IsSendable f
IsClientFragment-IsSendable f h = record {
  id = IsWritten-IsValue f.id h.id;
  message_id = IsWritten-IsValue f.message_id h.message_id;
  chat_id = IsWritten-IsValue f.chat_id h.chat_id;
  sender_hash = IsWritten-IsValue f.sender_hash h.sender_hash;
  payload = IsWritten-IsValue f.payload h.payload;
  ttl = h.ttl;
}

abbrev pub client_value : Fragment → Value
client_value f = object (
    member (codes "id") (string f.id) (
      member (codes "message_id") (string f.message_id) (
        member (codes "chat_id") (string f.chat_id) (
          member (codes "sender_hash") (string f.sender_hash) (
            member (codes "payload") (string f.payload)
              (member (codes "ttl") (number f.ttl) no_members))))))

written_text : (v : Bytes) → IsWritten v → Denotes (quoted v) (string v)
written_text v h = string_text refl (IsPlain-Spells v h.0)

client_body-Denotes : (f : Fragment) → IsClientFragment f → Denotes (client_body f) (client_value f)
client_body-Denotes f h = object_text (simp append_assoc) (
    with_entry-Entries (codes "id") (ground arith) (written_text f.id h.id) (
      with_entry-Entries (codes "message_id") (ground arith)
        (written_text f.message_id h.message_id)
        (with_entry-Entries (codes "chat_id") (ground arith) (written_text f.chat_id h.chat_id) (
          with_entry-Entries (codes "sender_hash") (ground arith)
            (written_text f.sender_hash h.sender_hash)
            (with_entry-Entries (codes "payload") (ground arith) (written_text f.payload h.payload)
              (ends_with_entry (codes "ttl") (ground arith) (int_text f.ttl)))))))

-- If no text of a fragment has a control byte, a quote or a backslash or is the name of a field,
-- and its time to live is an int64_t, then the body that has the fragment's members in the client's
-- order is a JSON text that denotes them, and the handler of POST reads that fragment from it, with
-- the time of the server.
pub fragment_of_body-client_body :
    (f : Fragment)
    → IsClientFragment f
    → (now : ℤ)
    → Denotes (client_body f) (client_value f)
      × (fragment_of_body (client_body f) now ≡ record f { timestamp = now })
fragment_of_body-client_body f h now =
    (client_body-Denotes f h, fragment_of_body_raw f (IsClientFragment-IsSendable f h) now)
