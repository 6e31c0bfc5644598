-- ===== src/Handlers/Answers.antt =====
-- The bodies of the answers of backend/src/handlers.cpp and server.cpp as JSON texts.
pub mod Routed
use frag.Prelude.{
  ◌≡◌, ◌⊎◌, inl, inr, refl, Bool, true, false, List, [], ◌∷◌, ◌++◌, Option, none, some, arith, All,
  All-middle, Bool-cases, Option-cases, is_empty, length, ltb, if◌then◌else◌, append_assoc,
}
use frag.Prelude.Int.{ℤ, pos}
use frag.Text.{Bytes, codes, same}
use frag.Text.Number.{print_int}
use frag.Dictionary.{get}
use frag.Utils.JsonEscape.{json_escape}
use frag.Http.{HttpRequest, HttpResponse, no_content, bad_request, unauthorized, error_body}
use frag.Fragment.{Fragment}
use frag.Database.Sqlite.{Sqlite}
use frag.Database.Operations.{Result, ok, throw}
use frag.Json.Grammar.{
  Value, boolean, string, number, no_members, member, object, Denotes, true_text, string_text,
  object_text,
}
use frag.Json.Grammar.Fragments.{
  IsPlain, IsPlain-Spells, escaped_text, int_text, with_entry-Entries, ends_with_entry,
  fragments_array-Denotes,
}
use frag.Server.Connection.{Handler, respond, dispatch}
use frag.Server.Connection.Dispatch.{handled, not_allowed, missing, dispatch-Outcome}
use frag.Handlers.{
  AppContext, World, is_authorized, fragment_of_body, missing_field, present, answered, db_error,
  insert_response, delete_response, list_response, store_fragment, health_handler,
  post_fragment_handler, get_fragments_handler, get_message_fragments_handler,
  delete_fragment_handler, register_routes,
}

abbrev pub IsJson : Bytes → Type 0
IsJson text = (v : Value) × Denotes text v

-- The 204, which has no body, or a JSON text under its content type.
abbrev pub IsAnswer : HttpResponse → Type 0
IsAnswer r = (r ≡ no_content) ⊎ ((r.content_type ≡ codes "application/json") × IsJson r.body)

error_body-IsJson : (msg : Bytes) → IsPlain msg → IsJson (error_body msg)
error_body-IsJson msg h = (
  _,
  object_text (simp append_assoc)
      (ends_with_entry (codes "error") (ground arith) (string_text refl (IsPlain-Spells msg h))),
)

pub insert_response-IsAnswer :
    (f : Fragment) (inserted : Bool) → IsAnswer (insert_response f inserted)
insert_response-IsAnswer f true = inr (
  refl,
  (
    _,
    object_text (simp append_assoc) (
        with_entry-Entries (codes "ok") (ground arith) true_text
          (ends_with_entry (codes "id") (ground arith) (escaped_text f.id))),
  ),
)
insert_response-IsAnswer f false = inr (
  refl,
  (
    _,
    object_text refl (
        with_entry-Entries (codes "ok") (ground arith) true_text
          (ends_with_entry (codes "duplicate") (ground arith) true_text)),
  ),
)

pub error-IsAnswer :
    (msg : Bytes) (r : HttpResponse)
    → r.content_type ≡ codes "application/json"
    → r.body ≡ error_body msg
    → IsPlain msg
    → IsAnswer r
error-IsAnswer msg r e b h = inr (e, rw b (error_body-IsJson msg h))

pub delete_response-IsAnswer : (deleted : Bool) → IsAnswer (delete_response deleted)
delete_response-IsAnswer true = inl refl
delete_response-IsAnswer false = error-IsAnswer (codes "not found") _ refl refl (ground arith)

pub list_response-IsAnswer : (frags : List Fragment) → IsAnswer (list_response frags)
list_response-IsAnswer frags = inr (refl, (_, fragments_array-Denotes frags))

pub db_error-IsAnswer : IsAnswer db_error
db_error-IsAnswer = error-IsAnswer (codes "db error") _ refl refl (ground arith)

pub answered-IsAnswer :
    {A Conn : Type 0} (w : World Conn) (result : Result A × Conn) (reply : A → HttpResponse)
    (failed : HttpResponse)
    → ((a : A) → IsAnswer (reply a))
    → IsAnswer failed
    → IsAnswer (answered w result reply failed).0
answered-IsAnswer w (ok a, db) reply failed h hf = h a
answered-IsAnswer w (throw msg, db) reply failed h hf = hf

abbrev pub IsPlainOption : Option Bytes → Type 0
IsPlainOption none = Unit
IsPlainOption (some msg) = IsPlain msg

pub missing_field-IsPlainOption : (f : Fragment) → IsPlainOption (missing_field f)
unfolding missing_field
missing_field-IsPlainOption f = elim (Bool-cases (is_empty f.id)) [
  | inl e ↦ rw e (ground arith)
  | inr e ↦ elim (Bool-cases (is_empty f.message_id)) [
    | inl e' ↦ rw (e, e') (ground arith)
    | inr e' ↦ elim (Bool-cases (is_empty f.chat_id)) [
      | inl e'' ↦ rw (e, e', e'') (ground arith)
      | inr e'' ↦ elim (Bool-cases (is_empty f.sender_hash)) [
        | inl k ↦ rw (e, e', e'', k) (ground arith)
        | inr k ↦ elim (Bool-cases (is_empty f.payload)) [
          | inl k' ↦ rw (e, e', e'', k, k') (ground arith)
          | inr k' ↦ rw (e, e', e'', k, k') tt
        ]
      ]
    ]
  ]
]

pub health_body-IsJson :
    (uptime fcount : ℤ)
    → IsJson (
        codes "{\"status\":\"ok\",\"version\":\"1.0.0\",\"uptime_sec\":"
        ++ (print_int uptime ++ (codes ",\"fragment_count\":" ++ (print_int fcount ++ codes "}"))))
health_body-IsJson uptime fcount = (
  _,
  object_text (simp append_assoc) (
      with_entry-Entries (codes "status") (ground arith)
        (string_text refl (IsPlain-Spells (codes "ok") (ground arith)))
        (with_entry-Entries (codes "version") (ground arith)
          (string_text refl (IsPlain-Spells (codes "1.0.0") (ground arith)))
          (with_entry-Entries (codes "uptime_sec") (ground arith) (int_text uptime)
            (ends_with_entry (codes "fragment_count") (ground arith) (int_text fcount))))),
)
