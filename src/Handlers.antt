-- ===== src/Handlers.antt =====
-- backend/src/handlers.cpp: the five handlers and the route table, over any SQLite connection.
pub mod Laws
pub mod Storage
pub mod Routes
pub mod Body
pub mod Delivery
pub mod Resource
pub mod Api
pub mod Answers
use frag.Prelude.{
  ℕ, Bool, true, false, ◌||◌, List, [], ◌∷◌, ◌++◌, Option, none, some, ltb, if◌then◌else◌, is_empty,
  length,
}
use frag.Prelude.Int.{ℤ, pos, ◌-ℤ◌}
use frag.Text.{Bytes, codes}
use frag.Text.Number.{stoll, print_int}
use frag.Utils.JsonEscape.{json_escape}
use frag.Dictionary.{get}
use frag.Auth.{Auth, verify}
use frag.Http.{
  HttpRequest, HttpResponse, ok, created, no_content, bad_request, unauthorized, not_found,
  payload_too_large, server_error,
}
use frag.Fragment.{Fragment}
use frag.Json.Read.{extract_string, extract_int}
use frag.Json.Build.{fragments_array}
use frag.Database.Sqlite.{Sqlite}
use frag.Database.Operations.{
  Result, throw, insert_fragment, get_fragments, get_message_fragments, delete_fragment,
  get_fragment_count,
}
use frag.Server.Connection.{Handler, Route, add_route}

-- `AppContext` without the database, which the handlers change.
pub record AppContext : Type 0 where
  pub auth : Auth
  pub max_payload_bytes : ℕ
  pub start_time : ℤ

-- What the handlers work on: the database connection, and the clock that `now_seconds` reads.
pub record World (Conn : Type 0) : Type 0 where
  pub db : Conn
  pub clock : ℤ

unfoldable pub is_authorized : HttpRequest → Auth → Bool
is_authorized req auth = elim (get (codes "authorization") req.headers) [
  | none ↦ false
  | some header_value ↦ verify auth header_value
]

-- The fragment that a body describes; the server sets its time.
unfoldable pub fragment_of_body : Bytes → ℤ → Fragment
fragment_of_body body now = record {
  id = extract_string body (codes "id");
  message_id = extract_string body (codes "message_id");
  chat_id = extract_string body (codes "chat_id");
  sender_hash = extract_string body (codes "sender_hash");
  payload = extract_string body (codes "payload");
  timestamp = now;
  ttl = extract_int body (codes "ttl") (pos 0);
}

-- `std::stoll` of the parameter, with 0 where it throws; 0 too where it is missing or empty.
unfoldable pub since_of : Option Bytes → ℤ
since_of none = pos 0
since_of (some text) = elim (stoll text) [ none ↦ pos 0 | some n ↦ n ]

-- The first text that is empty among those of a fragment, by its name in the error.
unfoldable pub missing_field : Fragment → Option Bytes
missing_field f =
    if is_empty f.id
    then some (codes "missing id")
    else if is_empty f.message_id
    then some (codes "missing message_id")
    else if is_empty f.chat_id
    then some (codes "missing chat_id")
    else if is_empty f.sender_hash
    then some (codes "missing sender_hash")
    else if is_empty f.payload
    then some (codes "missing payload")
    else none

-- The parameter if it is there and not empty.
unfoldable pub present : Option Bytes → Option Bytes
present none = none
present (some value) = if is_empty value then none else some value

-- The answer behind a call of the database, with the connection after it.
abbrev pub answered {ℓ} :
    {A : Type ℓ} {Conn : Type 0}
    → World Conn
    → Result A × Conn
    → (A → HttpResponse)
    → HttpResponse
    → HttpResponse × World Conn
answered w (Result.ok a, db) respond failed = (respond a, record w { db = db })
answered w (throw msg, db) respond failed = (failed, record w { db = db })

abbrev pub db_error : HttpResponse
db_error = server_error (codes "db error")

-- The answers to a fragment that the database has taken, or knew.
abbrev pub insert_response : Fragment → Bool → HttpResponse
insert_response f inserted =
    if inserted
    then created (codes "{\"ok\":true,\"id\":\"" ++ (json_escape f.id ++ codes "\"}"))
    else ok (codes "{\"ok\":true,\"duplicate\":true}")

abbrev pub delete_response : Bool → HttpResponse
delete_response deleted = if deleted then no_content else not_found

abbrev pub list_response : List Fragment → HttpResponse
list_response frags = ok (fragments_array frags)

module _ (sqlite : Sqlite) (ctx : AppContext) where
  open sqlite use {Conn}

  unfoldable pub health_handler : Handler (World Conn)
  health_handler req w =
      let uptime = w.clock -ℤ ctx.start_time in
      let body : ℤ → HttpResponse = λ fcount. ok (
        codes "{\"status\":\"ok\",\"version\":\"1.0.0\",\"uptime_sec\":"
        ++ (print_int uptime
            ++ (codes ",\"fragment_count\":" ++ (print_int fcount ++ codes "}")))) in
      answered w (get_fragment_count sqlite w.db) body (body (pos 0))

  -- What the handler does with a fragment whose texts are all present.
  unfoldable pub store_fragment : Fragment → World Conn → HttpResponse × World Conn
  store_fragment f w = answered w (insert_fragment sqlite f w.db) (insert_response f) db_error

  unfoldable pub post_fragment_handler : Handler (World Conn)
  unfolding store_fragment missing_field
  post_fragment_handler req w =
      let f = fragment_of_body req.body w.clock in
      if is_authorized req ctx.auth
      then (if is_empty req.body
          then (bad_request (codes "empty body"), w)
          else if ltb ctx.max_payload_bytes (length req.body)
          then (payload_too_large, w)
          else elim (missing_field f) [
            | some msg ↦ (bad_request msg, w)
            | none ↦ store_fragment f w
          ])
      else (unauthorized, w)

  unfoldable pub get_fragments_handler : Handler (World Conn)
  unfolding present
  get_fragments_handler req w =
      if is_authorized req ctx.auth
      then (elim (present (get (codes "chat_id") req.query_params)) [
        | none ↦ (bad_request (codes "missing chat_id query param"), w)
        | some chat_id ↦
            answered w
              (get_fragments sqlite chat_id
                (since_of (present (get (codes "since") req.query_params))) w.db)
              list_response db_error
      ])
      else (unauthorized, w)

  unfoldable pub get_message_fragments_handler : Handler (World Conn)
  unfolding present
  get_message_fragments_handler req w =
      if is_authorized req ctx.auth
      then (elim (present (get (codes "message_id") req.path_params)) [
        | none ↦ (bad_request (codes "missing message_id"), w)
        | some message_id ↦
            answered w (get_message_fragments sqlite message_id w.db) list_response db_error
      ])
      else (unauthorized, w)

  unfoldable pub delete_fragment_handler : Handler (World Conn)
  unfolding present
  delete_fragment_handler req w =
      if is_authorized req ctx.auth
      then (elim (present (get (codes "id") req.path_params)) [
        | none ↦ (bad_request (codes "missing id"), w)
        | some id ↦ answered w (delete_fragment sqlite id w.db) delete_response db_error
      ])
      else (unauthorized, w)

  -- `register_routes`.
  unfoldable pub register_routes : List (Route (World Conn)) → List (Route (World Conn))
  unfolding add_route
  register_routes routes =
      add_route
        (add_route
          (add_route
            (add_route (add_route routes (codes "GET") (codes "/health") health_handler)
              (codes "POST") (codes "/api/fragments") post_fragment_handler)
            (codes "GET") (codes "/api/fragments") get_fragments_handler)
          (codes "GET") (codes "/api/fragments/:message_id/all") get_message_fragments_handler)
        (codes "DELETE") (codes "/api/fragments/:id") delete_fragment_handler
