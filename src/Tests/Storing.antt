-- ===== src/Tests/Storing.antt =====
-- The database of backend/src/database.cpp and the handlers of backend/src/handlers.cpp, over a
-- database in memory.
use frag.Prelude.{◌≡◌, ◌⊎◌, refl, not, [], ◌∷◌, arith}
use frag.Prelude.Int.{pos, ◌+ℤ◌}
use frag.Text.{Bytes, codes, c_str}
use frag.Fragment.{Fragment}
use frag.Auth.{verify}
use frag.Http.{HttpRequest, empty_request, unauthorized}
use frag.Database.Operations.{
  Result, ok, insert_fragment, get_fragments, get_message_fragments, delete_fragment, purge_expired,
  get_fragment_count, get_sql, get_message_sql, purge_sql, count_sql,
}
use frag.Database.Table.{
  has_id, insert_row, delete_row, purge_rows, is_overdue, count_rows, in_chat, in_message, stored,
}
use frag.Database.Behaviour.{IsFailure}
use frag.Database.Behaviour.Memory.{Connection, memory, memory_laws}
use frag.Database.Refines.{
  Ends, InsertFails, DeleteFails, insert_fragment-Ends, delete_fragment-Ends, purge_expired_cases,
}
use frag.Database.Refines.Select.{
  Returns, chat_since, get_fragments-Returns, get_message_fragments-Returns,
}
use frag.Server.Connection.{respond}
use frag.Handlers.{
  AppContext, World, is_authorized, fragment_of_body, post_fragment_handler, register_routes,
}
use frag.Handlers.Laws.{PostOutcome, post_fragment_handler-PostOutcome}
use frag.Handlers.Routes.{Discloses, respond-Discloses}

abbrev pub first_fragment : Fragment
first_fragment = record {
  id = codes "i1";
  message_id = codes "m1";
  chat_id = codes "c1";
  sender_hash = codes "s1";
  payload = codes "p1";
  timestamp = pos 10;
  ttl = pos 5;
}

abbrev pub second_fragment : Fragment
second_fragment = record first_fragment { id = codes "i2"; timestamp = pos 20; ttl = pos 0 }

abbrev pub conn : Connection
conn = record { table = first_fragment ∷ []; changed = 0 }

abbrev pub ctx : AppContext
ctx = record {
  auth = record { tokens = codes "secret" ∷ [] };
  max_payload_bytes = 512;
  start_time = pos 0;
}

abbrev pub world : World Connection
world = record { db = conn; clock = pos 30 }

abbrev authorized : HttpRequest
authorized = record empty_request { headers = (codes "authorization", codes "Bearer secret") ∷ [] }

abbrev pub post_request : HttpRequest
post_request = record authorized {
  method = codes "POST";
  path = codes "/api/fragments";
  body =
      codes
        "{\"id\":\"i2\",\"message_id\":\"m1\",\"chat_id\":\"c1\",\"sender_hash\":\"s1\",\"payload\":\"p\",\"ttl\":60}";
}

posted : (post_fragment_handler memory ctx post_request world).0.status_code ≡ 201
unfolding post_fragment_handler is_authorized frag.Dictionary.get frag.Text.same verify
    frag.Utils.Case.to_lower frag.Utils.Trim.trim frag.Utils.Trim.is_blank fragment_of_body
    frag.Json.Read.extract_string frag.Json.Read.value_start frag.Text.find insert_fragment
    frag.Database.Operations.check frag.Database.Behaviour.Memory.step_kind
    frag.Database.Operations.bind_fragment frag.Database.Behaviour.Memory.kind_of has_id stored
    c_str
posted = refl

stranger_post : post_fragment_handler memory ctx empty_request world ≡ (unauthorized, world)
unfolding post_fragment_handler is_authorized frag.Dictionary.get
stranger_post = refl

inserted_twice :
    (insert_fragment memory second_fragment (insert_fragment memory second_fragment conn).1).1.table
    ≡ first_fragment ∷ second_fragment ∷ []
unfolding insert_fragment frag.Database.Operations.check frag.Database.Behaviour.Memory.step_kind
    frag.Database.Operations.bind_fragment frag.Database.Behaviour.Memory.kind_of insert_row has_id
    c_str
inserted_twice = refl

purged : (purge_expired memory (pos 15) conn).0 ≡ ok 1
unfolding purge_expired frag.Database.Operations.check frag.Database.Behaviour.Memory.step_kind
    frag.Database.Behaviour.Memory.kind_of count_rows is_overdue ◌+ℤ◌
purged = refl

post_fragment_handler-PostOutcome_example :
    PostOutcome memory memory_laws ctx post_request world
      (fragment_of_body post_request.body world.clock)
      (post_fragment_handler memory ctx post_request world)
post_fragment_handler-PostOutcome_example =
    post_fragment_handler-PostOutcome memory memory_laws ctx post_request world

respond-Discloses_example :
    Discloses memory ctx empty_request world
      (respond (register_routes memory ctx []) empty_request world)
unfolding is_authorized frag.Dictionary.get
respond-Discloses_example = respond-Discloses memory ctx empty_request world refl

abbrev delete_request : HttpRequest
delete_request = record authorized { method = codes "DELETE"; path = codes "/api/fragments/i1" }

abbrev message_request : HttpRequest
message_request = record authorized { method = codes "GET"; path = codes "/api/fragments/m1/all" }

abbrev list_request : HttpRequest
list_request = record authorized {
  method = codes "GET";
  path = codes "/api/fragments";
  query_params = (codes "chat_id", codes "c1") ∷ [];
}

insert_fragment-Ends_example :
    Ends memory_laws.rows
      (InsertFails memory (stored second_fragment) conn)
      (insert_fragment memory second_fragment conn)
      conn
      (not (has_id (stored second_fragment).id (memory_laws.rows conn)))
      (insert_row (stored second_fragment) (memory_laws.rows conn))
insert_fragment-Ends_example = insert_fragment-Ends memory memory_laws second_fragment conn

delete_fragment-Ends_example :
    Ends memory_laws.rows
      (DeleteFails memory (c_str (codes "i1")) conn)
      (delete_fragment memory (codes "i1") conn)
      conn
      (has_id (c_str (codes "i1")) (memory_laws.rows conn))
      (delete_row (c_str (codes "i1")) (memory_laws.rows conn))
delete_fragment-Ends_example = delete_fragment-Ends memory memory_laws (codes "i1") conn

purge_expired_cases_example :
    Ends memory_laws.rows
      (IsFailure (memory.prepare purge_sql conn).0)
      (purge_expired memory (pos 15) conn)
      conn
      (count_rows (is_overdue (pos 15)) (memory_laws.rows conn))
      (purge_rows (pos 15) (memory_laws.rows conn))
    ⊎ (((purge_expired memory (pos 15) conn).0
          ≡ ok (memory.changes (purge_expired memory (pos 15) conn).1))
        × (memory_laws.rows (purge_expired memory (pos 15) conn).1 ≡ memory_laws.rows conn)
        × IsFailure
            (memory.step (memory.bind_int64 1 (pos 15) (memory.prepare purge_sql conn).1) conn).0)
unfolding memory_laws ◌+ℤ◌
purge_expired_cases_example = purge_expired_cases memory memory_laws (pos 15) conn (ground arith)

get_fragments-Returns_example :
    Returns memory memory_laws get_sql
      (chat_since memory memory_laws (c_str (codes "c1")) (pos 0))
      (get_fragments memory (codes "c1") (pos 0) conn)
      conn
      (in_chat (c_str (codes "c1")) (pos 0))
get_fragments-Returns_example = get_fragments-Returns memory memory_laws (codes "c1") (pos 0) conn

get_message_fragments-Returns_example :
    Returns memory memory_laws get_message_sql
      (memory.bind_text 1 (c_str (codes "m1")))
      (get_message_fragments memory (codes "m1") conn)
      conn
      (in_message (c_str (codes "m1")))
get_message_fragments-Returns_example =
    get_message_fragments-Returns memory memory_laws (codes "m1") conn
