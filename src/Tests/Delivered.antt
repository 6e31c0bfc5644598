-- ===== src/Tests/Delivered.antt =====
-- The routes of backend/src/handlers.cpp and a fragment that is posted and listed, over a database
-- in memory.
use mathlib.Core.List.{Mem}
use frag.Prelude.{◌≡◌, refl, false, List, [], ◌∷◌, arith, All, is_empty, if◌then◌else◌}
use frag.Prelude.Int.{pos}
use frag.Text.{Bytes, codes, same}
use frag.RateLimiter.{rate_limiter}
use frag.Http.{HttpResponse, ok, no_content, build_response}
use frag.Json.Build.{fragments_array}
use frag.Utils.Split.{split}
use frag.Database.Table.{stored}
use frag.Database.Behaviour.Memory.{Connection, memory, memory_laws}
use frag.Database.Behaviour.Memory.Reliable.{memory-IsReliable}
use frag.Fragment.{Fragment}
use frag.Server.Receive.Chunks.{joined}
use frag.Server.Connection.{HttpServer, respond, handle_connection}
use frag.Server.Message.Request.{Message, IsMessage, print_request}
use frag.Handlers.{World, register_routes}
use frag.Handlers.Laws.{IsComplete}
use frag.Handlers.Resource.{Resource, Names}
use frag.Handlers.Api.{serve_resource, respond-serve_resource}
use frag.App.Delivery.{PostsMessage, ListsMessage, posted_is_listed}
use frag.Tests.Storing.{ctx, world, post_request}
use frag.Tests.Bodies.{sent_fragment, sent_fragment-IsSendable}
use frag.Tests.Wire.{
  post_message, post_message-IsMessage, post_chunks, post_chunks-joined, post_chunks-full,
  chat_query, chat_query-distinct, bearer_header, bearer_header-IsHeader,
}

respond-serve_resource_example :
    (r : Resource) × Names (split post_request.path b'/') r
    × (respond (register_routes memory ctx []) post_request world ≡ (
        if same post_request.method (codes "OPTIONS")
        then (no_content, world)
        else serve_resource memory ctx r post_request world))
respond-serve_resource_example = respond-serve_resource memory ctx post_request world

sent_fragment-IsComplete : IsComplete sent_fragment
sent_fragment-IsComplete = ground arith

abbrev list_message : Message
list_message = record {
  method = codes "GET";
  path = codes "/api/fragments";
  query = chat_query;
  headers = bearer_header ∷ [];
  body = [];
}

list_message-IsMessage : IsMessage list_message
unfolding frag.Utils.Case.to_lower frag.Utils.Case.lower_char frag.Dictionary.get frag.Text.same
    frag.Utils.UrlDecode.Paths.encode_path frag.Utils.UrlDecode.RoundTrip.percent_encode
list_message-IsMessage = record {
  method_space = ground arith;
  method_line = ground arith;
  path = ground arith;
  query = ground arith;
  query_keys = chat_query-distinct;
  headers = (bearer_header-IsHeader, tt);
  header_keys = (tt, tt);
  declared = refl;
  small = omega arith;
}

abbrev server : HttpServer (World Connection)
server = record {
  cors_origin = codes "*";
  routes = register_routes memory ctx [];
  rate_limiter = rate_limiter (pos 60);
}

posted_message :
    PostsMessage memory memory_laws memory-IsReliable ctx sent_fragment sent_fragment-IsSendable
      sent_fragment-IsComplete post_message world
unfolding frag.Handlers.is_authorized frag.Dictionary.get frag.Text.same frag.Auth.verify
    frag.Utils.Case.to_lower frag.Utils.Case.lower_char frag.Utils.Trim.trim
    frag.Utils.Trim.is_blank frag.Text.Number.print_int frag.Database.Table.has_id stored
    frag.Text.c_str memory_laws
posted_message = record {
  method = refl;
  path = refl;
  posts = record { body = refl; authorized = refl; fits = omega arith; is_new = refl };
}

listed_message :
    ListsMessage memory memory_laws memory-IsReliable ctx sent_fragment sent_fragment-IsSendable
      sent_fragment-IsComplete list_message world
unfolding frag.Handlers.is_authorized frag.Dictionary.get frag.Text.same frag.Auth.verify
    frag.Utils.Case.to_lower frag.Utils.Case.lower_char frag.Utils.Trim.trim
    frag.Utils.Trim.is_blank frag.Handlers.present frag.Handlers.since_of frag.Text.Number.stoll
listed_message = record { method = refl; path = refl; authorized = refl; chat = refl; since = refl }

abbrev list_chunks : List Bytes
list_chunks = print_request list_message ∷ []

list_chunks-joined : joined list_chunks ≡ print_request list_message
unfolding frag.Utils.UrlDecode.Paths.encode_path frag.Utils.UrlDecode.RoundTrip.percent_encode
list_chunks-joined = refl

list_chunks-full : All (λ chunk. is_empty chunk ≡ false) list_chunks
unfolding frag.Utils.UrlDecode.Paths.encode_path
list_chunks-full = (refl, tt)

-- The poster's address and the reader's, a second apart.
posted_is_listed_example :
    let (text, server', w') = handle_connection server (codes "10.0.0.1") 0 post_chunks world in
    (resp : HttpResponse) × ((fs : List Fragment) × (text ≡ build_response (codes "*") resp)
      × (resp.status_code ≡ 201)
      × ((handle_connection server' (codes "10.0.0.2") 1000000000 list_chunks w').0
          ≡ build_response (codes "*") (ok (fragments_array fs)))
      × Mem (stored (record sent_fragment { timestamp = pos 30 })) fs)
unfolding frag.RateLimiter.allow frag.RateLimiter.is_expired frag.RateLimiter.entry_of
    frag.Dictionary.get frag.Dictionary.put same
posted_is_listed_example =
    posted_is_listed memory memory_laws memory-IsReliable ctx sent_fragment sent_fragment-IsSendable
      sent_fragment-IsComplete server refl world post_message list_message post_chunks list_chunks
      (codes "10.0.0.1") (codes "10.0.0.2") 0 1000000000
      (record {
        is_message = post_message-IsMessage;
        sent = post_chunks-joined;
        full = post_chunks-full;
      })
      (record {
        is_message = list_message-IsMessage;
        sent = list_chunks-joined;
        full = list_chunks-full;
      })
      posted_message listed_message refl refl
