-- ===== src/App/Delivery.antt =====
-- From the bytes of a POST to the text of a list: a fragment that a client sends reaches the clients
-- of its chat, through `handle_connection` (backend/src/server.cpp) and the handlers.
use mathlib.Core.List.{Mem}
use frag.Prelude.{ℕ, ◌≡◌, refl, ap, ◌∙◌, Bool, true, false, List, [], ◌∷◌, some, All, is_empty}
use frag.Prelude.Int.{ltb_ℤ}
use frag.Text.{Bytes, codes}
use frag.RateLimiter.{RateLimiter, allow}
use frag.Dictionary.{get}
use frag.Utils.Split.{split}
use frag.Http.{HttpResponse, ok, build_response}
use frag.Fragment.{Fragment}
use frag.Json.Build.{fragments_array}
use frag.Database.Sqlite.{Sqlite}
use frag.Database.Table.{stored}
use frag.Database.Behaviour.{IsReliable, SqliteLaws}
use frag.Server.Receive.Chunks.{joined}
use frag.Server.Connection.{HttpServer, respond, handle_connection}
use frag.Server.Message.Request.{Message, IsMessage, print_request, request_of}
use frag.Server.Message.RoundTrip.{read_and_parse-print_request}
use frag.Handlers.{
  AppContext, World, is_authorized, since_of, present, post_fragment_handler, get_fragments_handler,
  register_routes,
}
use frag.Handlers.Routes.{respond_post, respond_list}
use frag.Handlers.Body.{IsSendable}
use frag.Handlers.Laws.{IsComplete}
use frag.Handlers.Delivery.{Posts, dated, post_then_list}

-- A message that is received in some chunks, none of them empty.
pub record Sends (m : Message) (chunks : List Bytes) : Type 0 where
  pub is_message : IsMessage m
  pub sent : joined chunks ≡ print_request m
  pub full : All (λ chunk. is_empty chunk ≡ false) chunks

module _ {S : Type 0} (server : HttpServer S) (client_ip : Bytes) (now : ℕ) where
  abbrev pub limited : RateLimiter × Bool
  limited = allow server.rate_limiter client_ip now

  -- A connection that is let in and sends a message is answered by the route table.
  handle_connection-message :
      (m : Message) (chunks : List Bytes) (s : S)
      → Sends m chunks
      → limited.1 ≡ true
      → handle_connection server client_ip now chunks s ≡ (
        build_response server.cors_origin (respond server.routes (request_of m) s).0,
        record server { rate_limiter = limited.0 },
        (respond server.routes (request_of m) s).1,
      )
  unfolding handle_connection
  handle_connection-message m chunks s sends permitted =
      rw (permitted, read_and_parse-print_request m chunks sends.is_message sends.sent sends.full)
        refl

module _ (sqlite : Sqlite) (laws : SqliteLaws sqlite) (reliable : IsReliable sqlite)
    (ctx : AppContext) (f : Fragment) (sendable : IsSendable f) (complete : IsComplete f) where
  -- A message that posts the fragment, and one that asks for its chat.
  pub record PostsMessage (m : Message) (w : World sqlite.Conn) : Type 0 where
    pub method : m.method ≡ codes "POST"
    pub path : m.path ≡ codes "/api/fragments"
    pub posts : Posts sqlite laws reliable ctx f sendable complete (request_of m) w

  pub record ListsMessage (m : Message) (w : World sqlite.Conn) : Type 0 where
    pub method : m.method ≡ codes "GET"
    pub path : m.path ≡ codes "/api/fragments"
    pub authorized : is_authorized (request_of m) ctx.auth ≡ true
    pub chat : present (get (codes "chat_id") m.query) ≡ some f.chat_id
    pub since : ltb_ℤ (since_of (present (get (codes "since") m.query))) w.clock ≡ true

  collection_path :
      (path : Bytes)
      → path ≡ codes "/api/fragments"
      → split path b'/' ≡ [] ∷ codes "api" ∷ codes "fragments" ∷ []
  unfolding split
  collection_path path e = rw e refl

  module _ (server : HttpServer (World sqlite.Conn))
      (routes : server.routes ≡ register_routes sqlite ctx []) (w : World sqlite.Conn) where
    -- For every SQLite that behaves as documented and does not fail, and a server with the
    -- registered routes whose limiter lets both connections in: if the first connection sends, in
    -- any chunks, a POST on /api/fragments that is authorized and within the payload limit, with a
    -- body that has the members of a complete, sendable fragment of a new id, its texts as they are
    -- between quotes, it is answered by 201; and if the next one sends, in any chunks, an
    -- authorized GET on /api/fragments for the fragment's chat since a time before the first, it is
    -- answered by the text of a list that has the fragment as it is stored, dated by the server.
    pub posted_is_listed :
        (m n : Message) (sent_m sent_n : List Bytes) (ip_m ip_n : Bytes) (now_m now_n : ℕ)
        → Sends m sent_m
        → Sends n sent_n
        → PostsMessage m w
        → ListsMessage n w
        → (limited server ip_m now_m).1 ≡ true
        → (limited (record server { rate_limiter = (limited server ip_m now_m).0 }) ip_n now_n).1
          ≡ true
        → let (text_m, server', w') = handle_connection server ip_m now_m sent_m w in
          (resp : HttpResponse) × ((fs : List Fragment) × (text_m
              ≡ build_response server.cors_origin resp)
            × (resp.status_code ≡ 201)
            × ((handle_connection server' ip_n now_n sent_n w').0
                ≡ build_response server.cors_origin (ok (fragments_array fs)))
            × Mem (stored (dated sqlite laws reliable ctx f sendable complete w)) fs)
    posted_is_listed m n sent_m sent_n ip_m ip_n now_m now_n sends_m sends_n posts lists in_m in_n =
        let posted = post_fragment_handler sqlite ctx (request_of m) w in
        let cors = server.cors_origin in
        let server1 = record server { rate_limiter = (limited server ip_m now_m).0 } in
        let respond_m : respond server.routes (request_of m) w ≡ posted =
          ap (λ r. respond r (request_of m) w) routes
          ∙ respond_post sqlite ctx (request_of m) w posts.method
              (collection_path m.path posts.path) in
        let respond_n : respond server.routes (request_of n) posted.1
            ≡ get_fragments_handler sqlite ctx (request_of n) posted.1 =
          ap (λ r. respond r (request_of n) posted.1) routes
          ∙ respond_list sqlite ctx (request_of n) posted.1 lists.method
              (collection_path n.path lists.path) in
        let first : handle_connection server ip_m now_m sent_m w
            ≡ (build_response cors posted.0, server1, posted.1) =
          handle_connection-message server ip_m now_m m sent_m w sends_m in_m
          ∙ ap (λ r. (build_response cors r.0, server1, r.1)) respond_m in
        let (status, (fs, text, there)) =
          post_then_list sqlite laws reliable ctx f sendable complete (request_of m) (request_of n)
            w posts.posts lists.authorized lists.chat lists.since in
        let second : (handle_connection server1 ip_n now_n sent_n posted.1).0
            ≡ build_response cors (ok (fragments_array fs)) =
          ap (λ r. r.0)
            (handle_connection-message server1 ip_n now_n n sent_n posted.1 sends_n in_n)
          ∙ ap (λ r. build_response cors r.0) respond_n
          ∙ ap (build_response cors) text in
        rw first (posted.0, (fs, refl, status, second, there))
