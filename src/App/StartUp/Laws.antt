-- ===== src/App/StartUp/Laws.antt =====
-- What a server that has started does, and when it does not start.
use frag.Prelude.{◌≡◌, sym, ap, ◌∙◌, true, false, inl, inr, List, Option, is_empty, Option-cases}
use frag.Prelude.Int.{ℤ}
use frag.Text.{Bytes, codes}
use frag.Auth.{Auth}
use frag.Auth.Laws.{verify_no_tokens}
use frag.Dictionary.{get}
use frag.Http.{HttpRequest}
use frag.Database.Sqlite.{Sqlite}
use frag.Server.Connection.{respond}
use frag.Handlers.{World, is_authorized}
use frag.Handlers.Routes.{Discloses, respond-Discloses}
use frag.App.Config.{Config, load_config}
use frag.App.CommandLine.{Invocation, invocation, usage, serves}
use frag.Database.Operations.{Result, ok, throw}
use frag.App.StartUp.{Application, launches, application, launch, start_with, start_up}

authorized_by_none :
    (req : HttpRequest) (auth : Auth) → is_empty auth.tokens ≡ true → is_authorized req auth ≡ false
unfolding is_authorized frag.Auth.empty
authorized_by_none req auth h = elim (Option-cases (get (codes "authorization") req.headers)) [
  | inl missing ↦ rw (missing, is_authorized)
  | inr (header_value, given) ↦ rw (given, is_authorized) (verify_no_tokens auth header_value h)
]

module _ (sqlite : Sqlite) where
  FromConfig : (Bytes → Option Bytes) → ℤ → Application sqlite → Type 0
  FromConfig file now app =
      (path : Bytes) × ((db : sqlite.Conn) × (app
          ≡ application sqlite (load_config (file path)) db now))

  application_of_launch :
      (cfg : Config) (now : ℤ) (opened : Result sqlite.Conn) (app : Application sqlite)
      → launch sqlite cfg now opened ≡ launches app
      → (db : sqlite.Conn) × (app ≡ application sqlite cfg db now)
  application_of_launch cfg now (throw msg) app e = cc
  application_of_launch cfg now (ok db) app e = (db, cc)

  application_of_start :
      (file : Bytes → Option Bytes) (now : ℤ) (i : Invocation) (app : Application sqlite)
      → start_with sqlite file now i ≡ launches app
      → FromConfig file now app
  unfolding FromConfig
  application_of_start file now usage app e = cc
  application_of_start file now (serves path) app e =
      (path, application_of_launch (load_config (file path)) now _ app e)

  -- If start-up launches an application and has printed the warning that no tokens are configured,
  -- then over any SQLite every request to its routes leaves the world as it is and is answered by
  -- 401, 404, 405 or the 204 of a preflight; or it reaches the health report.
  pub warned-Discloses :
      (file : Bytes → Option Bytes) (now : ℤ) (args : List Bytes) (app : Application sqlite)
      → start_up sqlite file now args ≡ launches app
      → app.warned ≡ true
      → (req : HttpRequest) (w : World sqlite.Conn)
      → Discloses sqlite app.context req w (respond app.server.routes req w)
  unfolding start_up application FromConfig
  warned-Discloses file now args app e warned req w =
      let (path, (db, built)) = application_of_start file now (invocation args) app e in
      let no_tokens : is_empty (load_config (file path)).tokens ≡ true =
        ap (λ a. a.warned) (sym built) ∙ warned in
      let ctx = (application sqlite (load_config (file path)) db now).context in
      rw built (respond-Discloses sqlite ctx req w (authorized_by_none req ctx.auth no_tokens))
