-- ===== src/Tests/Running.antt =====
-- The running server of backend/src/main.cpp, over a database in memory.
use frag.Prelude.{◌≡◌, ◌⊎◌, inl, inr, refl, ap, sym, ◌∙◌, true, List, [], ◌∷◌, arith, All}
use frag.Prelude.Int.{ℤ, pos}
use frag.Database.Table.{HasDistinctIds, HasRow, has_id}
use frag.Database.Behaviour.Memory.{memory, memory_laws}
use frag.Handlers.{World, register_routes}
use frag.Server.Connection.{respond}
use frag.App.System.{serves, cleans, done, next, cleanup, Step-HasRow}
use frag.App.System.Durable.{Run-HasRow}
use frag.Handlers.Storage.Durable.{Deletes}
use frag.Http.{HttpRequest}
use frag.Text.{Bytes, codes, c_str}
use frag.Utils.Split.{split}
use frag.Tests.Storing.{first_fragment, ctx, world, post_request}

abbrev early_world : World memory.Conn
early_world = record world { clock = pos 12 }

abbrev deletion : HttpRequest
deletion = record post_request { method = codes "DELETE"; path = codes "/api/fragments/i9" }

-- It is authorized, and has another id.
deletion-Deletes : Deletes ctx first_fragment deletion → ⊥
unfolding split c_str
deletion-Deletes d =
    let id : codes "i9" ≡ d.id = ap (λ parts. last_of parts) d.path in
    let equal : codes "i1" ≡ codes "i9" = d.is_id ∙ ap c_str (sym id) in
    absurd (ground (arith, equal))
  where
    last_of : List Bytes → Bytes
    last_of [] = []
    last_of (x ∷ []) = x
    last_of (x ∷ y ∷ xs) = last_of (y ∷ xs)

Run-HasRow_example : HasRow first_fragment (
    memory_laws.rows
      (respond (register_routes memory ctx []) deletion (cleanup memory early_world)).1.db)
unfolding frag.Database.Table.is_overdue frag.Prelude.Int.◌+ℤ◌ memory_laws
Run-HasRow_example =
    Run-HasRow memory memory_laws ctx first_fragment
      (next (cleans early_world (ground arith)) (next (serves deletion _) (done _)))
      (refl, (deletion-Deletes, tt)) (inl refl)

Step-HasRow_example : HasRow first_fragment (memory_laws.rows (cleanup memory early_world).db)
unfolding memory_laws has_id cleanup frag.Database.Operations.purge_expired
    frag.Database.Operations.check frag.Database.Table.purge_rows frag.Database.Table.keep
    frag.Database.Table.is_overdue frag.Prelude.Int.◌+ℤ◌
Step-HasRow_example =
    Step-HasRow memory memory_laws ctx first_fragment (cleans early_world (ground arith)) (tt, tt)
      (inl refl) refl
