-- ===== src/Tests/Answered.antt =====
-- Answers of backend/src/handlers.cpp as JSON texts, over a database in memory.
use frag.Prelude.{[], ◌∷◌}
use frag.Json.Build.{fragments_array}
use frag.Json.Grammar.{array, Denotes}
use frag.Json.Grammar.Fragments.{fragment_values, fragments_array-Denotes}
use frag.Server.Connection.{respond}
use frag.Database.Behaviour.Memory.{memory}
use frag.Handlers.{register_routes}
use frag.Handlers.Answers.{IsAnswer}
use frag.Handlers.Answers.Routed.{respond-IsAnswer}
use frag.Tests.Storing.{first_fragment, second_fragment, ctx, world, post_request}

fragments_array-Denotes_example :
    Denotes
      (fragments_array (first_fragment ∷ second_fragment ∷ []))
      (array (fragment_values (first_fragment ∷ second_fragment ∷ [])))
fragments_array-Denotes_example = fragments_array-Denotes (first_fragment ∷ second_fragment ∷ [])

respond-IsAnswer_example : IsAnswer (respond (register_routes memory ctx []) post_request world).0
respond-IsAnswer_example = respond-IsAnswer memory ctx post_request world
