-- ===== src/Database/Behaviour/Memory/Reliable.antt =====
-- No call of the database in memory fails.
use frag.Prelude.{refl, List, [], ◌∷◌}
use frag.Fragment.{Fragment}
use frag.Database.Behaviour.{IsFailure, IsReliable}
use frag.Database.Behaviour.Memory.{
  Kind, Connection, Statement, memory, step_kind, advance, inserts, gets, gets_message, deletes,
  purges, counts, other,
}

advance_succeeds :
    (left : List Fragment) (st : Statement) (c : Connection) → IsFailure (advance left st c).0 → ⊥
unfolding advance
advance_succeeds [] st c failed = failed.2 refl
advance_succeeds (f ∷ rest) st c failed = failed.1 refl

step_succeeds : (k : Kind) (st : Statement) (c : Connection) → IsFailure (step_kind k st c).0 → ⊥
unfolding step_kind
step_succeeds inserts st c failed = failed.2 refl
step_succeeds deletes st c failed = failed.2 refl
step_succeeds purges st c failed = failed.2 refl
step_succeeds counts st c failed = failed.1 refl
step_succeeds gets st c failed = advance_succeeds _ st c failed
step_succeeds gets_message st c failed = advance_succeeds _ st c failed
step_succeeds other st c failed = failed.2 refl

pub memory-IsReliable : IsReliable memory
memory-IsReliable = record {
  prepares = λ sql c failed. failed.0 refl;
  steps = λ st c failed. step_succeeds st.kind st c failed;
}
