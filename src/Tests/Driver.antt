-- ===== src/Tests/Driver.antt =====
-- Connections to MySQL in small programs.
use backend_common_component.Prelude.{
  ◌≡◌, refl, arith, true, false, ◌>>=◌, none, some, List, [], ◌∷◌,
}
use backend_common_component.Objects.{delete}
use backend_common_component.MySql.Connection.{
  World, Session, opened, no_schema, Call, constructs, closes, moves, assigns, prepares, call,
  calls, construct, close, prepare_statement, commit, half_done, opened_on,
}
use backend_common_component.MySql.Pointers.{IsPointing, calm, calls-IsPointing}

abbrev nowhere : World
nowhere = record { heap = record { live = []; tries = 0; bad_free = 0 }; connections = [] }

nowhere-IsPointing : IsPointing nowhere
nowhere-IsPointing = record {
  exist = λ a. omega arith;
  distinct = λ a. omega arith;
  fresh = λ a l. refl;
  sound = refl;
}

abbrev session_program : List Call
session_program =
    constructs opened
    ∷ constructs no_schema
    ∷ prepares 0 true
    ∷ prepares 0 true
    ∷ moves 0
    ∷ constructs opened
    ∷ assigns 0 1
    ∷ closes 2
    ∷ closes 2
    ∷ []

session_program-calm : calm session_program nowhere ≡ true
unfolding call
session_program-calm = refl

calls-IsPointing_example : (v : World) × (calls session_program nowhere ≡ some v) × IsPointing v
calls-IsPointing_example =
    calls-IsPointing session_program nowhere session_program-calm nowhere-IsPointing

-- A connection that was moved from cannot prepare a statement.
moved_prepares : calls (constructs opened ∷ moves 0 ∷ prepares 0 true ∷ []) nowhere ≡ none
unfolding calls
moved_prepares = refl

-- A preparation that throws over an old statement, and the destructor: the statement is deleted twice.
deleted_twice :
    (calls (constructs opened ∷ prepares 0 true ∷ prepares 0 false ∷ closes 0 ∷ []) nowhere >>= λ w.
    some w.heap.bad_free)
    ≡ some 1
unfolding calls call construct close prepare_statement delete
deleted_twice = refl

abbrev clean_session : Session
clean_session = record { auto_commit = true; pending = []; stored = 1 ∷ [] }

-- `commit` whose `setAutoCommit` throws has stored the work, and the flag stays set.
half_committed :
    (commit half_done (
      record (opened_on 0) { transaction = true },
      record clean_session { pending = 2 ∷ [] },
    )).1.stored
    ≡ 1 ∷ 2 ∷ []
unfolding commit opened_on
half_committed = refl
