-- ===== src/Arguments/Commands.antt =====
-- A command line as a sequence of commands, what `parse` is to do with it, and how it ends.
use libspl.Common.{
  ◌<◌, ◌≡◌, true, false, List, [], ◌∷◌, ◌++◌, Run, ok, throw, element_not_found, ◌>>=◌, length,
}
use libspl.Arguments.Parser.{
  Text, Argument, unknown_argument, insufficient_parameters, action_failed, Parsed, parsed, failed,
  act,
}

-- an argument as it is written: its name, what it was defined as, and its parameters
pub record Command (W : Type 0) : Type 0 where
  pub name : Text
  pub definition : Argument W
  pub params : List Text

module _ {W : Type 0} where
  -- the texts of the commands, and those behind them
  abbrev pub written : List (Command W) → List Text → List Text
  written [] rest = rest
  written (c ∷ cs) rest = c.name ∷ c.params ++ written cs rest

  -- the actions one after the other, up to one that does not accept; then what `last` says
  abbrev pub run : List (Command W) → List Text → (W → Run (Parsed W)) → W → Run (Parsed W)
  run [] rest last w = last w
  run (c ∷ cs) rest last w = act c.definition (c.params ++ written cs rest) w >>= λ r. elim r.1 [
    | false ↦ ok (failed action_failed r.0)
    | true ↦ run cs rest last r.0
  ]

  -- a command of as many parameters as `find` says
  abbrev pub Valid : (Text → Run (Argument W)) → Command W → Type 0
  Valid find c = (find c.name ≡ ok c.definition) × (length c.params ≡ c.definition.num_params_)

  -- how the texts behind the commands end the parse
  pub data Ends (find : Text → Run (Argument W)) : List Text → (W → Parsed W) → Type 0 where
    at_end : Ends find [] parsed
    at_unknown :
        (name : Text) (rest : List Text)
        → find name ≡ throw element_not_found
        → Ends find (name ∷ rest) (failed unknown_argument)
    at_short :
        (name : Text) (rest : List Text) (a : Argument W)
        → find name ≡ ok a
        → length rest < a.num_params_
        → Ends find (name ∷ rest) (failed insufficient_parameters)
