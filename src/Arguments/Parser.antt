-- ===== src/Arguments/Parser.antt =====
-- `Argument` and `ArgumentParser` of include/argument_parser.h and src/argument_parser.cpp, whose
-- arguments are a map of include/hash_map.h. A text is a list of character codes. An action changes a
-- state `W`, which stands for the variables that it refers to. A number of parameters is not negative.
use libspl.Common.{
  ℕ, zero, suc, Bool, true, false, Option, none, some, List, [], ◌∷◌, Run, ok, fault, ltb,
  if◌then◌else◌, ◌>>=◌, ◌==◌, length, drop, map,
}
use libspl.HashTable.Table.{Table}
use libspl.HashTable.Wholes.{new_table}
use libspl.HashTable.Maps
use libspl.HashTable.Maps.{MapNode, map_node}

abbrev pub Text : Type 0
Text = List ℕ

-- what an action does with the texts from its first parameter on: the state, and whether it accepts
-- them; or it throws
abbrev pub Action : Type 0 → Type 0
Action W = List Text → W → Run (W × Bool)

pub record Argument (W : Type 0) : Type 0 where
  pub argument_ : Text
  pub num_params_ : ℕ
  pub action_ : Option (Action W)

-- the errors of `parse`
pub data ParseError : Type 0 where
  unknown_argument insufficient_parameters action_failed : ParseError

-- how `parse` ends: with the state, or with an error and the state that it has left
pub data Parsed (W : Type 0) : Type 0 where
  parsed : W → Parsed W
  failed : ParseError → W → Parsed W

abbrev true_text : Text
true_text = 116 ∷ 114 ∷ 117 ∷ 101 ∷ []

abbrev false_text : Text
false_text = 102 ∷ 97 ∷ 108 ∷ 115 ∷ 101 ∷ []

abbrev pub ArgumentParser : Type 0 → Type 0
ArgumentParser W = Table (MapNode Text (Argument W))

module _ {W : Type 0} where
  abbrev pub argument : Text → Argument W
  argument name = record { argument_ = name; num_params_ = 0; action_ = none }

  -- `Argument()`
  abbrev pub no_argument : Argument W
  no_argument = argument []

  abbrev pub num_params : Argument W → ℕ → Argument W
  num_params a n = record a { num_params_ = n }

  abbrev pub action : Argument W → Action W → Argument W
  action a f = record a { action_ = some f }

  -- `arg._action && ! arg._action(argv)`: the state, and whether parsing goes on
  abbrev pub act : Argument W → List Text → W → Run (W × Bool)
  act a argv w = elim a.action_ [ none ↦ ok (w, true) | some f ↦ f argv w ]

  module _ (keq : Text → Text → Bool) (hash : Text → ℕ) where
    -- `add(arg)`, on fuel for the resizes of the map
    abbrev pub add : ℕ → ArgumentParser W → Argument W → Run (ArgumentParser W)
    add f args a = Maps.put keq hash f args a.argument_ a

    abbrev pub add_all : ℕ → ArgumentParser W → List (Argument W) → Run (ArgumentParser W)
    add_all f args as_ = Maps.put_all keq hash f args (map (λ a. map_node a.argument_ a) as_)

    -- `ArgumentParser(arguments)`
    unfoldable pub parser : ℕ → List (Argument W) → Run (ArgumentParser W)
    parser f as_ = add_all f (new_table (length as_)) as_

    -- the loop of `parse`, on fuel `f` for its rounds and `g` for the resizes of the map, into which
    -- `operator[]` would insert: the map, and how the parse ends
    unfoldable pub parse_loop :
        ℕ → ℕ → ArgumentParser W → List Text → W → Run (ArgumentParser W × Parsed W)
    parse_loop g zero args argv w = fault
    parse_loop g (suc f) args [] w = ok (args, parsed w)
    parse_loop g (suc f) args (name ∷ argv) w = Maps.contains keq hash args name >>= λ known.
        elim known [
          | false ↦ ok (args, failed unknown_argument w)
          | true ↦ Maps.value_at keq hash g args no_argument name >>= λ r.
              elim (ltb (length argv) r.1.num_params_) [
                | true ↦ ok (r.0, failed insufficient_parameters w)
                | false ↦ act r.1 argv w >>= λ q. elim q.1 [
                  | false ↦ ok (r.0, failed action_failed q.0)
                  | true ↦ parse_loop g f r.0 (drop r.1.num_params_ argv) q.0
                ]
              ]
        ]

    -- `parse(argc, argv)`, which skips the program's name
    unfoldable pub parse : ℕ → ArgumentParser W → List Text → W → Run (ArgumentParser W × Parsed W)
    parse g args [] w = ok (args, parsed w)
    parse g args (program ∷ argv) w = parse_loop g (suc (length argv)) args argv w

  -- `store(dest)` of a number, with the parser of its type, where none is any exception, and the write
  -- to `dest`; without a parameter it parses a null pointer
  abbrev pub store : {A : Type 0} → (Text → Option A) → (A → W → W) → Action W
  store parse_value write [] w = fault
  store parse_value write (p ∷ ps) w = elim (parse_value p) [
    | none ↦ ok (w, false)
    | some a ↦ ok (write a w, true)
  ]

  -- `set(dest, val)`
  abbrev pub set : {A : Type 0} → (A → W → W) → A → Action W
  set write a argv w = ok (write a w, true)

  -- `store<bool>(val)`, with strcasecmp
  abbrev pub store_bool : (Text → Text → ℕ) → (Bool → W → W) → Action W
  store_bool strcasecmp write [] w = fault
  store_bool strcasecmp write (p ∷ ps) w =
      if strcasecmp p true_text == 0
      then ok (write true w, true)
      else if strcasecmp p false_text == 0
      then ok (write false w, true)
      else ok (w, false)
