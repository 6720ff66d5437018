-- ===== src/Arguments/Tests.antt =====
-- A run of the command line parser, and an instance of its theorem.
use mathlib.Core.Path.{◌≡◌, refl}
use libspl.Common.{
  ℕ, ◌+◌, ◌≢◌, Bool, true, false, ◌&&◌, Option, none, some, List, [], ◌∷◌, Run, ok, throw, fault,
  inl, inr, ◌>>=◌, ◌==◌, arith, ap, ◌∙◌, subst, All, total, map,
}
use libspl.HashTable.Controller.{
  init, grow_bucket, shrink_buckets, increase_bucket_size, increase_number_of_buckets,
  need_to_expand_bucket, hash_range,
}
use libspl.HashTable.Table.{
  put_slot, matches, find_loop, find_index, find_any_loop, free_loop, place, rehash_loop, rehash,
  resize, find_or_get_free_index,
}
use libspl.HashTable.Wholes.{new_table}
use libspl.HashTable.Maps
use libspl.HashTable.Nodes.{IsKeys}
use libspl.HashTable.Maps.{MapNode, map_node}
use libspl.HashTable.Room.{HasRoom}
use libspl.HashTable.Fits.{Fits}
use libspl.Arguments.Parser.{
  Text, ArgumentParser, Argument, argument, num_params, action, insufficient_parameters, failed,
  store, set, parser, parse_loop, parse,
}
use libspl.Arguments.Commands.{Command, written, run, at_short}
use libspl.Arguments.Interpret.{with_args, parser-run}

program : Unit {0}
unfolding init grow_bucket shrink_buckets increase_bucket_size increase_number_of_buckets
    need_to_expand_bucket hash_range put_slot matches find_loop find_index find_any_loop free_loop
    place rehash_loop rehash resize find_or_get_free_index new_table Maps.put Maps.put_all
    Maps.contains Maps.value_at parser parse_loop parse
program = tt

abbrev eq_text : Text → Text → Bool
eq_text [] [] = true
eq_text [] (y ∷ ys) = false
eq_text (x ∷ xs) [] = false
eq_text (x ∷ xs) (y ∷ ys) = (x == y) && eq_text xs ys

abbrev hash_text : Text → ℕ
hash_text t = total (λ c. c) t + 1

eq_text_self : (a : Text) → eq_text a a ≡ true
eq_text_self [] = refl
eq_text_self (x ∷ xs) = let rest = eq_text_self xs in ground (arith, rest)

eq_text_lem : (a b : Text) → eq_text a b ≡ true → a ≡ b
eq_text_lem [] [] e = refl
eq_text_lem [] (y ∷ ys) e = absurd cc
eq_text_lem (x ∷ xs) [] e = absurd cc
eq_text_lem (x ∷ xs) (y ∷ ys) e =
    let head : x ≡ y = ground (arith, e) in
    let rest : eq_text xs ys ≡ true = ground (arith, e) in
    ap (λ z. z ∷ xs) head ∙ ap (λ z. y ∷ z) (eq_text_lem xs ys rest)

eq_text-IsKeys : IsKeys eq_text hash_text
eq_text-IsKeys = record {
  self = eq_text_self;
  flip = λ a b e. subst (λ x. eq_text x a ≡ true) (eq_text_lem a b e) (eq_text_self a);
  trans = λ a b c e e'. subst (λ x. eq_text a x ≡ true) (eq_text_lem b c e') e;
  alike = λ a b e. ap hash_text (eq_text_lem a b e);
}

-- two variables
abbrev State : Type 0
State = ℕ × Bool

abbrev single : Text → Option ℕ
single [] = none
single (c ∷ cs) = some c

abbrev level : Argument State
level = action (num_params (argument (1 ∷ [])) 1) (store single (λ n w. (n, w.1)))

abbrev flag : Argument State
flag = action (argument (2 ∷ [])) (set (λ b w. (w.0, b)) true)

abbrev definitions : List (Argument State)
definitions = level ∷ flag ∷ []

abbrev commands : List (Command State)
commands =
    record { name = 1 ∷ []; definition = level; params = (77 ∷ []) ∷ [] }
    ∷ record { name = 2 ∷ []; definition = flag; params = [] }
    ∷ []

parse_runs :
    (parser eq_text hash_text 1 definitions >>= λ args.
    parse eq_text hash_text 1 args ([] ∷ written commands ((1 ∷ []) ∷ [])) (0, false) >>= λ r.
    ok r.1)
    ≡ ok (failed insufficient_parameters (77, true))
unfolding program
parse_runs = refl

hashes :
    (as_ : List (Argument State))
    → All (λ n. hash_text n.k ≢ 0) (map (λ a. map_node a.argument_ a) as_)
hashes [] = tt
hashes (a ∷ as_) = (λ e. ground (arith, e), hashes as_)

abbrev nodes : List (MapNode Text (Argument State))
nodes = map (λ a. map_node a.argument_ a) definitions

abbrev or_new : Run (ArgumentParser State) → ArgumentParser State
or_new (ok t) = t
or_new (throw x) = new_table 2
or_new fault = new_table 2

abbrev with_level : ArgumentParser State
with_level = or_new (Maps.put eq_text hash_text 1 (new_table 2) (1 ∷ []) level)

flag-HasRoom : HasRoom 1 with_level 3
unfolding program
flag-HasRoom = inl (3, inl refl, refl)

definitions-Fits : Fits eq_text hash_text 1 (new_table 2) nodes
unfolding program
definitions-Fits = (
  inr (inl (2, inl refl, refl)),
  λ t' e.
      let e' : ok with_level ≡ ok t' = e in
      subst (λ t. Fits eq_text hash_text 1 t (map_node (2 ∷ []) flag ∷ [])) (ap or_new e')
        (inr flag-HasRoom, λ t'' e''. tt),
)

parser-run_example :
    (args : ArgumentParser State) × (parser eq_text hash_text 1 definitions ≡ ok args)
    × (parse eq_text hash_text 1 args ([] ∷ written commands ((1 ∷ []) ∷ [])) (0, false)
        ≡ with_args args
            (run commands ((1 ∷ []) ∷ []) (λ x. ok (failed insufficient_parameters x)) (0, false)))
parser-run_example =
    parser-run eq_text hash_text eq_text-IsKeys 0 0 definitions commands ((1 ∷ []) ∷ [])
      (failed insufficient_parameters) [] (0, false) (hashes definitions) definitions-Fits
      ((refl, refl), ((refl, refl), tt)) (at_short (1 ∷ []) [] level refl (omega arith))
