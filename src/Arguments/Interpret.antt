-- ===== src/Arguments/Interpret.antt =====
-- What `parse` does with a command line that is a sequence of commands.
use libspl.Common.{
  ℕ, zero, suc, ◌≤◌, ◌<◌, ◌≡◌, ◌≢◌, refl, sym, ◌∙◌, ap, Bool, Bool-cases, if◌then◌else◌, true,
  false, List, [], ◌∷◌, ◌++◌, Run, ok, throw, fault, element_not_found, ltb, ◌>>=◌, length,
  length-append, drop, map, arith, inl, inr, All, lt→ltb, le→ltb,
}
use libspl.HashTable.Nodes.{IsKeys, NoStale, find_index-cases}
use libspl.HashTable.Maps
use libspl.HashTable.Maps.{MapNode, map_node, key_of}
use libspl.HashTable.Lookups.{IsMap, get-Found, get-absent}
use libspl.HashTable.Wholes.{new_table}
use libspl.HashTable.Fits.{Fits, value_at-there}
use libspl.HashTable.Filling.{override, put_all-override}
use libspl.Arguments.Commands.{Command, written, run, Valid, Ends, at_end, at_unknown, at_short}
use libspl.Arguments.Parser.{
  Text, no_argument, Argument, ArgumentParser, unknown_argument, insufficient_parameters,
  action_failed, Parsed, failed, act, parser, parse_loop, parse,
}

drop-length : {A : Type 0} (xs ys : List A) → drop (length xs) (xs ++ ys) ≡ ys
drop-length [] ys = refl
drop-length (x ∷ xs) ys = drop-length xs ys

-- one round of the loop with the argument that the name has
one_round :
    {W R : Type 0} (m : Run Bool) (T : Type 0) (t : T) (v : Run (T × Argument W)) (a : Argument W)
    (len : ℕ) (x : R) (y : T → R) (g : T → Argument W → Run R)
    → m ≡ ok true
    → v ≡ ok (t, a)
    → (m >>= λ known. elim known [
      | false ↦ ok x
      | true ↦ v >>= λ r. elim (ltb len r.1.num_params_) [ true ↦ ok (y r.0) | false ↦ g r.0 r.1 ]
    ])
      ≡ elim (ltb len a.num_params_) [ true ↦ ok (y t) | false ↦ g t a ]
one_round m T t v a len x y g known value =
    ap
      (λ z. z >>= λ b. elim b [
        | false ↦ ok x
        | true ↦ v >>= λ r. elim (ltb len r.1.num_params_) [ true ↦ ok (y r.0) | false ↦ g r.0 r.1 ]
      ])
      known
    ∙ ap (λ z. z >>= λ r. elim (ltb len r.1.num_params_) [ true ↦ ok (y r.0) | false ↦ g r.0 r.1 ])
        value

first_case : {R : Type 0} (b : Bool) (x y : R) → b ≡ true → elim b [ true ↦ x | false ↦ y ] ≡ x
first_case true x y e = refl
first_case false x y e = absurd cc

-- a parse that ends with the map as it was
abbrev pub with_args :
    {W : Type 0} → ArgumentParser W → Run (Parsed W) → Run (ArgumentParser W × Parsed W)
with_args args m = m >>= λ r. ok (args, r)

same_after :
    {W : Type 0} (args : ArgumentParser W) (m : Run (W × Bool))
    (g : W → Run (ArgumentParser W × Parsed W)) (h : W → Run (Parsed W))
    → ((w : W) → g w ≡ with_args args (h w))
    → (m >>= λ r. elim r.1 [ false ↦ ok (args, failed action_failed r.0) | true ↦ g r.0 ])
      ≡ with_args args
          (m >>= λ r. elim r.1 [ false ↦ ok (failed action_failed r.0) | true ↦ h r.0 ])
same_after args (ok (w, true)) g h e = e w
same_after args (ok (w, false)) g h e = refl
same_after args (throw x) g h e = refl
same_after args fault g h e = refl

module _ {W : Type 0} (find find' : Text → Run (Argument W))
    (says : (k : Text) → find' k ≡ find k) where
  Valid-says : (cs : List (Command W)) → All (Valid find) cs → All (Valid find') cs
  Valid-says [] v = tt
  Valid-says (c ∷ cs) ((e, n), v) = ((says c.name ∙ e, n), Valid-says cs v)

  Ends-says : (rest : List Text) (last : W → Parsed W) → Ends find rest last → Ends find' rest last
  Ends-says [] last at_end = at_end
  Ends-says (name ∷ rest) last (at_unknown _ _ e) = at_unknown name rest (says name ∙ e)
  Ends-says (name ∷ rest) last (at_short _ _ a e lt) = at_short name rest a (says name ∙ e) lt

module _ {W : Type 0} (keq : Text → Text → Bool) (hash : Text → ℕ) (keys : IsKeys keq hash) where
  abbrev find_in : ArgumentParser W → Text → Run (Argument W)
  find_in args k = Maps.get keq hash args k

  -- what the definitions say of a name
  abbrev pub defined : List (Argument W) → Text → Run (Argument W)
  defined as_ k = override keq (map (λ a. map_node a.argument_ a) as_) k (throw element_not_found)

  known-get :
      (args : ArgumentParser W) (k : Text) (a : Argument W)
      → IsMap keq hash keys args
      → find_in args k ≡ ok a
      → Maps.contains keq hash args k ≡ ok true
  unfolding Maps.contains
  known-get args k a w e = elim (find_index-cases key_of keq hash keys args k w) [
    | inl missing ↦ absurd (
        let q : ok a ≡ throw element_not_found =
          sym e ∙ get-absent keq hash keys args k w missing.no_node in
        cc)
    | inr (i, f) ↦ rw f.is_found refl
  ]

  unknown-get :
      (args : ArgumentParser W) (k : Text)
      → IsMap keq hash keys args
      → find_in args k ≡ throw element_not_found
      → Maps.contains keq hash args k ≡ ok false
  unfolding Maps.contains
  unknown-get args k w e = elim (find_index-cases key_of keq hash keys args k w) [
    | inl missing ↦ rw missing.is_missing refl
    | inr (i, f) ↦ absurd (
        let q : ok f.node.v ≡ throw element_not_found =
          sym (get-Found keq hash keys args k i f) ∙ e in
        cc)
  ]

  -- a name that the definitions have is of a hash that is not 0
  override-hash :
      (ns : List (MapNode Text (Argument W))) (k : Text) (r : Run (Argument W)) (a : Argument W)
      → All (λ n. hash n.k ≢ 0) ns
      → (r ≡ ok a → hash k ≢ 0)
      → override keq ns k r ≡ ok a
      → hash k ≢ 0
  override-hash [] k r a nz h e = h e
  override-hash (n ∷ ns) k r a (z, nz) h e =
      override-hash ns k (if keq n.k k then ok n.v else r) a nz
        (λ q. elim (Bool-cases (keq n.k k)) [
          | inl yes_ ↦ λ y. z (keys.alike n.k k yes_ ∙ y)
          | inr no_ ↦ h (ap (λ b. if b then ok n.v else r) (sym no_) ∙ q)
        ])
        e

  -- a map of arguments as it is built: of these it finds what `find` says
  record IsParser (find : Text → Run (Argument W)) (args : ArgumentParser W) : Type 0 where
    well : IsMap keq hash keys args
    no_stale : (h : ℕ) → h ≢ 0 → NoStale h args.slots
    hashed : (k : Text) (a : Argument W) → find k ≡ ok a → hash k ≢ 0
    says : (k : Text) → find_in args k ≡ find k

  module _ (find : Text → Run (Argument W)) (args : ArgumentParser W) (p : IsParser find args)
      (g : ℕ) where
    value-find :
        (k : Text) (a : Argument W)
        → find k ≡ ok a
        → Maps.value_at keq hash (suc g) args no_argument k ≡ ok (args, a)
    value-find k a e =
        value_at-there keq hash keys g args k no_argument a p.well
          (p.no_stale (hash k) (p.hashed k a e)) (p.says k ∙ e)

    parse_loop-Ends :
        (f : ℕ) (rest : List Text) (last : W → Parsed W) (w : W)
        → Ends find rest last
        → parse_loop keq hash (suc g) (suc f) args rest w ≡ ok (args, last w)
    unfolding parse_loop
    parse_loop-Ends f [] last w at_end = refl
    parse_loop-Ends f (name ∷ rest) last w (at_unknown _ _ e) =
        rw (unknown-get args name p.well (p.says name ∙ e)) refl
    parse_loop-Ends f (name ∷ rest) last w (at_short _ _ a e lt) =
        one_round (Maps.contains keq hash args name) (ArgumentParser W) args
          (Maps.value_at keq hash (suc g) args no_argument name) a (length rest)
          (args, failed unknown_argument w) (λ t. (t, failed insufficient_parameters w)) _
          (known-get args name a p.well (p.says name ∙ e)) (value-find name a e)
        ∙ first_case (ltb (length rest) a.num_params_) _ _ (lt→ltb (length rest) a.num_params_ lt)

    parse_loop-run :
        (f : ℕ) (cs : List (Command W)) (rest : List Text) (last : W → Parsed W) (w : W)
        → All (Valid find) cs
        → Ends find rest last
        → length (written cs rest) < f
        → parse_loop keq hash (suc g) f args (written cs rest) w
          ≡ with_args args (run cs rest (λ x. ok (last x)) w)
    unfolding parse_loop
    parse_loop-run zero cs rest last w v e lt = absurd (omega (arith, lt))
    parse_loop-run (suc f) [] rest last w v e lt = parse_loop-Ends f rest last w e
    parse_loop-run (suc f) (c ∷ cs) rest last w ((found, n), v) e lt =
        let behind = c.params ++ written cs rest in
        let len = length-append c.params (written cs rest) in
        let enough : c.definition.num_params_ ≤ length behind = omega (arith, n, len) in
        let skipped : drop c.definition.num_params_ behind ≡ written cs rest =
          ap (λ k. drop k behind) (sym n) ∙ drop-length c.params (written cs rest) in
        let after : List Text → Run (ArgumentParser W × Parsed W) = λ l.
          act c.definition behind w >>= λ r. elim r.1 [
            | false ↦ ok (args, failed action_failed r.0)
            | true ↦ parse_loop keq hash (suc g) f args l r.0
          ] in
        one_round (Maps.contains keq hash args c.name) (ArgumentParser W) args
          (Maps.value_at keq hash (suc g) args no_argument c.name) c.definition (length behind)
          (args, failed unknown_argument w) (λ t. (t, failed insufficient_parameters w)) _
          (known-get args c.name c.definition p.well (p.says c.name ∙ found))
          (value-find c.name c.definition found)
        ∙ ap
            (λ b. elim b [
              | true ↦ ok (args, failed insufficient_parameters w)
              | false ↦ after (drop c.definition.num_params_ behind)
            ])
            (le→ltb (length behind) c.definition.num_params_ enough)
        ∙ ap after skipped
        ∙ same_after args (act c.definition behind w)
            (parse_loop keq hash (suc g) f args (written cs rest)) (run cs rest (λ x. ok (last x)))
            (λ x. parse_loop-run f cs rest last x v e (omega (arith, lt, len)))

  -- A parser of arguments with the definitions is built where, at each definition, its name is there
  -- already or a slot in the range of its hash is free, at once or after at most `f` resizes. It runs the
  -- actions of the commands that it is given one after the other, each on the texts behind its name, up to
  -- the first one that does not accept its parameters; then it ends as the texts behind the commands say:
  -- there are none, or the first is no argument, or it has too few parameters. The map of the arguments
  -- stays as it is. Of two definitions of a name the later one counts. The hash is not zero on the
  -- definitions' names.
  pub parser-run :
      (f g : ℕ) (definitions : List (Argument W)) (cs : List (Command W)) (rest : List Text)
      (last : W → Parsed W) (program : Text) (w : W)
      → All (λ n. hash n.k ≢ 0) (map (λ a. map_node a.argument_ a) definitions)
      → Fits keq hash
          (suc f)
          (new_table (length definitions))
          (map (λ a. map_node a.argument_ a) definitions)
      → All (Valid (defined definitions)) cs
      → Ends (defined definitions) rest last
      → (args : ArgumentParser W) × (parser keq hash (suc f) definitions ≡ ok args)
        × (parse keq hash (suc g) args (program ∷ written cs rest) w
            ≡ with_args args (run cs rest (λ x. ok (last x)) w))
  unfolding parser parse
  parser-run f g definitions cs rest last program w nz fit v e =
      let nodes = map (λ a. map_node a.argument_ a) definitions in
      let (args, built, m, stale, says) =
        put_all-override keq hash keys f (length definitions) nodes nz fit in
      let p : IsParser (defined definitions) args = record {
        well = m;
        no_stale = stale;
        hashed = λ k a q. override-hash nodes k (throw element_not_found) a nz (λ z. absurd cc) q;
        says = says;
      } in
      (
        args,
        built,
        parse_loop-run (defined definitions) args p g (suc (length (written cs rest))) cs rest last
            w v e (omega arith),
      )
