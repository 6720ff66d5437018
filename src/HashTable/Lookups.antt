-- ===== src/HashTable/Lookups.antt =====
-- `get` of the map is decided by the nodes that stand in the table.
use libspl.Common.{
  ℕ, ◌≡◌, refl, sym, ◌∙◌, ap, Bool, true, false, ok, throw, element_not_found, arith, Bool-cases,
  inl, inr,
}
use libspl.HashTable.Table.{Table}
use libspl.HashTable.Nodes.{IsKeys, At, IsHashTable, Found, find_index-cases, find-At}
use libspl.HashTable.Maps.{MapNode, key_of, get}

module _ {K V : Type 0} (keq : K → K → Bool) (hash : K → ℕ) (keys : IsKeys keq hash) where
  abbrev pub IsMap : Table (MapNode K V) → Type 0
  IsMap t = IsHashTable key_of keq hash t

  pub get-Found :
      (t : Table (MapNode K V)) (k : K) (i : ℕ) (f : Found key_of keq hash t k i)
      → get keq hash t k ≡ ok f.node.v
  unfolding get
  get-Found t k i f = rw f.is_found (rw f.stored refl)

  pub get-At :
      (t : Table (MapNode K V)) (k : K) (n : MapNode K V)
      → IsMap t
      → At t.slots n
      → keq n.k k ≡ true
      → get keq hash t k ≡ ok n.v
  get-At t k n w a e =
      let (i, f, same) = find-At key_of keq hash keys t k n w a e in
      get-Found t k i f ∙ ap (λ m. ok m.v) same

  pub get-absent :
      (t : Table (MapNode K V)) (k : K)
      → IsMap t
      → ((n : MapNode K V) → At t.slots n → keq n.k k ≡ false)
      → get keq hash t k ≡ throw element_not_found
  unfolding get
  get-absent t k w no_ = elim (find_index-cases key_of keq hash keys t k w) [
    | inl missing ↦ rw missing.is_missing refl
    | inr (i, f) ↦
        absurd
          (let q = no_ f.node (i, f.live, f.stored) in let p = f.same_key in ground (arith, q, p))
  ]

  -- two tables with the same nodes of the key
  pub get-same :
      (t t' : Table (MapNode K V)) (k : K)
      → IsMap t
      → IsMap t'
      → ((n : MapNode K V)
          → keq n.k k ≡ true
          → (At t.slots n → At t'.slots n) × (At t'.slots n → At t.slots n))
      → get keq hash t' k ≡ get keq hash t k
  get-same t t' k w w' same = elim (find_index-cases key_of keq hash keys t k w) [
    | inl missing ↦
        get-absent t' k w' (λ n a. elim (Bool-cases (keq n.k k)) [
          | inr no_ ↦ no_
          | inl yes_ ↦ missing.no_node n ((same n yes_).1 a)
        ])
        ∙ sym (get-absent t k w missing.no_node)
    | inr (i, f) ↦
        get-At t' k f.node w' ((same f.node f.same_key).0 (i, f.live, f.stored)) f.same_key
        ∙ sym (get-Found t k i f)
  ]
