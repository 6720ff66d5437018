-- ===== src/LinkedList/Store.antt =====
-- Memory with nodes at addresses, the fields of one list, and commands on both.
use libspl.Common.{
  ℕ, Option, none, some, Run, ok, throw, fault, arith, ◌≡◌, ap, ◌∙◌, ◌≢◌, ◌==◌, if◌then◌else◌,
}

abbrev pub Ptr : Type 0
Ptr = ℕ

-- `nullptr`
abbrev pub null : Ptr
null = 0

-- `SinglyLinkedNode<T>`
pub record Node (A : Type 0) : Type 0 where
  pub next : Ptr
  pub data_of : A

abbrev pub node : {A : Type 0} → A → Ptr → Node A
node a q = record { next = q; data_of = a }

abbrev pub Heap : Type 0 → Type 0
Heap A = Ptr → Option (Node A)

unfoldable pub write : {A : Type 0} → Heap A → Ptr → Option (Node A) → Heap A
write h p c a = if a == p then c else h a

-- the heap, and `_head`, `_tail` and `_size` of a `ListBase`; a size counts nodes in memory, so it
-- does not overflow
pub record Store (A : Type 0) : Type 0 where
  pub heap : Heap A
  pub head : Ptr
  pub tail : Ptr
  pub size : ℕ

-- a command changes the store, throws in a store, or is undefined
abbrev pub Command : Type 0 → Type 0 → Type 0
Command A B = Store A → Run (B × Store A)

module _ {A B C : Type 0} where
  infixl 5 ◌>>=◌ ◌>>◌
  abbrev pub ◌>>=◌ : Command A B → (B → Command A C) → Command A C
  ◌>>=◌ m f s = elim (m s) [ ok (b, s') ↦ f b s' | throw e ↦ throw e | fault ↦ fault ]

  abbrev pub ◌>>◌ : Command A B → Command A C → Command A C
  m >> k = m >>= λ _. k

-- a `node_ptr &`: the list's `_head`, or the `next` of a node
pub data Slot : Type 0 where
  head_slot : Slot
  next_slot : Ptr → Slot

module _ {A : Type 0} where
  abbrev pub pure : {B : Type 0} → B → Command A B
  pure b s = ok (b, s)

  -- `*p`; reading through `nullptr`, or where no node is, is undefined
  unfoldable pub load : Ptr → Command A (Node A)
  load p s = if p == null then fault else elim (s.heap p) [ none ↦ fault | some n ↦ ok (n, s) ]

  abbrev pub store : Ptr → Option (Node A) → Command A (Unit {0})
  store p c s = ok (tt, record s { heap = write s.heap p c })

  unfoldable pub read_slot : Slot → Command A Ptr
  read_slot head_slot s = ok (s.head, s)
  read_slot (next_slot p) s = (load p >>= λ n. pure n.next) s

  unfoldable pub write_slot : Slot → Ptr → Command A (Unit {0})
  write_slot head_slot q s = ok (tt, record s { head = q })
  write_slot (next_slot p) q s = (load p >>= λ n. store p (some (record n { next = q }))) s

  abbrev pub set_tail : Ptr → Command A (Unit {0})
  set_tail q s = ok (tt, record s { tail = q })

  abbrev pub set_size : ℕ → Command A (Unit {0})
  set_size n s = ok (tt, record s { size = n })

  -- `new node(data)`; the allocator returns an address `fresh` that is not in use
  unfoldable pub mk_node : Ptr → A → Command A Ptr
  mk_node fresh a = store fresh (some (node a null)) >> pure fresh

  -- `delete p`
  unfoldable pub delete : Ptr → Command A (Unit {0})
  delete p = load p >> store p none

module _ {A : Type 0} (h : Heap A) (p : Ptr) (c : Option (Node A)) where
  pub write_self : write h p c p ≡ c
  unfolding write
  write_self = ground arith

  pub write_ne : (a : Ptr) → a ≢ p → write h p c a ≡ h a
  unfolding write
  write_ne a n = ground arith

-- a command runs, and then the next one
pub bind-runs :
    {A B C : Type 0} (m : Command A B) (f : B → Command A C) (s : Store A) (b : B) (s₁ : Store A)
    {r : Run (C × Store A)}
    → m s ≡ ok (b, s₁)
    → f b s₁ ≡ r
    → (m >>= f) s ≡ r
bind-runs m f s b s₁ e h =
    ap (λ x. elim x [ ok (b, s') ↦ f b s' | throw e' ↦ throw e' | fault ↦ fault ]) e ∙ h
