-- ===== src/Deque/Progress.antt =====
-- What the invariant gives: no call reads from an empty list, and none waits in vain.
use libspl.Common.{
  ℕ, ◌+◌, ◌<◌, ◌%◌, ◌^◌, some, none, leb, if◌then◌else◌, Bool-cases, inl, inr, ap, subst, ◌≡◌, ◌≢◌,
  ◌≤◌, refl, sym, ◌∙◌, Bool, true, false, List, [], ◌∷◌, ◌++◌, length, All, total, total-append,
  arith,
}
use libspl.Deque.Threads.{
  Shared, Point, Event, blocks, undefined, shared, lock, unlock, post, wait, read_front,
  thread_step, Steps, is_call, fresh, insert_lock, take_wait, take_timed_wait, take_try_wait, done,
  returned, threw,
}
use libspl.Deque.Steps.{debt, inserts, holds, Recalls, is_calm, lock_count}
use libspl.Deque.Invariant.{Inv, Steps-Inv, Exact, Steps-Exact}

mod_le : (n : ℕ) → n % 2 ^ 32 ≤ n
mod_le n = omega arith

module _ {A : Type 0} where
  call-starts :
      (items : List A) (p : Point A)
      → is_call p ≡ true
      → (debt p ≡ 0) × (holds p ≡ 0) × Recalls items p × (is_calm p ≡ true)
  call-starts items (insert_lock place a) h = (refl, refl, tt, refl)
  call-starts items take_wait h = (refl, refl, tt, refl)
  call-starts items take_timed_wait h = (refl, refl, tt, refl)
  call-starts items (take_try_wait a) h = (refl, refl, tt, refl)
  call-starts items p h = absurd cc

  fresh-shared :
      (sem_max : ℕ) (items : List A) (s : Shared A)
      → fresh sem_max items ≡ some s
      → shared sem_max items (length items % 2 ^ 32) false ≡ s
  unfolding fresh
  fresh-shared sem_max items s e = elim (Bool-cases (leb (length items % 2 ^ 32) sem_max)) [
    | inl fits ↦
        let q : some (shared sem_max items (length items % 2 ^ 32) false) ≡ some s =
          sym (
            ap (λ b. if b then some (shared sem_max items (length items % 2 ^ 32) false) else none)
              fits)
          ∙ e in
        cc
    | inr large ↦ absurd (
        let q : none ≡ some s =
          sym (
            ap (λ b. if b then some (shared sem_max items (length items % 2 ^ 32) false) else none)
              large)
          ∙ e in
        cc)
  ]

  shared-Inv :
      (sem_max : ℕ) (items : List A) (ts : List (Point A))
      → All (λ p. is_call p ≡ true) ts
      → Inv (shared sem_max items (length items % 2 ^ 32) false) ts
  shared-Inv sem_max items [] h =
      let le = mod_le (length items) in
      record { count = omega (arith, le); mutex = refl; recalls = tt; calm = tt }
  shared-Inv sem_max items (p ∷ ts) h =
      let (d, n, r, c) = call-starts items p h.0 in
      let rest = shared-Inv sem_max items ts h.1 in
      record {
        count = omega (arith, d, rest.count);
        mutex = omega (arith, n, rest.mutex);
        recalls = (r, rest.recalls);
        calm = (c, rest.calm);
      }

  -- A new deque with calls that have not started satisfies the invariant.
  pub start-Inv :
      (sem_max : ℕ) (items : List A) (s : Shared A) (ts : List (Point A))
      → fresh sem_max items ≡ some s
      → All (λ p. is_call p ≡ true) ts
      → Inv s ts × (s.items ≡ items)
  start-Inv sem_max items s ts e h =
      subst (λ x. Inv x ts × (x.items ≡ items)) (fresh-shared sem_max items s e)
        (shared-Inv sem_max items ts h, refl)

  unpaid : (ts : List (Point A)) → All (λ p. is_call p ≡ true) ts → total debt ts ≡ 0
  unpaid [] h = refl
  unpaid (p ∷ ts) h = omega (arith, (call-starts [] p h.0).0, unpaid ts h.1)

  start-Exact :
      (sem_max : ℕ) (items : List A) (s : Shared A) (ts : List (Point A))
      → fresh sem_max items ≡ some s
      → All (λ p. is_call p ≡ true) ts
      → length items < 2 ^ 32
      → length items + total inserts ts ≤ sem_max
      → Exact s ts
  start-Exact sem_max items s ts e h small room =
      let paid = unpaid ts h in
      subst (λ x. Exact x ts) (fresh-shared sem_max items s e)
        (record { all_counted = omega (arith, small, paid); room = room })

  -- a thread that reads the front has claimed a value
  defined :
      (late : Bool) (s : Shared A) (p : Point A)
      → debt p ≤ length s.items
      → thread_step late s p ≢ undefined
  unfolding thread_step lock unlock post wait read_front
  defined late s p le e = ground arith

  -- finished, or waiting for a value of an empty deque
  abbrev pub Settled : List A → Point A → Type 0
  Settled items done = Unit
  Settled items (returned a) = Unit
  Settled items (threw e) = Unit
  Settled items take_wait = items ≡ []
  Settled items take_timed_wait = items ≡ []
  Settled items p = false ≡ true

  abbrev pub Blocked : Shared A → Point A → Type 0
  Blocked s p = thread_step false s p ≡ blocks

  Blocked-free : (s : Shared A) (p : Point A) → Blocked s p → holds p ≡ 0
  unfolding thread_step lock unlock post wait read_front
  Blocked-free s p e = ground arith

  Blocked-paid : (s : Shared A) (p : Point A) → s.locked ≡ false → Blocked s p → debt p ≡ 0
  unfolding thread_step lock unlock post wait read_front
  Blocked-paid s p open_ e = ground arith

  Blocked-Settled :
      (s : Shared A) (p : Point A)
      → s.locked ≡ false
      → (s.sem ≡ 0 → s.items ≡ [])
      → Blocked s p
      → Settled s.items p
  unfolding thread_step lock unlock post wait read_front
  Blocked-Settled s p open_ none_left e = ground arith

  All-free : (s : Shared A) (ts : List (Point A)) → All (Blocked s) ts → total holds ts ≡ 0
  All-free s [] h = refl
  All-free s (p ∷ ts) h = omega (arith, Blocked-free s p h.0, All-free s ts h.1)

  All-paid :
      (s : Shared A) (ts : List (Point A))
      → s.locked ≡ false
      → All (Blocked s) ts
      → total debt ts ≡ 0
  All-paid s [] open_ h = refl
  All-paid s (p ∷ ts) open_ h = omega (arith, Blocked-paid s p open_ h.0, All-paid s ts open_ h.1)

  All-Settled :
      (s : Shared A) (ts : List (Point A))
      → s.locked ≡ false
      → (s.sem ≡ 0 → s.items ≡ [])
      → All (Blocked s) ts
      → All (Settled s.items) ts
  All-Settled s [] open_ f h = tt
  All-Settled s (p ∷ ts) open_ f h = (Blocked-Settled s p open_ f h.0, All-Settled s ts open_ f h.1)

  length-zero : (xs : List A) → length xs ≡ 0 → xs ≡ []
  length-zero [] h = refl
  length-zero (x ∷ xs) h = absurd (omega arith)

  unlocked : (s : Shared A) → 0 ≡ lock_count s → s.locked ≡ false
  unlocked s h = ground arith

  -- In every interleaving of calls of enqueue, enqueueFront, dequeue, dequeueOrTimeout and tryDequeue
  -- on a new deque, no step reads from an empty list.
  pub interleaved-defined :
      (sem_max : ℕ) (items : List A) (s₀ : Shared A) (ts : List (Point A)) (es : List (Event A))
      (s : Shared A) (b : List (Point A)) (p : Point A) (c : List (Point A)) (late : Bool)
      → fresh sem_max items ≡ some s₀
      → All (λ q. is_call q ≡ true) ts
      → Steps s₀ ts es s (b ++ p ∷ c)
      → thread_step late s p ≢ undefined
  interleaved-defined sem_max items s₀ ts es s b p c late new calls steps =
      let inv = Steps-Inv steps (start-Inv sem_max items s₀ ts new calls).0 in
      defined late s p (omega (arith, inv.count, total-append debt b (p ∷ c)))

  -- Where interleaved calls of enqueue, enqueueFront, dequeue, dequeueOrTimeout and tryDequeue on a new
  -- deque of fewer than 2^32 values, which with those to be inserted are no more than SEM_VALUE_MAX, can
  -- take no more steps while no time limit passes, each one is finished, or it waits for a value and the
  -- deque is empty.
  pub interleaved-Settled :
      (sem_max : ℕ) (items : List A) (s₀ : Shared A) (ts : List (Point A)) (es : List (Event A))
      (s : Shared A) (us : List (Point A))
      → fresh sem_max items ≡ some s₀
      → length items < 2 ^ 32
      → length items + total inserts ts ≤ sem_max
      → All (λ q. is_call q ≡ true) ts
      → Steps s₀ ts es s us
      → All (Blocked s) us
      → All (Settled s.items) us
  interleaved-Settled sem_max items s₀ ts es s us new small room calls steps stuck =
      let start = (start-Inv sem_max items s₀ ts new calls).0 in
      let inv = Steps-Inv steps start in
      let x = Steps-Exact steps start (start-Exact sem_max items s₀ ts new calls small room) in
      let open_ = unlocked s (sym (All-free s us stuck) ∙ inv.mutex) in
      All-Settled s us open_
        (λ e. length-zero s.items (omega (arith, x.all_counted, e, All-paid s us open_ stuck)))
        stuck
