-- ===== src/Deque/Invariant.antt =====
-- What every interleaving of calls without `clear` keeps: the semaphore counts the values that no
-- call has claimed, and the mutex keeps the base operations apart.
use libspl.Common.{
  ◌+◌, ◌≡◌, ◌≤◌, refl, sym, subst, Bool, true, List, [], ◌∷◌, ◌++◌, length, All, All-split,
  All-join, total, total-append, ◌⊎◌, inl, inr, arith,
}
use libspl.Deque.Threads.{
  Shared, Point, Event, goes, thread_step, Steps, stop, step, insert_read, insert_write,
  insert_unlock, take_read, take_write, take_unlock, clear_write, clear_unlock,
}
use libspl.Deque.Steps.{debt, inserts, holds, Recalls, is_calm, lock_count, Kept, KeptBy, step-Kept}

module _ {A : Type 0} where
  -- The semaphore is at most the number of values less the claimed ones, exactly the locked mutex has a
  -- holder, and nothing changed the list under a call that holds the mutex.
  pub record Inv (s : Shared A) (ts : List (Point A)) : Type 0 where
    pub count : s.sem + total debt ts ≤ length s.items
    pub mutex : total holds ts ≡ lock_count s
    pub recalls : All (Recalls s.items) ts
    pub calm : All (λ p. is_calm p ≡ true) ts

  -- and it is that number where the values, with those to come, are no more than it can count
  pub record Exact (s : Shared A) (ts : List (Point A)) : Type 0 where
    pub all_counted : length s.items ≡ s.sem + total debt ts
    pub room : length s.items + total inserts ts ≤ s.sem_max

  free-Recalls : (items : List A) (p : Point A) → holds p ≡ 0 → Recalls items p
  free-Recalls items (insert_write place a xs) h = absurd (omega arith)
  free-Recalls items (take_write a xs) h = absurd (omega arith)
  free-Recalls items p h = tt

  no_holder-Recalls :
      (items : List A) (ts : List (Point A)) → total holds ts ≡ 0 → All (Recalls items) ts
  no_holder-Recalls items [] h = tt
  no_holder-Recalls items (p ∷ ts) h =
      (free-Recalls items p (omega arith), no_holder-Recalls items ts (omega arith))

  lock_count-le : (s : Shared A) → lock_count s ≤ 1
  lock_count-le s = ground arith

  holds-cases : (p : Point A) → (holds p ≡ 0) ⊎ (holds p ≡ 1)
  holds-cases (insert_read place a) = inr refl
  holds-cases (insert_write place a xs) = inr refl
  holds-cases insert_unlock = inr refl
  holds-cases take_read = inr refl
  holds-cases (take_write a xs) = inr refl
  holds-cases (take_unlock a) = inr refl
  holds-cases clear_write = inr refl
  holds-cases clear_unlock = inr refl
  holds-cases p = inl refl

  kept :
      (late : Bool) (s : Shared A) (b : List (Point A)) (p : Point A) (c : List (Point A))
      (ev : List (Event A)) (s₁ : Shared A) (p₁ : Point A)
      → thread_step late s p ≡ goes ev s₁ p₁
      → Inv s (b ++ p ∷ c)
      → Kept s p s₁ p₁
  kept late s b p c ev s₁ p₁ e inv =
      let (calm_b, (calm_p, calm_c)) = All-split (λ q. is_calm q ≡ true) b (p ∷ c) inv.calm in
      let (rec_b, (rec_p, rec_c)) = All-split (Recalls s.items) b (p ∷ c) inv.recalls in
      let held = total-append holds b (p ∷ c) in
      subst (KeptBy s p) e (step-Kept late s p calm_p rec_p (omega (arith, inv.mutex, held)))

  step-Exact :
      (late : Bool) (s : Shared A) (b : List (Point A)) (p : Point A) (c : List (Point A))
      (ev : List (Event A)) (s₁ : Shared A) (p₁ : Point A)
      → thread_step late s p ≡ goes ev s₁ p₁
      → Inv s (b ++ p ∷ c)
      → Exact s (b ++ p ∷ c)
      → Exact s₁ (b ++ p₁ ∷ c)
  step-Exact late s b p c ev s₁ p₁ e inv x =
      let k = kept late s b p c ev s₁ p₁ e inv in
      let debts = total-append debt b (p ∷ c) in
      let debts₁ = total-append debt b (p₁ ∷ c) in
      let ins = total-append inserts b (p ∷ c) in
      let ins₁ = total-append inserts b (p₁ ∷ c) in
      let same = k.exact (omega (arith, x.all_counted, x.room, debts)) in
      record {
        all_counted = omega (arith, x.all_counted, same, debts, debts₁);
        room = omega (arith, x.room, k.room, k.limit, ins, ins₁);
      }

  -- one thread between others
  pub step-Inv :
      (late : Bool) (s : Shared A) (b : List (Point A)) (p : Point A) (c : List (Point A))
      (ev : List (Event A)) (s₁ : Shared A) (p₁ : Point A)
      → thread_step late s p ≡ goes ev s₁ p₁
      → Inv s (b ++ p ∷ c)
      → Inv s₁ (b ++ p₁ ∷ c)
  step-Inv late s b p c ev s₁ p₁ e inv =
      let (calm_b, (calm_p, calm_c)) = All-split (λ q. is_calm q ≡ true) b (p ∷ c) inv.calm in
      let (rec_b, (rec_p, rec_c)) = All-split (Recalls s.items) b (p ∷ c) inv.recalls in
      let debts = total-append debt b (p ∷ c) in
      let debts₁ = total-append debt b (p₁ ∷ c) in
      let held = total-append holds b (p ∷ c) in
      let held₁ = total-append holds b (p₁ ∷ c) in
      let k = kept late s b p c ev s₁ p₁ e inv in
      let others =
        elim (holds-cases p) as (λ x. All (Recalls s₁.items) b × All (Recalls s₁.items) c) [
          | inl n ↦ (
            subst (λ l. All (Recalls l) b) (sym (k.alone n)) rec_b,
            subst (λ l. All (Recalls l) c) (sym (k.alone n)) rec_c,
          )
          | inr n ↦
              let le = lock_count-le s in
              (
                no_holder-Recalls s₁.items b (omega (arith, inv.mutex, held)),
                no_holder-Recalls s₁.items c (omega (arith, inv.mutex, held)),
              )
        ] in
      record {
        count = omega (arith, inv.count, debts, debts₁, k.count);
        mutex = omega (arith, inv.mutex, held, held₁, k.mutex);
        recalls = All-join (Recalls s₁.items) b (p₁ ∷ c) others.0 (k.recalls, others.1);
        calm = All-join (λ q. is_calm q ≡ true) b (p₁ ∷ c) calm_b (k.calm, calm_c);
      }

  pub Steps-Inv :
      {s s' : Shared A} {ts us : List (Point A)} {es : List (Event A)}
      → Steps s ts es s' us
      → Inv s ts
      → Inv s' us
  Steps-Inv stop inv = inv
  Steps-Inv (step late b c p p₁ s₁ ev e rest) inv =
      Steps-Inv rest (step-Inv late _ b p c ev s₁ p₁ e inv)

  pub Steps-Exact :
      {s s' : Shared A} {ts us : List (Point A)} {es : List (Event A)}
      → Steps s ts es s' us
      → Inv s ts
      → Exact s ts
      → Exact s' us
  Steps-Exact stop inv x = x
  Steps-Exact (step late b c p p₁ s₁ ev e rest) inv x =
      Steps-Exact rest (step-Inv late _ b p c ev s₁ p₁ e inv)
        (step-Exact late _ b p c ev s₁ p₁ e inv x)
