-- ===== src/Deque/Steps.antt =====
-- One step of one thread: what it claims, holds and remembers of the list.
use libspl.Common.{
  ℕ, ◌+◌, ◌≡◌, ◌≤◌, refl, Bool, true, false, List, [], ◌∷◌, timeout, length, length-append, ◌==◌,
  ltb, if◌then◌else◌, Bool-cases, ◌⊎◌, inl, inr, arith,
}
use libspl.Deque.Threads.{
  Shared, Place, front, back, Point, Outcome, blocks, undefined, goes, placed, lock, unlock, post,
  wait, read_front, thread_step, insert_lock, insert_read, insert_write, insert_unlock,
  insert_notify, take_wait, take_timed_wait, take_try_wait, take_lock, take_read, take_write,
  take_unlock, clear_lock, clear_write, clear_unlock, done, returned, threw,
}

module _ {A : Type 0} where
  -- 1 for a call that has claimed a value and not yet taken it, or has inserted one and not yet
  -- counted it
  abbrev pub debt : Point A → ℕ
  debt insert_unlock = 1
  debt insert_notify = 1
  debt take_lock = 1
  debt take_read = 1
  debt (take_write a xs) = 1
  debt p = 0

  -- 1 for a call that has yet to insert its value
  abbrev pub inserts : Point A → ℕ
  inserts (insert_lock place a) = 1
  inserts (insert_read place a) = 1
  inserts (insert_write place a xs) = 1
  inserts p = 0

  -- 1 for a call that holds the mutex
  abbrev pub holds : Point A → ℕ
  holds (insert_read place a) = 1
  holds (insert_write place a xs) = 1
  holds insert_unlock = 1
  holds take_read = 1
  holds (take_write a xs) = 1
  holds (take_unlock a) = 1
  holds clear_write = 1
  holds clear_unlock = 1
  holds p = 0

  -- what a call remembers of the list is what the list is
  abbrev pub Recalls : List A → Point A → Type 0
  Recalls items (insert_write place a xs) = xs ≡ items
  Recalls items (take_write a xs) = items ≡ a ∷ xs
  Recalls items p = Unit

  abbrev pub is_calm : Point A → Bool
  is_calm clear_lock = false
  is_calm clear_write = false
  is_calm clear_unlock = false
  is_calm p = true

  abbrev pub lock_count : Shared A → ℕ
  lock_count s = if s.locked then 1 else 0

  List-cases : (xs : List A) → (xs ≡ []) ⊎ ((a : A) × (ys : List A) × (xs ≡ a ∷ ys))
  List-cases [] = inl refl
  List-cases (a ∷ ys) = inr (a, ys, refl)

  -- one step of one thread
  pub record Kept (s : Shared A) (p : Point A) (s₁ : Shared A) (p₁ : Point A) : Type 0 where
    pub count : s₁.sem + debt p₁ + length s.items ≤ s.sem + debt p + length s₁.items
    pub exact :
        s.sem + debt p ≤ s.sem_max
        → length s₁.items + s.sem + debt p ≡ length s.items + s₁.sem + debt p₁
    pub limit : s₁.sem_max ≡ s.sem_max
    pub room : length s₁.items + inserts p₁ ≤ length s.items + inserts p
    pub mutex : holds p₁ + lock_count s ≡ holds p + lock_count s₁
    pub alone : holds p ≡ 0 → s₁.items ≡ s.items
    pub recalls : Recalls s₁.items p₁
    pub calm : is_calm p₁ ≡ true

  abbrev pub KeptBy : Shared A → Point A → Outcome A → Type 0
  KeptBy s p blocks = Unit
  KeptBy s p undefined = Unit
  KeptBy s p (goes ev s₁ p₁) = Kept s p s₁ p₁

  lock-Kept :
      (s : Shared A) (p p₁ : Point A)
      → holds p ≡ 0
      → holds p₁ ≡ 1
      → debt p₁ ≡ debt p
      → inserts p₁ ≡ inserts p
      → Recalls s.items p₁
      → is_calm p₁ ≡ true
      → KeptBy s p (lock s p₁)
  unfolding lock
  lock-Kept s p p₁ free held same ins rec calm = elim (Bool-cases s.locked) [
    | inl e ↦ rw e tt
    | inr e ↦ rw e (record {
      count = omega (arith, same);
      exact = λ _. omega (arith, same);
      limit = refl;
      room = omega (arith, ins);
      mutex = omega (arith, free, held);
      alone = λ n. refl;
      recalls = rec;
      calm = calm;
    })
  ]

  wait-Kept :
      (s : Shared A) (p : Point A) (o : Outcome A)
      → debt p ≡ 0
      → inserts p ≡ 0
      → holds p ≡ 0
      → KeptBy s p o
      → KeptBy s p (wait s o take_lock)
  unfolding wait
  wait-Kept s p o paid ins free kept = elim (Bool-cases (s.sem == 0)) [
    | inl e ↦ rw e kept
    | inr e ↦ rw e (record {
      count = ground (arith, paid);
      exact = λ _. ground (arith, paid);
      limit = refl;
      room = omega (arith, ins);
      mutex = omega (arith, free);
      alone = λ n. refl;
      recalls = tt;
      calm = refl;
    })
  ]

  unlock-Kept :
      (s : Shared A) (p p₁ : Point A)
      → holds p ≡ 1
      → holds p ≤ lock_count s
      → holds p₁ ≡ 0
      → debt p₁ ≡ debt p
      → inserts p₁ ≡ inserts p
      → Recalls s.items p₁
      → is_calm p₁ ≡ true
      → KeptBy s p (unlock s p₁)
  unfolding unlock
  unlock-Kept s p p₁ held h free same ins rec calm = record {
    count = omega (arith, same);
    exact = λ _. omega (arith, same);
    limit = refl;
    room = omega (arith, ins);
    mutex = ground (arith, held, free);
    alone = λ n. refl;
    recalls = rec;
    calm = calm;
  }

  post-Kept : (s : Shared A) → KeptBy s insert_notify (post s done)
  unfolding post
  post-Kept s = elim (Bool-cases (ltb s.sem s.sem_max)) [
    | inl e ↦ rw e (record {
      count = omega arith;
      exact = λ _. omega arith;
      limit = refl;
      room = omega arith;
      mutex = refl;
      alone = λ n. refl;
      recalls = tt;
      calm = refl;
    })
    | inr e ↦ rw e (record {
      count = omega arith;
      exact = λ le. absurd (ground (arith, e, le));
      limit = refl;
      room = omega arith;
      mutex = refl;
      alone = λ n. refl;
      recalls = tt;
      calm = refl;
    })
  ]

  read_front-Kept : (s : Shared A) → KeptBy s take_read (read_front s)
  unfolding read_front
  read_front-Kept s = elim (List-cases s.items) [
    | inl e ↦ rw e tt
    | inr (a, xs, e) ↦ rw e (record {
      count = omega arith;
      exact = λ _. refl;
      limit = refl;
      room = omega arith;
      mutex = refl;
      alone = λ n. refl;
      recalls = refl;
      calm = refl;
    })
  ]

  length-placed : (place : Place) (a : A) (xs : List A) → length (placed place a xs) ≡ length xs + 1
  length-placed front a xs = omega arith
  length-placed back a xs = length-append xs (a ∷ [])

  pub step-Kept :
      (late : Bool) (s : Shared A) (p : Point A)
      → is_calm p ≡ true
      → Recalls s.items p
      → holds p ≤ lock_count s
      → KeptBy s p (thread_step late s p)
  unfolding thread_step
  step-Kept late s (insert_lock place a) calm rec h = lock-Kept s _ _ refl refl refl refl tt refl
  step-Kept late s (insert_read place a) calm rec h = record {
    count = omega arith;
    exact = λ _. refl;
    limit = refl;
    room = omega arith;
    mutex = refl;
    alone = λ n. refl;
    recalls = refl;
    calm = refl;
  }
  step-Kept late s (insert_write place a xs) calm rec h = record {
    count = rw rec (omega (arith, length-placed place a s.items));
    exact = λ _. rw rec (omega (arith, length-placed place a s.items));
    limit = refl;
    room = rw rec (omega (arith, length-placed place a s.items));
    mutex = refl;
    alone = λ n. absurd (omega arith);
    recalls = tt;
    calm = refl;
  }
  step-Kept late s insert_unlock calm rec h = unlock-Kept s _ _ refl h refl refl refl tt refl
  step-Kept late s insert_notify calm rec h = post-Kept s
  step-Kept late s take_wait calm rec h = wait-Kept s take_wait blocks refl refl refl tt
  step-Kept true s take_timed_wait calm rec h =
      wait-Kept s take_timed_wait (goes [] s (threw timeout)) refl refl refl (record {
        count = omega arith;
        exact = λ _. refl;
        limit = refl;
        room = omega arith;
        mutex = refl;
        alone = λ n. refl;
        recalls = tt;
        calm = refl;
      })
  step-Kept false s take_timed_wait calm rec h =
      wait-Kept s take_timed_wait blocks refl refl refl tt
  step-Kept late s (take_try_wait a) calm rec h = wait-Kept s _ _ refl refl refl (record {
    count = omega arith;
    exact = λ _. refl;
    limit = refl;
    room = omega arith;
    mutex = refl;
    alone = λ n. refl;
    recalls = tt;
    calm = refl;
  })
  step-Kept late s take_lock calm rec h = lock-Kept s _ _ refl refl refl refl tt refl
  step-Kept late s take_read calm rec h = read_front-Kept s
  step-Kept late s (take_write a xs) calm rec h = record {
    count = rw rec (omega arith);
    exact = λ _. rw rec (omega arith);
    limit = refl;
    room = rw rec (omega arith);
    mutex = refl;
    alone = λ n. absurd (omega arith);
    recalls = tt;
    calm = refl;
  }
  step-Kept late s (take_unlock a) calm rec h = unlock-Kept s _ _ refl h refl refl refl tt refl
  step-Kept late s done calm rec h = tt
  step-Kept late s (returned a) calm rec h = tt
  step-Kept late s (threw x) calm rec h = tt
  step-Kept late s clear_lock calm rec h = absurd cc
  step-Kept late s clear_write calm rec h = absurd cc
  step-Kept late s clear_unlock calm rec h = absurd cc
