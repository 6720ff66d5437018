-- ===== src/SyncCondition/Threads.antt =====
-- `SynchronizationCondition` of include/sync_condition.h, with threads that step in any order. What is
-- done under `_mtx` is one step; so is the test of `_cv.wait` with the sleep behind it, since the lock is
-- released with it.
use libspl.Common.{
  ℕ, ◌+◌, ◌-◌, ◌%◌, ◌^◌, ◌≡◌, Bool, true, false, List, ◌∷◌, ◌++◌, ltb, leb, if◌then◌else◌, map,
}

pub record Condition : Type 0 where
  pub count : ℕ
  pub wakeup : ℕ

abbrev pub condition : ℕ → ℕ → Condition
condition count wakeup = record { count = count; wakeup = wakeup }

-- where a call stands: `increase(x)`, `decrease(x)` and its notify_all, `wait` with its test or asleep
pub data Point : Type 0 where
  increasing decreasing : ℕ → Point
  notifying testing asleep done rejected : Point

-- a thread that sleeps wakes up, and tests again
abbrev pub woken : Point → Point
woken asleep = testing
woken p = p

-- what a step leaves: the condition, the thread's point, and whether it wakes the others
abbrev pub Next : Type 0
Next = Condition × (Point × Bool)

unfoldable pub step : Condition → Point → Next
step s (increasing x) = (record s { count = (s.count + x) % 2 ^ 64 }, (done, false))
step s (decreasing x) = if ltb s.count x then (s, (rejected, false)) else (
  record s { count = s.count - x },
  (if leb (s.count - x) s.wakeup then notifying else done, false),
)
step s notifying = (s, (done, true))
step s testing = (s, (if leb s.count s.wakeup then done else asleep, false))
step s asleep = (s, (testing, false))
step s done = (s, (done, false))
step s rejected = (s, (rejected, false))

-- `begin()` and `end()`
abbrev pub begin : Point
begin = increasing 1

abbrev pub end : Point
end = decreasing 1

abbrev pub others : Bool → List Point → List Point
others wakes ts = if wakes then map woken ts else ts

-- Threads take steps in any order; one that sleeps may also wake up by itself.
pub data Steps : Condition → List Point → Condition → List Point → Type 0 where
  stop : {s : Condition} {ts : List Point} → Steps s ts s ts
  next :
      {s' : Condition} {us : List Point} (s s₁ : Condition) (b c : List Point) (p p₁ : Point)
      (wakes : Bool)
      → step s p ≡ (s₁, (p₁, wakes))
      → Steps s₁ (others wakes b ++ p₁ ∷ others wakes c) s' us
      → Steps s (b ++ p ∷ c) s' us
