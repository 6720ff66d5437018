-- ===== src/SyncCondition/Wakeup.antt =====
-- No thread sleeps on when the count is low enough.
use libspl.Common.{
  ℕ, ◌+◌, ◌-◌, ◌%◌, ◌^◌, ◌≤◌, ◌<◌, ◌≡◌, ◌⊎◌, inl, inr, refl, subst, Bool, true, false, List, [],
  ◌∷◌, ◌++◌, ltb, leb, map, arith, total, total-append, Bool-cases,
}
use libspl.SyncCondition.Threads.{
  Condition, Point, increasing, decreasing, notifying, testing, asleep, done, rejected, woken, step,
  others, Steps, stop, next,
}

-- what a call will add
abbrev pub added : Point → ℕ
added (increasing x) = x
added p = 0

abbrev pub sleeps : Point → ℕ
sleeps asleep = 1
sleeps p = 0

abbrev pub notifies : Point → ℕ
notifies notifying = 1
notifies p = 0

-- the count stays below 2^64, and a thread sleeps only while the count is above the threshold, or while
-- another one is about to wake it
pub record Awake (s : Condition) (ts : List Point) : Type 0 where
  pub bounded : s.count + total added ts < 2 ^ 64
  pub awake : 1 ≤ total sleeps ts → s.count ≤ s.wakeup → 1 ≤ total notifies ts

-- the sums over the other threads, before and after a step
record SameSums (ts us : List Point) : Type 0 where
  adds : total added us ≡ total added ts
  sleep : total sleeps us ≤ total sleeps ts
  notify : total notifies us ≡ total notifies ts

zero_or_more : (n : ℕ) → (n ≡ 0) ⊎ (1 ≤ n)
zero_or_more n = elim (Bool-cases (leb 1 n)) [
  | inl e ↦ inr (ground (arith, e))
  | inr e ↦ inl (ground (arith, e))
]

woken-point :
    (p : Point)
    → (added (woken p) ≡ added p) × (sleeps (woken p) ≡ 0) × (notifies (woken p) ≡ notifies p)
woken-point (increasing x) = (refl, refl, refl)
woken-point (decreasing x) = (refl, refl, refl)
woken-point notifying = (refl, refl, refl)
woken-point testing = (refl, refl, refl)
woken-point asleep = (refl, refl, refl)
woken-point done = (refl, refl, refl)
woken-point rejected = (refl, refl, refl)

woken-SameSums : (ts : List Point) → SameSums ts (map woken ts) × (total sleeps (map woken ts) ≡ 0)
woken-SameSums [] = (record { adds = refl; sleep = omega arith; notify = refl }, refl)
woken-SameSums (p ∷ ts) =
    let (a, z, n) = woken-point p in
    let (r, e) = woken-SameSums ts in
    (
      record {
        adds = omega (arith, a, r.adds);
        sleep = omega (arith, z, e);
        notify = omega (arith, n, r.notify);
      },
      omega (arith, z, e),
    )

others-SameSums :
    (wakes : Bool) (ts : List Point)
    → SameSums ts (others wakes ts) × (wakes ≡ true → total sleeps (others wakes ts) ≡ 0)
others-SameSums true ts = let (r, e) = woken-SameSums ts in (r, λ _. e)
others-SameSums false ts =
    (record { adds = refl; sleep = omega arith; notify = refl }, λ e. absurd cc)

-- what one step does beside threads that will add `a`, of which `z` sleep and `n` will notify
record Stepped (s s₁ : Condition) (p p₁ : Point) (wakes : Bool) (a z n : ℕ) : Type 0 where
  adds : s₁.count + added p₁ + a < 2 ^ 64
  awake :
      (z' : ℕ)
      → z' ≤ z
      → (wakes ≡ true → z' ≡ 0)
      → 1 ≤ sleeps p₁ + z'
      → s₁.count ≤ s₁.wakeup
      → 1 ≤ notifies p₁ + n

step-Stepped :
    (s : Condition) (p : Point) (a z n : ℕ)
    → s.count + added p + a < 2 ^ 64
    → (1 ≤ sleeps p + z → s.count ≤ s.wakeup → 1 ≤ notifies p + n)
    → Stepped s (step s p).0 p (step s p).1.0 (step s p).1.1 a z n
unfolding step
step-Stepped s (increasing x) a z n lt up =
    let small : (s.count + x) % 2 ^ 64 ≡ s.count + x = ground (arith, lt) in
    record {
      adds = omega (arith, small, lt);
      awake = λ z' le w h k. up (omega (arith, le, h)) (omega (arith, small, k));
    }
step-Stepped s (decreasing x) a z n lt up = elim (Bool-cases (ltb s.count x)) [
  | inl few ↦ rw few record { adds = lt; awake = λ z' le w h k. up (omega (arith, le, h)) k }
  | inr enough ↦ rw enough (elim (Bool-cases (leb (s.count - x) s.wakeup)) [
    | inl low ↦ rw low record { adds = omega (arith, lt); awake = λ z' le w h k. omega arith }
    | inr high ↦
        rw high record {
          adds = omega (arith, lt);
          awake = λ z' le w h k. absurd (ground (arith, high, k));
        }
  ])
]
step-Stepped s notifying a z n lt up = record {
  adds = lt;
  awake = λ z' le w h k. absurd (let e = w refl in omega (arith, e, h));
}
step-Stepped s testing a z n lt up = elim (Bool-cases (leb s.count s.wakeup)) [
  | inl low ↦ rw low record { adds = lt; awake = λ z' le w h k. up (omega (arith, le, h)) k }
  | inr high ↦ rw high record { adds = lt; awake = λ z' le w h k. absurd (ground (arith, high, k)) }
]
step-Stepped s asleep a z n lt up = record {
  adds = lt;
  awake = λ z' le w h k. up (omega (arith, le, h)) k;
}
step-Stepped s done a z n lt up = record {
  adds = lt;
  awake = λ z' le w h k. up (omega (arith, le, h)) k;
}
step-Stepped s rejected a z n lt up = record {
  adds = lt;
  awake = λ z' le w h k. up (omega (arith, le, h)) k;
}

next-Awake :
    (s s₁ : Condition) (b c : List Point) (p p₁ : Point) (wakes : Bool)
    → step s p ≡ (s₁, (p₁, wakes))
    → Awake s (b ++ p ∷ c)
    → Awake s₁ (others wakes b ++ p₁ ∷ others wakes c)
next-Awake s s₁ b c p p₁ wakes e w =
    let (l, ll) = others-SameSums wakes b in
    let (r, rr) = others-SameSums wakes c in
    let a_old = total-append added b (p ∷ c) in
    let z_old = total-append sleeps b (p ∷ c) in
    let n_old = total-append notifies b (p ∷ c) in
    let a_new = total-append added (others wakes b) (p₁ ∷ others wakes c) in
    let z_new = total-append sleeps (others wakes b) (p₁ ∷ others wakes c) in
    let n_new = total-append notifies (others wakes b) (p₁ ∷ others wakes c) in
    let done_ : Stepped s s₁ p p₁ wakes (total added b + total added c)
        (total sleeps b + total sleeps c) (total notifies b + total notifies c) =
      subst
        (λ r.
          Stepped s r.0 p r.1.0 r.1.1 (total added b + total added c)
            (total sleeps b + total sleeps c) (total notifies b + total notifies c))
        e
        (step-Stepped s p _ _ _ (omega (arith, w.bounded, a_old))
          (λ h k. let up = w.awake (omega (arith, h, z_old)) k in omega (arith, up, n_old))) in
    record {
      bounded = omega (arith, done_.adds, a_new, l.adds, r.adds);
      awake = λ h k.
          let up =
            done_.awake (total sleeps (others wakes b) + total sleeps (others wakes c))
              (omega (arith, l.sleep, r.sleep)) (λ q. omega (arith, ll q, rr q))
              (omega (arith, h, z_new)) k in
          omega (arith, up, n_new, l.notify, r.notify);
    }

Steps-Awake : {s s' : Condition} {ts us : List Point} → Steps s ts s' us → Awake s ts → Awake s' us
Steps-Awake stop w = w
Steps-Awake (next s s₁ b c p p₁ wakes e rest) w =
    Steps-Awake rest (next-Awake s s₁ b c p p₁ wakes e w)

-- Threads that start with none asleep, and whose calls of increase cannot bring the count to 2^64, may
-- step in any order: where no thread is about to notify and the count is not above the threshold, no
-- thread sleeps.
pub Steps-awake :
    (s s' : Condition) (ts us : List Point)
    → s.count + total added ts < 2 ^ 64
    → total sleeps ts ≡ 0
    → Steps s ts s' us
    → total notifies us ≡ 0
    → s'.count ≤ s'.wakeup
    → total sleeps us ≡ 0
Steps-awake s s' ts us lt none_ steps quiet low =
    let w =
      Steps-Awake steps
        (record { bounded = lt; awake = λ h k. absurd (omega (arith, none_, h)) }) in
    elim (zero_or_more (total sleeps us)) [
      | inl z ↦ z
      | inr h ↦ absurd (let up = w.awake h low in omega (arith, up, quiet))
    ]
