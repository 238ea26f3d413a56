-- ===== src/Core/CircuitBreaker/Invariant.antt =====
-- When the breaker opens, rejects, and closes again.
use okf_mcp_rs.Prelude.{
  take, zero, suc, ℕ, ◌+◌, ◌-◌, ◌^◌, ◌<◌, ◌≡◌, refl, Bool, true, false, Option, none, some, List,
  [], ◌∷◌, ◌++◌, ◌∙◌, ap, sym, map, arith, ◌≤◌, All,
}
use okf_mcp_rs.Core.CircuitBreaker.{
  closed, opened, Inner, Settings, new, enter, on_success, on_failure, Event, begin, success,
  failure, step, run,
}

abbrev pub IsSensible : Settings → Type 0
IsSensible c = (0 < c.failure_threshold) × (c.failure_threshold < 2 ^ 32)

abbrev pub is_some : Option ℕ → Bool
is_some none = false
is_some (some n) = true

-- A closed breaker has seen fewer failures than the threshold; an open one knows since when.
pub record IsValid (c : Settings) (s : Inner) : Type 0 where
  pub below : s.state ≡ closed → s.failure_count < c.failure_threshold
  pub since : s.state ≡ opened → is_some s.opened_at ≡ true

step-IsValid :
    (c : Settings) (s : Inner) (e : Event) → IsSensible c → IsValid c s → IsValid c (step c s e)
unfolding step enter on_success on_failure
step-IsValid c s (begin now) h v = record {
  below = ground (arith, v.below);
  since = ground (arith, v.since);
}
step-IsValid c s (success now) h v = record { below = λ _. h.0; since = λ q. cc }
step-IsValid c s (failure now) h v = record {
  below = ground (arith, v.below);
  since = ground (arith, v.since);
}

-- From a new breaker with a threshold of 1 to 2 ^ 32 - 1, whatever calls begin and end in whatever
-- order, a closed breaker has counted fewer failures than the threshold, and an open one has the
-- time at which it opened.
pub run-IsValid : (c : Settings) (es : List Event) → IsSensible c → IsValid c (run c new es)
unfolding run
run-IsValid c es h = from new es (record { below = λ _. h.0; since = λ q. cc })
  where
    from : (s : Inner) (es : List Event) → IsValid c s → IsValid c (run c s es)
    from s [] v = v
    from s (e ∷ es) v = from (step c s e) es (step-IsValid c s e h v)

-- The failures among the events.
abbrev pub failures : List Event → ℕ
failures [] = 0
failures (begin now ∷ es) = failures es
failures (success now ∷ es) = failures es
failures (failure now ∷ es) = failures es + 1

abbrev pub IsNoSuccess : Event → Type 0
IsNoSuccess (begin now) = Unit
IsNoSuccess (success now) = ⊥
IsNoSuccess (failure now) = Unit

-- Closed, with so many failures counted.
abbrev pub HasCounted : ℕ → Inner → Type 0
HasCounted n s = (s.state ≡ closed) × (s.failure_count ≡ n)

begin-HasCounted :
    (c : Settings) (now n : ℕ) (s : Inner) → HasCounted n s → HasCounted n (step c s (begin now))
unfolding step enter
begin-HasCounted c now n s (q, k) = (ground arith, ground arith)

failure-HasCounted :
    (c : Settings) (now n : ℕ) (s : Inner)
    → IsSensible c
    → n + 1 < c.failure_threshold
    → HasCounted n s
    → HasCounted (n + 1) (step c s (failure now))
unfolding step on_failure
failure-HasCounted c now n s h lt (q, k) = (ground arith, ground arith)

run-HasCounted :
    (c : Settings) (n : ℕ) (s : Inner) (es : List Event)
    → IsSensible c
    → HasCounted n s
    → All IsNoSuccess es
    → n + failures es < c.failure_threshold
    → HasCounted (n + failures es) (run c s es)
unfolding run
run-HasCounted c n s [] h v a lt = (v.0, omega (arith, v.1))
run-HasCounted c n s (begin now ∷ es) h v a lt =
    run-HasCounted c n (step c s (begin now)) es h (begin-HasCounted c now n s v) a.1 lt
run-HasCounted c n s (success now ∷ es) h v a lt = absurd a.0
run-HasCounted c n s (failure now ∷ es) h v a lt =
    let r =
      run-HasCounted c (n + 1) (step c s (failure now)) es h
        (failure-HasCounted c now n s h (omega arith) v) a.1 (omega arith) in
    (r.0, omega (arith, r.1))

last_failure :
    (c : Settings) (now : ℕ) (s : Inner)
    → IsSensible c
    → s.state ≡ closed
    → s.failure_count + 1 ≡ c.failure_threshold
    → step c s (failure now)
      ≡ record { state = opened; failure_count = c.failure_threshold; opened_at = some now }
unfolding step on_failure
last_failure c now s h q n = ground arith

run-append :
    (c : Settings) (s : Inner) (es : List Event) (e : Event)
    → run c s (es ++ e ∷ []) ≡ step c (run c s es) e
unfolding run
run-append c s [] e = refl
run-append c s (d ∷ es) e = run-append c (step c s d) es e

admits_closed : (c : Settings) (s : Inner) (now : ℕ) → s.state ≡ closed → enter c now s ≡ (s, true)
unfolding enter
admits_closed c s now q = ground arith

take-failures : (k : ℕ) (es : List Event) → failures (take k es) ≤ failures es
take-failures zero es = omega arith
take-failures (suc k) [] = omega arith
take-failures (suc k) (begin now ∷ es) = take-failures k es
take-failures (suc k) (success now ∷ es) = take-failures k es
take-failures (suc k) (failure now ∷ es) = omega (arith, take-failures k es)

take-All : (k : ℕ) (es : List Event) → All IsNoSuccess es → All IsNoSuccess (take k es)
take-All zero es a = tt
take-All (suc k) [] a = tt
take-All (suc k) (e ∷ es) a = (a.0, take-All k es a.1)

-- Calls of a new breaker begin and fail, in whatever order, and none succeeds; the failures before
-- the last are one fewer than the threshold. Up to then the breaker is closed and lets every call
-- through unchanged; with the failure that reaches the threshold it opens, at that moment.
pub opens_at_threshold :
    (c : Settings) (es : List Event) (now : ℕ)
    → IsSensible c
    → All IsNoSuccess es
    → failures es + 1 ≡ c.failure_threshold
    → ((k at : ℕ)
        → (let s = run c new (take k es) in (s.state ≡ closed) × (enter c at s ≡ (s, true))))
      × (run c new (es ++ failure now ∷ [])
          ≡ record { state = opened; failure_count = c.failure_threshold; opened_at = some now })
opens_at_threshold c es now h a n =
    let r = run-HasCounted c 0 new es h (refl, refl) a (omega arith) in
    (
      λ k at.
          let q =
            run-HasCounted c 0 new (take k es) h (refl, refl) (take-All k es a)
              (omega (arith, take-failures k es)) in
          (q.0, admits_closed c (run c new (take k es)) at q.0),
      run-append c new es (failure now)
          ∙ last_failure c now (run c new es) h r.0 (omega (arith, r.1)),
    )

rejected_begin :
    (c : Settings) (s : Inner) (at t : ℕ)
    → s.state ≡ opened
    → s.opened_at ≡ some at
    → t - at < c.reset_timeout
    → enter c t s ≡ (s, false)
unfolding enter
rejected_begin c s at t q p h = ground arith

rejected-All :
    (c : Settings) (s : Inner) (at now : ℕ) (times : List ℕ)
    → s.state ≡ opened
    → s.opened_at ≡ some at
    → now - at < c.reset_timeout
    → All (λ t. t ≤ now) times
    → run c s (map begin times) ≡ s
unfolding run step
rejected-All c s at now [] q p h a = refl
rejected-All c s at now (t ∷ times) q p h a =
    let same = ap (λ r. r.0) (rejected_begin c s at t q p (omega (arith, a.0))) in
    ap (λ u. run c u (map begin times)) same ∙ rejected-All c s at now times q p h a.1

-- While a breaker is open and the timeout has not passed since it opened, any number of calls
-- leave it as it is, and every call is rejected.
pub rejects_until_timeout :
    (c : Settings) (s : Inner) (at now : ℕ) (times : List ℕ)
    → s.state ≡ opened
    → s.opened_at ≡ some at
    → now - at < c.reset_timeout
    → All (λ t. t ≤ now) times
    → (run c s (map begin times) ≡ s)
      × (enter c now (run c s (map begin times)) ≡ (run c s (map begin times), false))
rejects_until_timeout c s at now times q p h a =
    let same = rejected-All c s at now times q p h a in
    (
      same,
      ap (enter c now) same ∙ rejected_begin c s at now q p h ∙ ap (λ u. (u, false)) (sym same),
    )

-- When the timeout has passed since a breaker opened, the next call is let through; if it succeeds
-- the breaker closes with no failures counted, and if it fails the breaker opens anew at that time.
pub trial_call :
    (c : Settings) (s : Inner) (at now later : ℕ)
    → s.state ≡ opened
    → s.opened_at ≡ some at
    → c.reset_timeout ≤ now - at
    → ((enter c now s).1 ≡ true)
      × (run c s (begin now ∷ success later ∷ [])
          ≡ record { state = closed; failure_count = 0; opened_at = some at })
      × ((run c s (begin now ∷ failure later ∷ [])).state ≡ opened)
      × ((run c s (begin now ∷ failure later ∷ [])).opened_at ≡ some later)
unfolding run step enter on_success on_failure
trial_call c s at now later q p h = (ground arith, ground arith, ground arith, ground arith)
