-- ===== src/Core/RateLimiter/Window.antt =====
-- The calls that are let through within a window.
use okf_mcp_rs.Prelude.{
  ℕ, ◌≤◌, ◌<◌, ◌≡◌, refl, ap, Bool, List, [], ◌∷◌, ◌++◌, append-nil, length, length-append, filter,
  filter-append, leb, leb_false→lt, arith, if◌then◌else◌, ok, err, All, All-append, Bool-cases, inl,
  inr,
}
use okf_mcp_rs.Core.RateLimiter.{
  RateLimiter, rate_limit_exceeded, new, is_recent, acquire, accepted, run,
}

-- The clock does not go back.
abbrev pub IsMonotonic : ℕ → List ℕ → Type 0
IsMonotonic last [] = Unit
IsMonotonic last (now ∷ times) = (last ≤ now) × IsMonotonic now times

abbrev pub last_of : ℕ → List ℕ → ℕ
last_of last [] = last
last_of last (now ∷ times) = last_of now times

-- The limiter's list is the part of the log that was recent at the last call, and is no longer than
-- the limit.
pub record Agrees (limit window last : ℕ) (r : RateLimiter) (log : List ℕ) : Type 0 where
  limit_kept : r.limit ≡ limit
  window_kept : r.window ≡ window
  recent : r.timestamps ≡ filter (is_recent window last) log
  bounded : length r.timestamps ≤ limit
  past : All (λ t. t ≤ last) log

filter-filter :
    (w last now : ℕ) (log : List ℕ)
    → last ≤ now
    → All (λ t. t ≤ last) log
    → filter (is_recent w now) (filter (is_recent w last) log) ≡ filter (is_recent w now) log
filter-filter w last now [] h p = refl
filter-filter w last now (t ∷ log) h p = ground (arith, filter-filter w last now log h p.1)

All-le : (a b : ℕ) (log : List ℕ) → a ≤ b → All (λ t. t ≤ a) log → All (λ t. t ≤ b) log
All-le a b [] h p = tt
All-le a b (t ∷ log) h p = (omega arith, All-le a b log h p.1)

length-filter : (p : ℕ → Bool) (l : List ℕ) → length (filter p l) ≤ length l
length-filter p [] = omega arith
length-filter p (t ∷ l) = ground (arith, length-filter p l)

module _ (limit window last now : ℕ) (r : RateLimiter) (log : List ℕ)
    (h : Agrees limit window last r log) (le : last ≤ now) where
  kept : filter (is_recent r.window now) r.timestamps ≡ filter (is_recent window now) log
  kept = rw (h.window_kept, h.recent) (filter-filter window last now log le h.past)

  result-acquire : (acquire now r).1 ≡ (
      if leb limit (length (filter (is_recent window now) log))
      then err rate_limit_exceeded
      else ok tt)
  unfolding acquire
  result-acquire = rw (kept, h.limit_kept) (ground arith)

  acquire-Agrees :
      0 < window → Agrees limit window now (acquire now r).0 (log ++ accepted (acquire now r).1 now)
  unfolding acquire
  acquire-Agrees pos =
      let short : length (filter (is_recent window now) log) ≤ limit =
        omega
          (arith, h.bounded, ap length kept, length-filter (is_recent r.window now) r.timestamps) in
      elim (Bool-cases (leb r.limit (length (filter (is_recent r.window now) r.timestamps)))) [
        | inl full ↦
            rw (full, append-nil)
              (record {
                limit_kept = h.limit_kept;
                window_kept = h.window_kept;
                recent = kept;
                bounded = rw kept short;
                past = All-le last now log le h.past;
              })
        | inr free ↦ rw free (record {
          limit_kept = h.limit_kept;
          window_kept = h.window_kept;
          recent =
              rw (filter-append, kept)
                (ap (λ l. filter (is_recent window now) log ++ l) (ground arith));
          bounded = omega (
            arith,
            length-append (filter (is_recent r.window now) r.timestamps) (now ∷ []),
            leb_false→lt r.limit _ free,
            h.limit_kept,
          );
          past = All-append _ log (now ∷ []) (All-le last now log le h.past) (omega arith);
        })
      ]

run-Agrees :
    (limit window last : ℕ) (r : RateLimiter) (log times : List ℕ)
    → 0 < window
    → IsMonotonic last times
    → Agrees limit window last r log
    → Agrees limit window (last_of last times) (run r log times).0 (run r log times).1
unfolding run
run-Agrees limit window last r log [] pos m h = h
run-Agrees limit window last r log (now ∷ times) pos m h =
    run-Agrees limit window now (acquire now r).0 _ times pos m.1
      (acquire-Agrees limit window last now r log h m.0 pos)

new-Agrees : (limit window : ℕ) → Agrees limit window 0 (new limit window) []
unfolding new
new-Agrees limit window = record {
  limit_kept = refl;
  window_kept = refl;
  recent = refl;
  bounded = omega arith;
  past = tt;
}

-- The calls that a new limiter has let through at the given times.
abbrev pub log_of : ℕ → ℕ → List ℕ → List ℕ
log_of limit window times = (run (new limit window) [] times).1

-- For a window that is not empty and calls at times that never go back: at any time from the last
-- call on, at most `limit` of the calls let through lie within the window that ends there, and a
-- call made then is refused exactly if that many do.
pub acquire_exact :
    (limit window : ℕ) (times : List ℕ) (now : ℕ)
    → 0 < window
    → IsMonotonic 0 times
    → last_of 0 times ≤ now
    → (length (filter (is_recent window now) (log_of limit window times)) ≤ limit)
      × ((acquire now (run (new limit window) [] times).0).1 ≡ (
          if leb limit (length (filter (is_recent window now) (log_of limit window times)))
          then err rate_limit_exceeded
          else ok tt))
acquire_exact limit window times now pos m le =
    let h = run-Agrees limit window 0 (new limit window) [] times pos m (new-Agrees limit window) in
    let last = last_of 0 times in
    let r = (run (new limit window) [] times).0 in
    (
      omega (
        arith,
        h.bounded,
        ap length (kept limit window last now r _ h le),
        length-filter (is_recent r.window now) r.timestamps,
      ),
      result-acquire limit window last now r _ h le,
    )
