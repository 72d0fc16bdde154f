-- ===== src/Tests/Caches.antt =====
-- Runs of internal/cache/ttl.go.
use cliproxy_new.Base.{ℕ, ◌%◌, ◌^◌, ◌≡◌, refl, none, List, [], ◌∷◌, pos, nat_eq, arith}
use cliproxy_new.Cache.{new_ttl, stats}
use cliproxy_new.Cache.History.{Call, gets, sets, deletes, run, ideal_run, run-ideal_run}
use cliproxy_new.Cache.Counters.{final, total, hit, miss, stats-final}

-- A value is written at 1 with a TTL of 5, read at 3 and, in vain, at 6.
abbrev calls : List (ℕ × Call ℕ ℕ)
calls = (1, sets 7 40) ∷ (3, gets 7) ∷ (6, gets 7) ∷ (6, deletes 7) ∷ []

run-ideal_run_example : run (new_ttl (pos 5)) calls ≡ ideal_run (pos 5) (λ _ _. none) calls
run-ideal_run_example =
    run-ideal_run (pos 5) 0 calls (omega arith, (omega arith, (omega arith, (omega arith, tt))))

stats-final_example : stats (final (new_ttl (pos 5)) calls) ≡ record {
  hits = total hit calls (run (new_ttl (pos 5)) calls) % 2 ^ 64;
  misses = total miss calls (run (new_ttl (pos 5)) calls) % 2 ^ 64;
}
stats-final_example = stats-final (pos 5) calls refl
