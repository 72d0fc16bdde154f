-- ===== src/Tests/Overrides.antt =====
-- Runs of internal/store/admin_models.go and of a loop over the selector's slice.
use cliproxy_new.Base.{
  ◌≡◌, refl, ◌++◌, arith, true, false, none, List, [], ◌∷◌, pos, nat_eq, list_eq, bytes, GoString,
  ok, err,
}
use cliproxy_new.Store.Audited.{Transaction}
use cliproxy_new.Store.Models.{Postgres, UpsertModelOverrideParams, ordered}
use cliproxy_new.Store.Models.Rules.{allowed}
use cliproxy_new.Store.Models.Refinement.{Operation, upserts, run, rules_after, run-resolve}
use cliproxy_new.Auth.Selector.{ModelOverride, resolve, match_override, not_allowed}
use cliproxy_new.Auth.Selector.Shared as Shared
use cliproxy_new.Auth.Selector.Shared.{at_row, ended, refreshes, stores, reads}
use cliproxy_new.Auth.Selector.Shared.Reads.{times, cached, run_misses, run_mixes}

abbrev pg : Postgres
pg = record {
  valid_json = λ s. true;
  jsonb = λ s. s;
  less = λ a b. false;
  encode_details = λ a b. [];
}

abbrev to_claude : UpsertModelOverrideParams
to_claude = record {
  provider = bytes "claude";
  model_alias = bytes "m";
  upstream_model = bytes "u";
  enabled = true;
  config = [];
}

abbrev complete : Transaction
complete = record { transactional = true; begins = true; commits = true }

-- An override is saved, another one is not committed.
abbrev calls : List Operation
calls =
    upserts complete true true (pos 1) (pos 3) to_claude none
    ∷ upserts (record complete { commits = false }) true true (pos 2) (pos 3)
        (record to_claude { model_alias = bytes "n" }) none
    ∷ []

run-resolve_example :
    resolve
      (ordered pg.less (run pg (record { rows = []; audit = [] }) calls).rows)
      (bytes "codex")
      (bytes "m")
    ≡ allowed
        (rules_after pg (record { rows = []; audit = [] }) [] calls)
        (bytes "codex")
        (bytes "m")
run-resolve_example = run-resolve pg calls (bytes "codex") (bytes "m")

abbrev override_of : GoString → ModelOverride
override_of alias = record {
  id = pos 1;
  provider = bytes "claude";
  model_alias = alias;
  upstream_model = bytes "u";
  enabled = true;
  config = [];
}

run_misses_example :
    (match_override
        (override_of (bytes "a") ∷ override_of (bytes "b") ∷ override_of (bytes "c") ∷ [])
        (bytes "b")
      ≡ ok (bytes "claude"))
    × (match_override (override_of (bytes "b") ∷ override_of (bytes "c") ∷ []) (bytes "b")
        ≡ ok (bytes "claude"))
    × (Shared.run
          (bytes "b")
          (cached
            (override_of (bytes "a") ∷ override_of (bytes "b") ∷ override_of (bytes "c") ∷ [])
            3)
          (at_row (record { array = 0; size = 3 }) 0)
          (times 6 reads
            ++ refreshes (override_of (bytes "b") ∷ override_of (bytes "c") ∷ []) []
              ∷ times 12 stores
            ++ times 13 reads)
        ≡ ended (err not_allowed))
run_misses_example =
    run_misses (override_of (bytes "a")) (override_of (bytes "b")) (override_of (bytes "c"))
      (ground arith) (ground arith) refl

abbrev to_codex : ModelOverride
to_codex = record (override_of (bytes "a")) { provider = bytes "codex" }

run_mixes_example :
    (match_override (to_codex ∷ override_of (bytes "b") ∷ []) (bytes "b") ≡ ok (bytes "claude"))
    × (match_override (override_of (bytes "b") ∷ []) (bytes "b") ≡ ok (bytes "claude"))
    × (Shared.run
          (bytes "b")
          (cached (to_codex ∷ override_of (bytes "b") ∷ []) 2)
          (at_row (record { array = 0; size = 2 }) 0)
          (times 2 reads
            ++ refreshes (override_of (bytes "b") ∷ []) [] ∷ times 6 stores
            ++ times 4 reads)
        ≡ ended (ok (bytes "codex")))
run_mixes_example = run_mixes to_codex (override_of (bytes "b")) (ground arith) refl
