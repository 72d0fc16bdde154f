-- ===== src/Tests/Choices.antt =====
-- Runs of internal/auth/selector.
use cliproxy_new.Base.{
  ◌≡◌, ◌⊎◌, inl, refl, true, Option, none, some, List, [], ◌∷◌, pos, GoString, bytes, list_eq,
  nat_eq, list_beq, filter, Among, ok, err,
}
use cliproxy_new.Auth.Selector.{
  new, Clock, Auth, ModelOverride, Fallback, no_candidates, list_failed, list_overrides,
  match_override, provider_for_model, filter_by_provider, pick,
}
use cliproxy_new.Auth.Selector.Choice.{Allows, PicksCandidates, pick-Allows}
use cliproxy_new.Auth.Selector.Recent.{Call, listing, later, IsRecent, list_overrides-IsRecent}

abbrev first_of : Fallback
first_of provider model [] = err no_candidates
first_of provider model (c ∷ cs) = ok c

first_of-PicksCandidates : PicksCandidates first_of
unfolding PicksCandidates
first_of-PicksCandidates provider model [] a h = cc
first_of-PicksCandidates provider model (c ∷ cs) a h = inl (cc h)

abbrev rows : List ModelOverride
rows =
    record {
      id = pos 1;
      provider = bytes "claude";
      model_alias = bytes "m";
      upstream_model = bytes "m";
      enabled = true;
      config = [];
    }
    ∷ []

abbrev gemini : Auth
gemini = record { id = bytes "g"; provider = bytes "gemini" }

abbrev claude : Auth
claude = record { id = bytes "c"; provider = bytes "claude" }

-- A call that tests at 5 and has its answer at 7, and one that tests at 9.
abbrev at_five : Clock
at_five = record { tested = 5; answered = 7 }

abbrev at_nine : Clock
at_nine = record { tested = 9; answered = 9 }

abbrev offered : List (Option Auth)
offered = none ∷ some gemini ∷ some claude ∷ []

pick-Allows_example :
    Among (some claude) offered
    × ((target : GoString) × ((target ≡ []) ⊎ (claude.provider ≡ target))
        × ((allowed : List ModelOverride) × ((list_overrides (new true) at_five (ok rows)).1
              ≡ ok allowed)
            × Allows allowed (bytes "gemini") (bytes "m") target))
unfolding new pick provider_for_model list_overrides match_override filter_by_provider filter
    list_beq
pick-Allows_example =
    pick-Allows first_of (new true) at_five (ok rows) (bytes "gemini") (bytes "m") offered claude
      first_of-PicksCandidates refl refl

-- The source fails at 9, when the rows of the call at 5 are still fresh.
abbrev calls : List Call
calls = (at_five, ok rows) ∷ []

list_overrides-IsRecent_example : IsRecent (later [] calls) at_nine (err list_failed) rows
unfolding new list_overrides listing
list_overrides-IsRecent_example =
    list_overrides-IsRecent true calls at_nine (err list_failed) rows refl
