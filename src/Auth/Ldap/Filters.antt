-- ===== src/Auth/Ldap/Filters.antt =====
-- The search filter of internal/auth/ldap/provider.go: the configured text and its mark.
use cliproxy_new.Base.{
  ℕ, zero, suc, ◌≡◌, refl, ap, subst, ◌∙◌, Bool, true, false, ◌&&◌, ◌||◌, not, Option, none, some,
  [], ◌∷◌, ◌++◌, is_empty, length, list_eq, nat_eq, if◌then◌else◌, ◌==◌, ==_iff, GoString,
  trim_space, cut_prefix, ok, err, ok_injective, arith,
}
use cliproxy_new.Auth.Ldap.{
  Config, Library, cut_at, cut_or, cons_before, count, count_from, replaced, replace_first,
  username_mark, is_ldaps, validate_config, new_provider, filter_for, invalid_configuration,
}

cut_prefix-ok : (s p rest : GoString) → cut_prefix s p ≡ some rest → s ≡ p ++ rest
unfolding cut_prefix
cut_prefix-ok [] [] rest h = cc
cut_prefix-ok (c ∷ s) [] rest h = cc
cut_prefix-ok [] (p ∷ ps) rest h = cc
cut_prefix-ok (c ∷ s) (p ∷ ps) rest h = ground (arith, cut_prefix-ok s ps rest)

joined : GoString → Option (GoString × GoString) → GoString
joined sub none = []
joined sub (some (before, behind)) = before ++ (sub ++ behind)

cut_or-ok :
    (c : ℕ) (s sub before behind : GoString) (at_once : Option GoString)
    (later : Option (GoString × GoString))
    → cut_prefix (c ∷ s) sub ≡ at_once
    → ((b a : GoString) → later ≡ some (b, a) → s ≡ b ++ (sub ++ a))
    → cut_or c at_once later ≡ some (before, behind)
    → c ∷ s ≡ before ++ (sub ++ behind)
unfolding cut_or cons_before joined
cut_or-ok c s sub before behind (some r) later p ih h =
    cut_prefix-ok (c ∷ s) sub r p ∙ ap (joined sub) h
cut_or-ok c s sub before behind none none p ih h = cc
cut_or-ok c s sub before behind none (some (b, a)) p ih h =
    ap (◌∷◌ c) (ih b a refl) ∙ ap (joined sub) h

-- The text is put together again from its parts.
cut_at-ok :
    (s sub before behind : GoString)
    → cut_at s sub ≡ some (before, behind)
    → s ≡ before ++ (sub ++ behind)
unfolding cut_at
cut_at-ok [] sub before behind h = cc
cut_at-ok (c ∷ s) sub before behind h =
    cut_or-ok c s sub before behind (cut_prefix (c ∷ s) sub) (cut_at s sub) refl (cut_at-ok s sub) h

occurs :
    (fuel : ℕ) (found : Option (GoString × GoString)) (sub : GoString)
    → count_from fuel found sub ≡ 1
    → (parts : GoString × GoString) × (found ≡ some parts)
unfolding count_from
occurs zero found sub h = cc
occurs (suc fuel) none sub h = cc
occurs (suc fuel) (some (before, behind)) sub h = ((before, behind), refl)

-- A filter with one mark takes the escaped name in its place, between two texts of its own.
pub Placed : Library → Config → Type 0
Placed lib c =
    (before : GoString) × (behind : GoString) × (c.user_filter
      ≡ before ++ (username_mark ++ behind))
    × ((username : GoString)
        → filter_for lib c username ≡ before ++ (lib.escape_filter username ++ behind))

filter_for-Placed :
    (lib : Library) (c : Config) → count c.user_filter username_mark ≡ 1 → Placed lib c
unfolding Placed count filter_for replace_first replaced
filter_for-Placed lib c h =
    let ((before, behind), e) =
      occurs (length c.user_filter) (cut_at c.user_filter username_mark) username_mark h in
    (before, behind, cut_at-ok c.user_filter username_mark before behind e, λ username. rw e refl)

pub accepted :
    (test : Bool) (c c' : Config)
    → (if test then ok c else err invalid_configuration) ≡ ok c'
    → (test ≡ true) × (c ≡ c')
accepted true c c' h = (refl, ok_injective c c' h)
accepted false c c' h = cc

valid_count :
    (ldaps a b u n g m : Bool) → (ldaps && not (a || b || u || not n || g || m)) ≡ true → n ≡ true
valid_count ldaps a b u n g m h = ground arith

pub new_provider-Placed :
    (lib : Library) (given c : Config) → new_provider lib given ≡ ok c → Placed lib c
unfolding new_provider validate_config
new_provider-Placed lib given c h =
    let (valid, same) = accepted _ given c h in
    subst (Placed lib) same (
      filter_for-Placed lib given (
        (==_iff (count given.user_filter username_mark) 1).0 (
          valid_count (is_ldaps (lib.parse_url given.url)) (is_empty (trim_space given.bind_dn))
            (is_empty given.bind_password) (is_empty (trim_space given.user_base))
            (count given.user_filter username_mark == 1) (is_empty (trim_space given.user_group_dn))
            (is_empty (trim_space given.admin_group_dn)) valid)))
