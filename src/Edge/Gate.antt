-- ===== src/Edge/Gate.antt =====
-- internal/middleware/account_status.go: the gate for suspended accounts.
use sendly.Common.{
  ℕ, String, Bool, true, false, not, ◌&&◌, ◌||◌, ◌≡◌, ◌≢◌, refl, inl, inr, ◌==◌, nat_eq, string_eq,
  List, [], ◌∷◌, map, exists, if◌then◌else◌, arith, Bool-cases,
}
use sendly.Models.{Time}
use sendly.AccountStatus.Text.{codes, same_codes}
use sendly.AccountStatus.Status.{use_sendly}
use sendly.Edge.Request.{Request, next, aborted, suspended_page, has_prefix}
use sendly.Edge.Account.{
  user_allows, is_nobody, suspended_allowed, suspended_allowed_paths, suspended_allowed_prefixes,
  is_one_of, starts_with_one_of, is_api_path, api_prefixes, trim_slash, account_status_gate,
}

-- One of two texts is a prefix of the other.
agree : List ℕ → List ℕ → Bool
agree [] t = true
agree (c ∷ cs) [] = true
agree (c ∷ cs) (d ∷ ds) = c == d && agree cs ds

prefixes-agree : (p q s : List ℕ) → has_prefix p s ≡ true → has_prefix q s ≡ true → agree p q ≡ true
unfolding agree
prefixes-agree [] q s hp hq = refl
prefixes-agree (c ∷ cs) [] s hp hq = refl
prefixes-agree (c ∷ cs) (d ∷ ds) [] hp hq = cc
prefixes-agree (c ∷ cs) (d ∷ ds) (x ∷ xs) hp hq =
    ground (
      arith,
      nat_eq.reflects c x,
      nat_eq.reflects d x,
      nat_eq.reflects c d,
      prefixes-agree cs ds xs,
    )

same-prefix : (p s : List ℕ) → same_codes p s ≡ true → has_prefix p s ≡ true
unfolding same_codes
same-prefix [] s h = refl
same-prefix (c ∷ cs) [] h = cc
same-prefix (c ∷ cs) (d ∷ ds) h = ground (arith, same-prefix cs ds)

same-prefix_of : (p s : List ℕ) → same_codes s p ≡ true → has_prefix p s ≡ true
unfolding same_codes
same-prefix_of [] s h = refl
same-prefix_of (c ∷ cs) [] h = cc
same-prefix_of (c ∷ cs) (d ∷ ds) h =
    ground (arith, nat_eq.reflects c d, nat_eq.reflects d c, same-prefix_of cs ds)

-- Some text of the first list agrees with one of the second.
some_agree : List (List ℕ) → List (List ℕ) → Bool
some_agree [] qs = false
some_agree (p ∷ ps) qs = exists (agree p) qs || some_agree ps qs

starts : List ℕ → List (List ℕ) → Bool
starts path ps = exists (λ p. has_prefix p path) ps

one_agrees :
    (p path : List ℕ) (qs : List (List ℕ))
    → has_prefix p path ≡ true
    → starts path qs ≡ true
    → exists (agree p) qs ≡ true
unfolding starts
one_agrees p path [] hp hq = cc
one_agrees p path (q ∷ qs) hp hq =
    ground (arith, prefixes-agree p q path hp, one_agrees p path qs hp)

both_agree :
    (path : List ℕ) (ps qs : List (List ℕ))
    → starts path ps ≡ true
    → starts path qs ≡ true
    → some_agree ps qs ≡ true
unfolding starts some_agree
both_agree path [] qs hp hq = cc
both_agree path (p ∷ ps) qs hp hq = elim (Bool-cases (has_prefix p path)) [
  | inl hit ↦ ground (arith, one_agrees p path qs hit hq)
  | inr miss ↦ ground (arith, both_agree path ps qs (rw miss at hp) hq)
]

-- What the paths start with that the test for the API lets through.
abbrev with_and_without_slash : List String → List (List ℕ)
with_and_without_slash [] = []
with_and_without_slash (p ∷ ps) = codes p ∷ trim_slash (codes p) ∷ with_and_without_slash ps

api_path-starts :
    (ps : List String) (path : List ℕ)
    → exists (λ p. has_prefix (codes p) path || same_codes path (trim_slash (codes p))) ps ≡ true
    → starts path (with_and_without_slash ps) ≡ true
unfolding starts
api_path-starts [] path h = cc
api_path-starts (p ∷ ps) path h =
    ground (arith, same-prefix_of (trim_slash (codes p)) path, api_path-starts ps path)

one_of-starts :
    (ps : List String) (path : List ℕ)
    → is_one_of ps path ≡ true
    → starts path (map codes ps) ≡ true
unfolding is_one_of starts
one_of-starts [] path h = cc
one_of-starts (p ∷ ps) path h = ground (arith, same-prefix (codes p) path, one_of-starts ps path)

with_one_of-starts :
    (ps : List String) (path : List ℕ)
    → starts_with_one_of ps path ≡ true
    → starts path (map codes ps) ≡ true
unfolding starts_with_one_of starts
with_one_of-starts [] path h = cc
with_one_of-starts (p ∷ ps) path h = ground (arith, with_one_of-starts ps path)

-- No path of the API is among those that a suspended account may visit.
api_not_allowed : (path : List ℕ) → is_api_path path ≡ true → suspended_allowed path ≡ false
unfolding suspended_allowed is_api_path some_agree agree codes trim_slash
api_not_allowed path api = elim (Bool-cases (is_one_of suspended_allowed_paths path)) [
  | inl listed ↦ absurd (
      let clash =
        both_agree path (with_and_without_slash api_prefixes) (map codes suspended_allowed_paths)
          (api_path-starts api_prefixes path api)
          (one_of-starts suspended_allowed_paths path listed) in
      cc)
  | inr unlisted ↦ elim (Bool-cases (starts_with_one_of suspended_allowed_prefixes path)) [
    | inl below ↦ absurd (
        let clash =
          both_agree path (with_and_without_slash api_prefixes)
            (map codes suspended_allowed_prefixes) (api_path-starts api_prefixes path api)
            (with_one_of-starts suspended_allowed_prefixes path below) in
        cc)
    | inr other ↦ rw (unlisted, other) refl
  ]
]

not_next : (b : Bool) → (if b then aborted 403 "ACCOUNT_SUSPENDED" else suspended_page) ≢ next
not_next true e = cc
not_next false e = cc

-- A suspended account gets nothing from the API: whatever the method, and whether or not there is a page
-- for suspended accounts, its requests to these paths are refused, and elsewhere only the listed paths
-- are open to it.
pub account_status_gate-closed :
    (has_page : Bool) (now : Time) (r : Request)
    → is_nobody r.user ≡ false
    → user_allows r.user use_sendly now ≡ false
    → (is_api_path (codes r.path) ≡ true
        → account_status_gate has_page now r ≡ aborted 403 "ACCOUNT_SUSPENDED")
      × (account_status_gate has_page now r ≡ next → suspended_allowed (codes r.path) ≡ true)
unfolding account_status_gate
account_status_gate-closed has_page now r someone suspended = (
  (λ api. rw (someone, suspended, api_not_allowed (codes r.path) api, api) refl),
  (λ passed. elim (Bool-cases (suspended_allowed (codes r.path))) [
    | inl listed ↦ listed
    | inr shut ↦ absurd (
        not_next (is_api_path (codes r.path) || not has_page || not (r.method == "GET"))
          (rw (someone, suspended, shut) at passed))
  ]),
)
