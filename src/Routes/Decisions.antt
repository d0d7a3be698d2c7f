-- ===== src/Routes/Decisions.antt =====
-- internal/scheduler/scheduler.go and internal/probe/probe.go: Decide and DebounceRoute on all
-- inputs.
use meshbridge.Base.{
  ℕ, ◌+◌, ◌≤◌, ◌<◌, ◌≡◌, ◌≢◌, ◌⊎◌, inl, inr, refl, ap, Bool, true, false, Option, none, some, List,
  [], ◌∷◌, ◌++◌, leb, if_elim, any, arith,
}
use meshbridge.Base.Text.{Text}
use meshbridge.Routes.{
  Class, direct, peer_relay, derp, unreachable, unknown, Chosen, direct_route, peer_route, s3_route,
  wait_route, derp_small_route, refused_route, RelayState, usable, first_usable, with_relay, decide,
  is_derp, debounce_route,
}

value_or : Text → Option Text → Text
value_or other none = other
value_or other (some id) = id

module _ (below_critical : ℕ → ℕ → Bool) where
  -- A usable relay of this name is in the list, and those before it are not usable.
  abbrev pub FirstUsable : List RelayState → Text → Type 0
  FirstUsable relays id =
      (before : List RelayState) × (r : RelayState) × (behind : List RelayState) × (relays
        ≡ before ++ r ∷ behind)
      × (r.id ≡ id)
      × (usable below_critical r ≡ true)
      × (any (usable below_critical) before ≡ false)

  -- What each answer implies.
  abbrev pub Sound : Class → ℕ → ℕ → List RelayState → Bool → Chosen → Type 0
  Sound c size derp_limit relays s3 direct_route = c ≡ direct
  Sound c size derp_limit relays s3 (peer_route id) =
      FirstUsable relays id × ((c ≡ peer_relay) ⊎ ((c ≡ derp) × (derp_limit < size)))
  Sound c size derp_limit relays s3 s3_route = (s3 ≡ true) × (c ≢ direct)
  Sound c size derp_limit relays s3 wait_route = (s3 ≡ false) × (c ≢ direct) × (c ≢ derp)
  Sound c size derp_limit relays s3 derp_small_route = (c ≡ derp) × (size ≤ derp_limit)
  Sound c size derp_limit relays s3 refused_route =
      (c ≡ derp) × (derp_limit < size) × (s3 ≡ false) × (any (usable below_critical) relays ≡ false)

  first_usable-FirstUsable :
      (relays : List RelayState) (id : Text)
      → first_usable below_critical relays ≡ some id
      → FirstUsable relays id
  unfolding first_usable value_or
  first_usable-FirstUsable [] id = λ h. absurd (cc)
  first_usable-FirstUsable (r ∷ relays) id =
      if_elim (λ (o : Option Text). o ≡ some id → FirstUsable (r ∷ relays) id)
        (usable below_critical r) (λ ok h. ([], r, relays, refl, ap (value_or id) h, ok, refl))
        (λ no h.
          let (before, s, behind, place, named, ok, none_before) =
            first_usable-FirstUsable relays id h in
          (r ∷ before, s, behind, ap (λ t. r ∷ t) place, named, ok, rw (no, none_before) refl))

  first_usable-none :
      (relays : List RelayState)
      → first_usable below_critical relays ≡ none
      → any (usable below_critical) relays ≡ false
  unfolding first_usable
  first_usable-none [] = λ h. refl
  first_usable-none (r ∷ relays) =
      if_elim (λ (o : Option Text). o ≡ none → any (usable below_critical) (r ∷ relays) ≡ false)
        (usable below_critical r) (λ _ h. absurd (cc))
        (λ no h. rw (no, first_usable-none relays h) refl)

  by_peer :
      (size derp_limit : ℕ) (relays : List RelayState) (s3 : Bool) (o : Option Text)
      → first_usable below_critical relays ≡ o
      → Sound peer_relay size derp_limit relays s3 (with_relay below_critical o s3 wait_route)
  unfolding with_relay
  by_peer size derp_limit relays s3 (some id) h = (first_usable-FirstUsable relays id h, inl refl)
  by_peer size derp_limit relays true none h = (refl, λ e. absurd (cc))
  by_peer size derp_limit relays false none h = (refl, (λ e. absurd (cc)), λ e. absurd (cc))

  by_derp :
      (size derp_limit : ℕ) (relays : List RelayState) (s3 : Bool) (o : Option Text)
      → derp_limit < size
      → first_usable below_critical relays ≡ o
      → Sound derp size derp_limit relays s3 (with_relay below_critical o s3 refused_route)
  unfolding with_relay
  by_derp size derp_limit relays s3 (some id) large h =
      (first_usable-FirstUsable relays id h, inr (refl, large))
  by_derp size derp_limit relays true none large h = (refl, λ e. absurd (cc))
  by_derp size derp_limit relays false none large h =
      (refl, large, refl, first_usable-none relays h)

  -- Whatever is observed and configured: only a direct path goes direct; only a file within the limit
  -- goes over DERP; a relay is chosen only as the first usable one of the list, for a path over a relay
  -- or for a large file over DERP; object storage only where it is enabled; and a large file is refused
  -- only when no relay is usable and object storage is off.
  pub decide-Sound :
      (c : Class) (size derp_limit : ℕ) (relays : List RelayState) (s3 : Bool)
      → Sound c size derp_limit relays s3 (decide below_critical c size derp_limit relays s3)
  unfolding decide
  decide-Sound direct size derp_limit relays s3 = refl
  decide-Sound peer_relay size derp_limit relays s3 =
      by_peer size derp_limit relays s3 (first_usable below_critical relays) refl
  decide-Sound derp size derp_limit relays s3 =
      if_elim (Sound derp size derp_limit relays s3) (leb size derp_limit)
        (λ small. (refl, ground arith))
        (λ large.
          by_derp size derp_limit relays s3 (first_usable below_critical relays) (ground arith)
            refl)
  decide-Sound unreachable size derp_limit relays true = (refl, λ e. absurd (cc))
  decide-Sound unreachable size derp_limit relays false =
      (refl, (λ e. absurd (cc)), λ e. absurd (cc))
  decide-Sound unknown size derp_limit relays true = (refl, λ e. absurd (cc))
  decide-Sound unknown size derp_limit relays false = (refl, (λ e. absurd (cc)), λ e. absurd (cc))

derp_of : (c : Class) → is_derp c ≡ true → c ≡ derp
unfolding is_derp
derp_of derp h = refl
derp_of direct h = absurd (cc)
derp_of peer_relay h = absurd (cc)
derp_of unreachable h = absurd (cc)
derp_of unknown h = absurd (cc)

-- A transfer pauses only while it goes over DERP with more left than the limit and DERP was seen at
-- least twice in a row; and if it pauses, it also does after one more such observation.
pub debounce_route-stays :
    (prev cur : Class) (n remaining_bytes derp_limit : ℕ)
    → debounce_route prev cur n remaining_bytes derp_limit ≡ true
    → (cur ≡ derp)
      × (derp_limit < remaining_bytes)
      × (2 ≤ n)
      × (debounce_route prev cur (n + 1) remaining_bytes derp_limit ≡ true)
unfolding debounce_route
debounce_route-stays prev cur n remaining_bytes derp_limit h =
    (derp_of cur (ground arith), ground arith, ground arith, ground arith)
