-- ===== src/Routes.antt =====
-- internal/scheduler/scheduler.go and internal/probe/probe.go: the route of a transfer, what the
-- output of `tailscale ping` is taken for, and when a transfer pauses. The comparison with 95% of a
-- quota, which is floating point, is a parameter. The reasons in words are left out.
pub mod Decisions
mod Tests
use meshbridge.Base.{
  ℕ, ◌+◌, Bool, true, false, ◌&&◌, ◌||◌, not, Option, none, some, List, [], ◌∷◌, ◌==◌, ltb, leb,
  if◌then◌else◌,
}
use meshbridge.Base.Text.{Text, codes, contains, to_lower, cut}

pub data Class : Type 0 where
  direct peer_relay derp unreachable unknown : Class

pub data Chosen : Type 0 where
  direct_route : Chosen
  peer_route : Text → Chosen
  s3_route wait_route derp_small_route refused_route : Chosen

-- `quota_bytes` is 0 for no quota.
pub record RelayState : Type 0 where
  pub id : Text
  pub healthy : Bool
  pub bytes_month : ℕ
  pub quota_bytes : ℕ

module _ (below_critical : ℕ → ℕ → Bool) where
  unfoldable pub usable : RelayState → Bool
  usable r =
      if not r.healthy
      then false
      else if r.quota_bytes == 0
      then true
      else below_critical r.bytes_month r.quota_bytes

  -- The loop over the relays.
  unfoldable pub first_usable : List RelayState → Option Text
  unfolding usable
  first_usable [] = none
  first_usable (r ∷ relays) = let rest = first_usable relays in if usable r then some r.id else rest

  unfoldable pub with_relay : Option Text → Bool → Chosen → Chosen
  with_relay (some id) s3_enabled otherwise = peer_route id
  with_relay none s3_enabled otherwise = if s3_enabled then s3_route else otherwise

  unfoldable pub decide : Class → ℕ → ℕ → List RelayState → Bool → Chosen
  unfolding first_usable with_relay
  decide direct size derp_limit relays s3_enabled = direct_route
  decide peer_relay size derp_limit relays s3_enabled =
      with_relay (first_usable relays) s3_enabled wait_route
  decide derp size derp_limit relays s3_enabled =
      if leb size derp_limit
      then derp_small_route
      else with_relay (first_usable relays) s3_enabled refused_route
  decide unreachable size derp_limit relays s3_enabled = if s3_enabled then s3_route else wait_route
  decide unknown size derp_limit relays s3_enabled = if s3_enabled then s3_route else wait_route

unfoldable pub is_derp : Class → Bool
is_derp derp = true
is_derp _ = false

unfoldable pub is_direct : Class → Bool
is_direct direct = true
is_direct _ = false

-- Whether a big transfer pauses.
unfoldable pub debounce_route : Class → Class → ℕ → ℕ → ℕ → Bool
unfolding is_derp is_direct
debounce_route prev cur consecutive_derp remaining_bytes derp_limit =
    if not (is_derp cur)
    then false
    else if leb remaining_bytes derp_limit
    then false
    else if is_direct prev && leb 2 consecutive_derp
    then true
    else leb 3 consecutive_derp

-- The class that ParsePingOutput reads; ASCII output.
unfoldable pub ping_class : Text → Class
unfolding contains to_lower
ping_class out =
    let l = to_lower out in
    if contains l (codes "no response")
      || contains l (codes "timed out")
      || contains l (codes "unreachable")
    then unreachable
    else if contains l (codes "peer-relay") || contains l (codes "peer relay")
    then peer_relay
    else if contains l (codes "derp(")
        || contains l (codes " via derp")
        || contains l (codes "relay(")
    then derp
    else if contains l (codes "pong")
    then direct
    else unknown
