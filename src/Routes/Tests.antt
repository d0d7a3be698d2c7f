-- ===== src/Routes/Tests.antt =====
-- A relay that is over its quota before one that is not.
use meshbridge.Base.{ℕ, ◌*◌, ◌≡◌, refl, Bool, true, List, [], ◌∷◌, ltb}
use meshbridge.Base.Text.{codes}
use meshbridge.Routes.{
  derp, direct, RelayState, decide, first_usable, usable, with_relay, peer_route, debounce_route,
  is_derp, is_direct,
}
use meshbridge.Routes.Decisions.{Sound, decide-Sound}

abbrev by_integers : ℕ → ℕ → Bool
by_integers bytes quota = ltb (100 * bytes) (95 * quota)

abbrev relays : List RelayState
relays =
    record { id = codes "full"; healthy = true; bytes_month = 99; quota_bytes = 100 }
    ∷ record { id = codes "free"; healthy = true; bytes_month = 0; quota_bytes = 0 }
    ∷ []

decide-Sound_example :
    Sound by_integers derp 10 5 relays true (decide by_integers derp 10 5 relays true)
decide-Sound_example = decide-Sound by_integers derp 10 5 relays true

takes_free : decide by_integers derp 10 5 relays true ≡ peer_route (codes "free")
unfolding decide first_usable usable with_relay
takes_free = refl

paused : debounce_route direct derp 2 10 5 ≡ true
unfolding debounce_route is_derp is_direct
paused = refl
