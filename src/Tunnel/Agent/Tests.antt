-- ===== src/Tunnel/Agent/Tests.antt =====
-- An agent that is told to change one tunnel and to open one outside its policy.
use meshbridge.Base.{ℕ, ◌*◌, ◌≤◌, ◌<◌, ◌≡◌, refl, true, Option, none, some, List, [], ◌∷◌, arith}
use meshbridge.Base.Dict.{lookup, insert, Distinct}
use meshbridge.Base.Text.{Text, codes, text_eq, eq_text}
use meshbridge.Tunnel.Agent.{
  Ip, v4, AgentConfig, Client, acceptable, no_error, target_ok, checked_address, allowed_by,
  allowed_address, is_loopback, is_private, is_cgnat, wanted, wants, same_config, stop_stale,
  start_missing, start_one, reconcile, one_second, backoff_after, delay, next_backoff,
}
use meshbridge.Tunnel.Agent.Restarts.{Switched, reconcile-Switched}
use meshbridge.Tunnel.Agent.Wanted.{reconcile-acceptable}
use meshbridge.Tunnel.Agent.Backoff.{expected_backoff, delay-backoff_after}

-- A text stands for the address that its first byte chooses.
abbrev by_head : Text → Option Ip
by_head [] = none
by_head (c ∷ s) = some (v4 c 0 0 1)

abbrev to_port : ℕ → AgentConfig
to_port n = record { id = codes "a"; scheme = codes "http"; host = 127 ∷ []; port = n }

abbrev abroad : AgentConfig
abroad = record { id = codes "b"; scheme = codes "http"; host = 8 ∷ []; port = 80 }

abbrev orders : List AgentConfig
orders = to_port 81 ∷ abroad ∷ []

abbrev running : Client
running = record { conns = (codes "a", to_port 80) ∷ []; opened = []; cancelled = [] }

running-Distinct : Distinct running.conns
unfolding lookup
running-Distinct = (refl, tt)

reconcile-Switched_example :
    Switched (wanted by_head [] orders []) running (reconcile by_head [] orders running)
reconcile-Switched_example = reconcile-Switched by_head [] orders running running-Distinct

moved : lookup (codes "a") (reconcile by_head [] orders running).conns ≡ some (to_port 81)
unfolding reconcile wanted acceptable no_error target_ok checked_address allowed_by allowed_address
    is_loopback is_private is_cgnat stop_stale wants same_config start_missing start_one lookup
    insert text_eq
moved = refl

reconcile-acceptable_example :
    (acceptable by_head [] (to_port 81) ≡ true) × ((to_port 81).id ≡ codes "a")
reconcile-acceptable_example =
    reconcile-acceptable by_head [] orders running (codes "a") (to_port 81) running-Distinct moved

delay-backoff_after_example :
    (backoff_after 7 ≡ expected_backoff 7)
    × (one_second ≤ 2 * delay (backoff_after 7) 5)
    × (delay (backoff_after 7) 5 < 96 * one_second)
unfolding backoff_after next_backoff
delay-backoff_after_example = delay-backoff_after 7 5 (omega arith)
