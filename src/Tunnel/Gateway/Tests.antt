-- ===== src/Tunnel/Gateway/Tests.antt =====
-- A gateway that serves one request of one tunnel, which is then removed.
use meshbridge.Base.{◌≤◌, ◌≡◌, refl, true, false, some}
use meshbridge.Base.Dict.{lookup, insert, delete}
use meshbridge.Base.Text.{Text, codes, text_eq, eq_text}
use meshbridge.Tunnel.Gateway.{
  Gateway, new_gateway, count_of, is_removing, lowered, admit_tunnel, release_tunnel, attach,
  registered, replaced, was_online, past_flap, log_online, flapping, begin_removal, forget, kill,
  reset_proxy, set_offline, cancel_jobs, drained, Step, Reach,
}
use meshbridge.Tunnel.Gateway.Presence.{Present, Reach-Present}
use meshbridge.Tunnel.Gateway.Removal.{Detached, requests, During, During-Detached}

abbrev name : Text
name = codes "t"

abbrev live : Gateway
live = attach new_gateway name 7 true true 5

abbrev serving : Gateway
serving = (admit_tunnel live name).0

serving-Reach : Reach serving
serving-Reach =
    Reach.later (Reach.later Reach.fresh (Step.attached name 7 true true 5)) (Step.admitted name)

Reach-Present_example : Present serving
Reach-Present_example = Reach-Present serving serving-Reach

abbrev removed : Gateway
removed = release_tunnel (begin_removal serving name) name

held : lookup name (begin_removal serving name).admission ≡ some 1
unfolding new_gateway attach is_removing count_of registered replaced was_online past_flap
    log_online flapping admit_tunnel begin_removal forget kill reset_proxy set_offline cancel_jobs
    lookup insert delete text_eq
held = refl

guarded : is_removing removed name ≡ true
unfolding new_gateway attach is_removing count_of registered replaced was_online past_flap
    log_online flapping admit_tunnel begin_removal release_tunnel forget kill reset_proxy
    set_offline cancel_jobs lookup insert delete text_eq
guarded = refl

begun_now : During name (begin_removal serving name) (begin_removal serving name)
begun_now = During.begun

released_then : During name (begin_removal serving name) removed
released_then = During.later During.begun (Step.released name 1 held) guarded

During-Detached_example :
    Detached name (begin_removal serving name)
    × (admit_tunnel (begin_removal serving name) name ≡ (begin_removal serving name, false))
    × Detached name removed
    × (requests name removed ≤ requests name (begin_removal serving name))
    × (drained (begin_removal serving name) name ≡ true → drained removed name ≡ true)
During-Detached_example =
    During-Detached name serving (begin_removal serving name) removed begun_now released_then

drained-removed : drained removed name ≡ true
unfolding new_gateway attach is_removing count_of registered replaced was_online past_flap
    log_online flapping admit_tunnel begin_removal release_tunnel lowered drained forget kill
    reset_proxy set_offline cancel_jobs lookup insert delete text_eq
drained-removed = refl
