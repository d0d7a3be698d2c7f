-- ===== src/Tunnel/Gateway/Slots.antt =====
-- internal/tunnel/gateway.go: the counters of requests and of agents, over all steps.
use meshbridge.Base.{
  ℕ, ◌+◌, ◌-◌, ◌≤◌, ◌≡◌, subst, sym, Bool, ◌||◌, not, some, if_elim, ltb, ◌==◌, arith,
}
use meshbridge.Base.Dict.{Dict, lookup, insert, delete, lookup-insert, lookup-delete}
use meshbridge.Base.Text.{Text, text_eq_iff, eq_text}
use meshbridge.Tunnel.Gateway.{
  Gateway, count_of, is_removing, admit_tunnel, release_tunnel, lowered, acquire_global,
  release_global, acquire_agent, release_agent, begin_removal, end_removal, forget, kill,
  reset_proxy, set_offline, cancel_jobs, begin_job, end_job, Step,
}
use meshbridge.Tunnel.Gateway.Frames.{
  Same, attach-Same, session_closed-Same, forget-Same, shutdown-Same, meter_result-Same,
  proxy_for-Same,
}

-- Every tunnel in the table serves at least one and at most 16 requests, all tunnels together at
-- most 128, and at most 32 agents hold a slot.
abbrev pub Counts : Dict Text ℕ → Type 0
Counts admission = (id : Text) (n : ℕ) → lookup id admission ≡ some n → (1 ≤ n) × (n ≤ 16)

abbrev pub InBounds : Gateway → Type 0
InBounds g = Counts g.admission × (g.gsem ≤ 128) × (g.slots ≤ 32)

Same-InBounds : (g h : Gateway) → Same g h → InBounds g → InBounds h
Same-InBounds g h (a, b, c, d) (counts, gsem, slots) = (
  subst Counts (sym a) counts,
  subst (λ n. n ≤ 128) (sym b) gsem,
  subst (λ n. n ≤ 32) (sym c) slots,
)

insert-Counts :
    (id : Text) (n : ℕ) (admission : Dict Text ℕ)
    → Counts admission
    → 1 ≤ n
    → n ≤ 16
    → Counts (insert id n admission)
insert-Counts id n admission counts low high j m h =
    ground (arith, counts j m, lookup-insert id j n admission, text_eq_iff id j)

delete-Counts :
    (id : Text) (admission : Dict Text ℕ) → Counts admission → Counts (delete id admission)
delete-Counts id admission counts j m h =
    ground (arith, counts j m, lookup-delete id j admission, text_eq_iff id j)

admit_tunnel-InBounds : (g : Gateway) (id : Text) → InBounds g → InBounds (admit_tunnel g id).0
unfolding admit_tunnel
admit_tunnel-InBounds g id ok =
    let n = count_of (lookup id g.admission) in
    if_elim (λ (r : Gateway × Bool). InBounds r.0) (is_removing g id) (λ _. ok)
      (λ _.
        if_elim (λ (r : Gateway × Bool). InBounds r.0) (ltb n 16)
          (λ low.
            (insert-Counts id (n + 1) g.admission ok.0 (omega arith) (ground arith), ok.1, ok.2))
          (λ _. ok))

lowered-Counts :
    (id : Text) (n : ℕ) (admission : Dict Text ℕ)
    → Counts admission
    → n ≤ 16
    → Counts (lowered id n admission)
unfolding lowered
lowered-Counts id n admission counts high =
    if_elim Counts (n == 0) (λ _. delete-Counts id admission counts)
      (λ some_left. insert-Counts id n admission counts (ground arith) high)

-- A step of the gateway keeps the bounds.
pub Step-InBounds : (g h : Gateway) → Step g h → InBounds g → InBounds h
unfolding release_tunnel acquire_global release_global acquire_agent release_agent begin_removal
    end_removal count_of begin_job end_job forget kill reset_proxy set_offline cancel_jobs
Step-InBounds g h (Step.admitted id) ok = admit_tunnel-InBounds g id ok
Step-InBounds g h (Step.released id n held) ok =
    let most : count_of (lookup id g.admission) - 1 ≤ 16 =
      subst (λ o. count_of o - 1 ≤ 16) (sym held) (omega (arith, ok.0 id n held)) in
    (lowered-Counts id (count_of (lookup id g.admission) - 1) g.admission ok.0 most, ok.1, ok.2)
Step-InBounds g h Step.entered ok =
    if_elim (λ (r : Gateway × Bool). InBounds r.0) (ltb g.gsem 128)
      (λ low. (ok.0, ground arith, ok.2)) (λ _. ok)
Step-InBounds g h Step.departed ok = (ok.0, omega arith, ok.2)
Step-InBounds g h (Step.agent_in ready) ok =
    if_elim (λ (r : Gateway × Bool). InBounds r.0) (g.closing || not ready) (λ _. ok)
      (λ _.
        if_elim (λ (r : Gateway × Bool). InBounds r.0) (ltb g.slots 32)
          (λ low. (ok.0, ok.1, ground arith)) (λ _. ok))
Step-InBounds g h Step.agent_out ok = (ok.0, ok.1, omega arith)
Step-InBounds g h (Step.job_begun id job) ok = ok
Step-InBounds g h (Step.job_ended id job) ok = ok
Step-InBounds g h (Step.attached id s active ready now) ok =
    Same-InBounds g h (attach-Same g id s active ready now) ok
Step-InBounds g h (Step.disconnected id s now) ok =
    Same-InBounds g h (session_closed-Same g id s now) ok
Step-InBounds g h (Step.forgotten id) ok = Same-InBounds g h (forget-Same g id) ok
Step-InBounds g h (Step.reported fatal stopped) ok =
    Same-InBounds g h (meter_result-Same g fatal stopped) ok
Step-InBounds g h Step.shut ok = Same-InBounds g h (shutdown-Same g) ok
Step-InBounds g h (Step.proxied id slug) ok = Same-InBounds g h (proxy_for-Same g id slug) ok
Step-InBounds g h (Step.proxy_reset id) ok = ok
Step-InBounds g h (Step.removal_begun id) ok = ok
Step-InBounds g h (Step.removal_ended id held) ok = ok
