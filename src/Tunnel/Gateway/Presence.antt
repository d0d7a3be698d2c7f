-- ===== src/Tunnel/Gateway/Presence.antt =====
-- internal/tunnel/gateway.go: the maps of sessions and of the marks `online`, over all steps.
use meshbridge.Base.{
  ℕ, ◌≡◌, refl, subst, sym, Bool, true, false, ◌||◌, not, Option, none, some, List, [], ◌∷◌,
  Bool-cases, inl, inr, if_elim, ltb, arith,
}
use meshbridge.Base.Dict.{Dict, lookup, insert, lookup-insert, lookup-delete}
use meshbridge.Base.Text.{Text, text_eq, eq_text}
use meshbridge.Tunnel.Gateway.{
  Gateway, new_gateway, count_of, is_removing, admit_tunnel, release_tunnel, acquire_global,
  release_global, acquire_agent, release_agent, begin_removal, end_removal, forget, kill,
  reset_proxy, set_offline, cancel_jobs, begin_job, end_job, close_session, registered, log_online,
  session_closed, is_current, meter_result, close_sessions, all_offline, shutdown, with_proxy,
  proxy_for, was_online, Step, Reach,
}
use meshbridge.Tunnel.Gateway.Frames.{attach-cases, log_online-sess}

abbrev pub has_session : Option ℕ → Bool
has_session none = false
has_session (some s) = true

abbrev Agree : Dict Text ℕ → Dict Text Bool → Type 0
Agree sess online = (id : Text) → was_online (lookup id online) ≡ has_session (lookup id sess)

abbrev pub Present : Gateway → Type 0
Present g = (id : Text) → was_online (lookup id g.online) ≡ has_session (lookup id g.sess)

log_online-Present :
    (g : Gateway) (j : Text) (up : Bool) (now : ℕ) → Present g → Present (log_online g j up now)
log_online-Present g j up now ok =
    let (s, o) = log_online-sess g j up now in
    subst (λ sess. Agree sess (log_online g j up now).online) (sym s)
      (subst (Agree g.sess) (sym o) ok)

registered-Present : (g : Gateway) (j : Text) (s : ℕ) → Present g → Present (registered g j s)
unfolding registered was_online
registered-Present g j s ok id = elim (Bool-cases (text_eq j id)) [
  | inl same ↦ rw (lookup-insert j id true g.online, lookup-insert j id s g.sess, same) refl
  | inr differ ↦ rw (lookup-insert j id true g.online, lookup-insert j id s g.sess, differ) (ok id)
]

set_offline-Present : (g : Gateway) (j : Text) → Present g → Present (set_offline g j)
unfolding set_offline was_online
set_offline-Present g j ok id = elim (Bool-cases (text_eq j id)) [
  | inl same ↦ rw (lookup-insert j id false g.online, lookup-delete j id g.sess, same) refl
  | inr differ ↦ rw (lookup-insert j id false g.online, lookup-delete j id g.sess, differ) (ok id)
]

all_offline-gone :
    (id : Text) (sess : Dict Text ℕ) (online : Dict Text Bool)
    → was_online (lookup id online) ≡ false
    → was_online (lookup id (all_offline sess online)) ≡ false
unfolding all_offline was_online
all_offline-gone id [] online h = h
all_offline-gone id ((j, s) ∷ sess) online h =
    all_offline-gone id sess (insert j false online)
      (ground (arith, lookup-insert j id false online))

all_offline-all :
    (id : Text) (sess : Dict Text ℕ) (online : Dict Text Bool)
    → was_online (lookup id online) ≡ has_session (lookup id sess)
    → was_online (lookup id (all_offline sess online)) ≡ false
unfolding all_offline was_online lookup
all_offline-all id [] online h = h
all_offline-all id ((j, s) ∷ sess) online h = elim (Bool-cases (text_eq j id)) [
  | inl same ↦
      all_offline-gone id sess (insert j false online)
        (rw (lookup-insert j id false online, same) refl)
  | inr differ ↦
      all_offline-all id sess (insert j false online)
        (ground (arith, lookup-insert j id false online))
]

meter_result-Present :
    (g : Gateway) (fatal : Bool) (stopped : List Text)
    → Present g
    → Present (meter_result g fatal stopped)
unfolding meter_result close_sessions kill reset_proxy cancel_jobs lookup
meter_result-Present g true stopped ok = λ id. all_offline-all id g.sess g.online (ok id)
meter_result-Present g false [] ok = ok
meter_result-Present g false (j ∷ stopped) ok =
    meter_result-Present (kill (reset_proxy g j) j) false stopped (set_offline-Present g j ok)

with_proxy-Present :
    (g : Gateway) (j slug : Text) (built : Option Text)
    → Present g
    → Present (with_proxy g j slug built).0
unfolding with_proxy
with_proxy-Present g j slug none ok = ok
with_proxy-Present g j slug (some b) ok = ok

Step-Present : (g h : Gateway) → Step g h → Present g → Present h
unfolding release_tunnel acquire_global release_global acquire_agent release_agent begin_removal
    end_removal begin_job end_job forget kill reset_proxy cancel_jobs shutdown close_sessions
    admit_tunnel proxy_for session_closed close_session lookup
Step-Present g h (Step.admitted j) ok =
    if_elim (λ (r : Gateway × Bool). Present r.0) (is_removing g j) (λ _. ok)
      (λ _.
        if_elim (λ (r : Gateway × Bool). Present r.0) (ltb (count_of (lookup j g.admission)) 16)
          (λ _. ok) (λ _. ok))
Step-Present g h (Step.released j n held) ok = ok
Step-Present g h Step.entered ok =
    if_elim (λ (r : Gateway × Bool). Present r.0) (ltb g.gsem 128) (λ _. ok) (λ _. ok)
Step-Present g h Step.departed ok = ok
Step-Present g h (Step.agent_in ready) ok =
    if_elim (λ (r : Gateway × Bool). Present r.0) (g.closing || not ready) (λ _. ok)
      (λ _. if_elim (λ (r : Gateway × Bool). Present r.0) (ltb g.slots 32) (λ _. ok) (λ _. ok))
Step-Present g h Step.agent_out ok = ok
Step-Present g h (Step.job_begun j job) ok = ok
Step-Present g h (Step.job_ended j job) ok = ok
Step-Present g h (Step.attached j s active ready now) ok =
    attach-cases Present g j s active ready now ok (λ _. registered-Present g j s ok)
      (λ _. log_online-Present (registered g j s) j true now (registered-Present g j s ok))
Step-Present g h (Step.disconnected j s now) ok =
    if_elim (λ k. Present (log_online k j false now)) (is_current (lookup j g.sess) s)
      (λ _. log_online-Present (set_offline g j) j false now (set_offline-Present g j ok))
      (λ _. log_online-Present g j false now ok)
Step-Present g h (Step.forgotten j) ok = set_offline-Present g j ok
Step-Present g h (Step.reported fatal stopped) ok = meter_result-Present g fatal stopped ok
Step-Present g h Step.shut ok = λ id. all_offline-all id g.sess g.online (ok id)
Step-Present g h (Step.proxied j slug) ok = with_proxy-Present g j slug (lookup j g.proxy) ok
Step-Present g h (Step.proxy_reset j) ok = ok
Step-Present g h (Step.removal_begun j) ok = set_offline-Present g j ok
Step-Present g h (Step.removal_ended j held) ok = ok

-- In every state that the gateway reaches, a tunnel is marked online in the gateway's map exactly when a
-- session of its agent is held, whatever replaced, late or forced disconnections came in between. What
-- the audit log was told last may differ, as it is told once a minute at most.
pub Reach-Present : (g : Gateway) → Reach g → Present g
unfolding new_gateway lookup was_online
Reach-Present g Reach.fresh = λ id. refl
Reach-Present g (Reach.later r s) = Step-Present _ g s (Reach-Present _ r)
