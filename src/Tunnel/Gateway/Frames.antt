-- ===== src/Tunnel/Gateway/Frames.antt =====
-- internal/tunnel/gateway.go: which fields of the gateway each operation on sessions writes.
use meshbridge.Base.{
  ℕ, Bool, true, false, ◌||◌, not, Option, none, some, List, [], ◌∷◌, ◌≡◌, refl, ◌∙◌, if_elim,
}
use meshbridge.Base.Dict.{lookup}
use meshbridge.Base.Text.{Text, eq_text}
use meshbridge.Tunnel.Gateway.{
  Gateway, is_removing, log_online, flapping, past_flap, was_online, registered, close_session,
  attach, set_offline, session_closed, is_current, cancel_jobs, kill, close_sessions, shutdown,
  reset_proxy, forget, meter_result, proxy_for, with_proxy,
}

-- The counters of requests and handshakes, and the guard of removals, stand.
abbrev pub Same : Gateway → Gateway → Type 0
Same g h =
    (h.admission ≡ g.admission)
    × (h.gsem ≡ g.gsem)
    × (h.slots ≡ g.slots)
    × (h.removing ≡ g.removing)

pub Same-trans : (g h k : Gateway) → Same g h → Same h k → Same g k
Same-trans g h k (a, b, c, d) (p, q, r, s) = (p ∙ a, q ∙ b, r ∙ c, s ∙ d)

pub log_online-Same :
    (g : Gateway) (id : Text) (up : Bool) (now : ℕ) → Same g (log_online g id up now)
unfolding log_online
log_online-Same g id up now =
    if_elim (Same g) (flapping (lookup id g.last_ev) now) (λ _. (refl, refl, refl, refl))
      (λ _. (refl, refl, refl, refl))

-- log_online changes neither the sessions nor the marks `online`.
pub log_online-sess :
    (g : Gateway) (id : Text) (up : Bool) (now : ℕ)
    → ((log_online g id up now).sess ≡ g.sess) × ((log_online g id up now).online ≡ g.online)
unfolding log_online
log_online-sess g id up now =
    if_elim (λ (h : Gateway). (h.sess ≡ g.sess) × (h.online ≡ g.online))
      (flapping (lookup id g.last_ev) now) (λ _. (refl, refl)) (λ _. (refl, refl))

-- The four ways an attach can end.
pub attach-cases {κ} :
    (P : Gateway → Type κ) (g : Gateway) (id : Text) (s : ℕ) (active ready : Bool) (now : ℕ)
    → P (close_session g s)
    → (is_removing g id ≡ false → P (registered g id s))
    → (is_removing g id ≡ false → P (log_online (registered g id s) id true now))
    → P (attach g id s active ready now)
unfolding attach
attach-cases P g id s active ready now refused quiet announced =
    if_elim P (is_removing g id) (λ _. refused)
      (λ free.
        if_elim P (not active) (λ _. refused)
          (λ _.
            if_elim P (g.closing || not ready) (λ _. refused)
              (λ _.
                if_elim P
                  (not (was_online (lookup id g.online)) || past_flap (lookup id g.last_ev) now)
                  (λ _. announced free) (λ _. quiet free))))

pub attach-Same :
    (g : Gateway) (id : Text) (s : ℕ) (active ready : Bool) (now : ℕ)
    → Same g (attach g id s active ready now)
unfolding close_session registered
attach-Same g id s active ready now =
    attach-cases (Same g) g id s active ready now (refl, refl, refl, refl)
      (λ _. (refl, refl, refl, refl)) (λ _. log_online-Same (registered g id s) id true now)

pub session_closed-Same : (g : Gateway) (id : Text) (s now : ℕ) → Same g (session_closed g id s now)
unfolding session_closed set_offline
session_closed-Same g id s now =
    if_elim (λ h. Same g (log_online h id false now)) (is_current (lookup id g.sess) s)
      (λ _. log_online-Same (set_offline g id) id false now) (λ _. log_online-Same g id false now)

pub forget-Same : (g : Gateway) (id : Text) → Same g (forget g id)
unfolding forget kill reset_proxy set_offline cancel_jobs
forget-Same g id = (refl, refl, refl, refl)

pub shutdown-Same : (g : Gateway) → Same g (shutdown g)
unfolding shutdown close_sessions cancel_jobs
shutdown-Same g = (refl, refl, refl, refl)

pub meter_result-Same :
    (g : Gateway) (fatal : Bool) (stopped : List Text) → Same g (meter_result g fatal stopped)
unfolding meter_result close_sessions kill reset_proxy set_offline cancel_jobs
meter_result-Same g true stopped = (refl, refl, refl, refl)
meter_result-Same g false [] = (refl, refl, refl, refl)
meter_result-Same g false (id ∷ stopped) =
    meter_result-Same (kill (reset_proxy g id) id) false stopped

with_proxy-Same :
    (g : Gateway) (id slug : Text) (built : Option Text) → Same g (with_proxy g id slug built).0
unfolding with_proxy
with_proxy-Same g id slug none = (refl, refl, refl, refl)
with_proxy-Same g id slug (some built) = (refl, refl, refl, refl)

pub proxy_for-Same : (g : Gateway) (id slug : Text) → Same g (proxy_for g id slug).0
unfolding proxy_for
proxy_for-Same g id slug = with_proxy-Same g id slug (lookup id g.proxy)
