-- ===== src/Tunnel/Gateway/Removal.antt =====
-- internal/tunnel/gateway.go: the states of the gateway while PrepareDelete holds its guard.
use meshbridge.Base.{
  ℕ, ◌+◌, ◌-◌, ◌≤◌, ◌≡◌, ◌≢◌, refl, subst, sym, ap, Bool, true, false, ◌||◌, not, Option, none,
  some, List, [], ◌∷◌, Bool-cases, inl, inr, if_elim, ltb, ◌==◌, arith,
}
use meshbridge.Base.Dict.{
  Dict, lookup, insert, delete, lookup-insert, lookup-insert_self, lookup-delete,
  lookup-delete_self,
}
use meshbridge.Base.Text.{Text, text_eq, text_eq_iff, eq_text}
use meshbridge.Tunnel.Gateway.{
  Gateway, count_of, is_removing, admit_tunnel, release_tunnel, lowered, acquire_global,
  release_global, acquire_agent, release_agent, begin_removal, end_removal, forget, kill,
  reset_proxy, set_offline, cancel_jobs, begin_job, end_job, close_session, registered, log_online,
  attach, session_closed, is_current, drained, meter_result, close_sessions, shutdown, with_proxy,
  proxy_for, Step,
}
use meshbridge.Tunnel.Gateway.Frames.{
  Same, attach-cases, attach-Same, session_closed-Same, forget-Same, shutdown-Same,
  meter_result-Same, proxy_for-Same, log_online-sess,
}

module _ (id : Text) where
  -- No agent is attached to the tunnel.
  abbrev pub Detached : Gateway → Type 0
  Detached g = lookup id g.sess ≡ none

  abbrev pub requests : Gateway → ℕ
  requests g = count_of (lookup id g.admission)

  delete-none :
      (j : Text) (sess : Dict Text ℕ) → lookup id sess ≡ none → lookup id (delete j sess) ≡ none
  delete-none j sess h = ground (arith, lookup-delete j id sess, text_eq_iff j id)

  other_name : (g : Gateway) (j : Text) → is_removing g id ≡ true → is_removing g j ≡ false → j ≢ id
  other_name g j guard free e =
      let t : is_removing g j ≡ is_removing g id = ap (is_removing g) e in absurd (cc)

  insert-none :
      (g : Gateway) (j : Text) (s : ℕ)
      → is_removing g id ≡ true
      → is_removing g j ≡ false
      → Detached g
      → lookup id (insert j s g.sess) ≡ none
  insert-none g j s guard free h =
      let other = other_name g j guard free in
      ground (arith, lookup-insert j id s g.sess, text_eq_iff j id)

  attach-Detached :
      (g : Gateway) (j : Text) (s : ℕ) (active ready : Bool) (now : ℕ)
      → is_removing g id ≡ true
      → Detached g
      → Detached (attach g j s active ready now)
  unfolding close_session registered
  attach-Detached g j s active ready now guard h =
      attach-cases Detached g j s active ready now h (λ free. insert-none g j s guard free h)
        (λ free.
          subst (λ sess. lookup id sess ≡ none)
            (sym (log_online-sess (registered g j s) j true now).0)
            (insert-none g j s guard free h))

  session_closed-Detached :
      (g : Gateway) (j : Text) (s now : ℕ) → Detached g → Detached (session_closed g j s now)
  unfolding session_closed set_offline
  session_closed-Detached g j s now h =
      if_elim (λ k. Detached (log_online k j false now)) (is_current (lookup j g.sess) s)
        (λ _.
          subst (λ sess. lookup id sess ≡ none)
            (sym (log_online-sess (set_offline g j) j false now).0) (delete-none j g.sess h))
        (λ _. subst (λ sess. lookup id sess ≡ none) (sym (log_online-sess g j false now).0) h)

  meter_result-Detached :
      (g : Gateway) (fatal : Bool) (stopped : List Text)
      → Detached g
      → Detached (meter_result g fatal stopped)
  unfolding meter_result close_sessions kill reset_proxy set_offline cancel_jobs lookup
  meter_result-Detached g true stopped h = refl
  meter_result-Detached g false [] h = h
  meter_result-Detached g false (j ∷ stopped) h =
      meter_result-Detached (kill (reset_proxy g j) j) false stopped (delete-none j g.sess h)

  with_proxy-Detached :
      (g : Gateway) (j slug : Text) (built : Option Text)
      → Detached g
      → Detached (with_proxy g j slug built).0
  unfolding with_proxy
  with_proxy-Detached g j slug none h = h
  with_proxy-Detached g j slug (some b) h = h

  -- A step under the guard attaches no agent.
  Step-Detached : (g h : Gateway) → is_removing g id ≡ true → Step g h → Detached g → Detached h
  unfolding release_tunnel acquire_global release_global acquire_agent release_agent begin_removal
      end_removal begin_job end_job forget kill reset_proxy set_offline cancel_jobs shutdown
      close_sessions admit_tunnel proxy_for lookup
  Step-Detached g h guard (Step.admitted j) d =
      if_elim (λ (r : Gateway × Bool). Detached r.0) (is_removing g j) (λ _. d)
        (λ _.
          if_elim (λ (r : Gateway × Bool). Detached r.0) (ltb (count_of (lookup j g.admission)) 16)
            (λ _. d) (λ _. d))
  Step-Detached g h guard (Step.released j n held) d = d
  Step-Detached g h guard Step.entered d =
      if_elim (λ (r : Gateway × Bool). Detached r.0) (ltb g.gsem 128) (λ _. d) (λ _. d)
  Step-Detached g h guard Step.departed d = d
  Step-Detached g h guard (Step.agent_in ready) d =
      if_elim (λ (r : Gateway × Bool). Detached r.0) (g.closing || not ready) (λ _. d)
        (λ _. if_elim (λ (r : Gateway × Bool). Detached r.0) (ltb g.slots 32) (λ _. d) (λ _. d))
  Step-Detached g h guard Step.agent_out d = d
  Step-Detached g h guard (Step.job_begun j job) d = d
  Step-Detached g h guard (Step.job_ended j job) d = d
  Step-Detached g h guard (Step.attached j s active ready now) d =
      attach-Detached g j s active ready now guard d
  Step-Detached g h guard (Step.disconnected j s now) d = session_closed-Detached g j s now d
  Step-Detached g h guard (Step.forgotten j) d = delete-none j g.sess d
  Step-Detached g h guard (Step.reported fatal stopped) d = meter_result-Detached g fatal stopped d
  Step-Detached g h guard Step.shut d = refl
  Step-Detached g h guard (Step.proxied j slug) d =
      with_proxy-Detached g j slug (lookup j g.proxy) d
  Step-Detached g h guard (Step.proxy_reset j) d = d
  Step-Detached g h guard (Step.removal_begun j) d = delete-none j g.sess d
  Step-Detached g h guard (Step.removal_ended j held) d = d

  Same-requests : (g h : Gateway) → Same g h → requests h ≤ requests g
  Same-requests g h (a, b, c, d) =
      subst (λ admission. count_of (lookup id admission) ≤ requests g) (sym a) (omega arith)

  insert-requests :
      (j : Text) (n : ℕ) (admission : Dict Text ℕ)
      → n ≤ count_of (lookup j admission)
      → count_of (lookup id (insert j n admission)) ≤ count_of (lookup id admission)
  unfolding count_of
  insert-requests j n admission low = elim (Bool-cases (text_eq j id)) [
    | inl same ↦
        let e : j ≡ id = (text_eq_iff j id).0 same in
        let bound : n ≤ count_of (lookup id admission) =
          subst (λ k. n ≤ count_of (lookup k admission)) e low in
        rw (lookup-insert j id n admission, same) bound
    | inr differ ↦ rw (lookup-insert j id n admission, differ) (omega arith)
  ]

  delete-requests :
      (j : Text) (admission : Dict Text ℕ)
      → count_of (lookup id (delete j admission)) ≤ count_of (lookup id admission)
  unfolding count_of
  delete-requests j admission = elim (Bool-cases (text_eq j id)) [
    | inl same ↦ rw (lookup-delete j id admission, same) (omega arith)
    | inr differ ↦ rw (lookup-delete j id admission, differ) (omega arith)
  ]

  lowered-requests :
      (j : Text) (n : ℕ) (admission : Dict Text ℕ)
      → n ≤ count_of (lookup j admission)
      → count_of (lookup id (lowered j n admission)) ≤ count_of (lookup id admission)
  unfolding lowered
  lowered-requests j n admission low =
      if_elim (λ (a : Dict Text ℕ). count_of (lookup id a) ≤ count_of (lookup id admission))
        (n == 0) (λ _. delete-requests j admission) (λ _. insert-requests j n admission low)

  inserted_elsewhere :
      (j : Text) (n : ℕ) (admission : Dict Text ℕ)
      → j ≢ id
      → count_of (lookup id (insert j n admission)) ≤ count_of (lookup id admission)
  inserted_elsewhere j n admission other = elim (Bool-cases (text_eq j id)) [
    | inl same ↦ absurd (other ((text_eq_iff j id).0 same))
    | inr differ ↦ rw (lookup-insert j id n admission, differ) (omega arith)
  ]

  admit-requests :
      (g : Gateway) (j : Text)
      → is_removing g id ≡ true
      → requests (admit_tunnel g j).0 ≤ requests g
  unfolding admit_tunnel
  admit-requests g j guard =
      if_elim (λ (r : Gateway × Bool). requests r.0 ≤ requests g) (is_removing g j)
        (λ _. omega arith)
        (λ free.
          if_elim (λ (r : Gateway × Bool). requests r.0 ≤ requests g)
            (ltb (count_of (lookup j g.admission)) 16)
            (λ _.
              inserted_elsewhere j (count_of (lookup j g.admission) + 1) g.admission
                (other_name g j guard free))
            (λ _. omega arith))

  -- A step under the guard admits no request of the tunnel.
  Step-requests : (g h : Gateway) → is_removing g id ≡ true → Step g h → requests h ≤ requests g
  unfolding release_tunnel acquire_global release_global acquire_agent release_agent begin_removal
      end_removal begin_job end_job forget kill reset_proxy set_offline cancel_jobs proxy_for
  Step-requests g h guard (Step.admitted j) = admit-requests g j guard
  Step-requests g h guard (Step.released j n held) =
      lowered-requests j (count_of (lookup j g.admission) - 1) g.admission (omega arith)
  Step-requests g h guard Step.entered =
      if_elim (λ (r : Gateway × Bool). requests r.0 ≤ requests g) (ltb g.gsem 128)
        (λ _. omega arith) (λ _. omega arith)
  Step-requests g h guard Step.departed = omega arith
  Step-requests g h guard (Step.agent_in ready) =
      if_elim (λ (r : Gateway × Bool). requests r.0 ≤ requests g) (g.closing || not ready)
        (λ _. omega arith)
        (λ _.
          if_elim (λ (r : Gateway × Bool). requests r.0 ≤ requests g) (ltb g.slots 32)
            (λ _. omega arith) (λ _. omega arith))
  Step-requests g h guard Step.agent_out = omega arith
  Step-requests g h guard (Step.job_begun j job) = omega arith
  Step-requests g h guard (Step.job_ended j job) = omega arith
  Step-requests g h guard (Step.attached j s active ready now) =
      Same-requests g h (attach-Same g j s active ready now)
  Step-requests g h guard (Step.disconnected j s now) =
      Same-requests g h (session_closed-Same g j s now)
  Step-requests g h guard (Step.forgotten j) = Same-requests g h (forget-Same g j)
  Step-requests g h guard (Step.reported fatal stopped) =
      Same-requests g h (meter_result-Same g fatal stopped)
  Step-requests g h guard Step.shut = Same-requests g h (shutdown-Same g)
  Step-requests g h guard (Step.proxied j slug) = Same-requests g h (proxy_for-Same g j slug)
  Step-requests g h guard (Step.proxy_reset j) = omega arith
  Step-requests g h guard (Step.removal_begun j) = omega arith
  Step-requests g h guard (Step.removal_ended j held) = omega arith

  -- What can happen between a state and a later one while the guard stands: steps after which it is
  -- still there.
  pub data During (g : Gateway) : Gateway → Type 0 where
    begun : During g g
    later : {h k : Gateway} → During g h → Step h k → is_removing k id ≡ true → During g k

  begin_removal-guarded : (g : Gateway) → is_removing (begin_removal g id) id ≡ true
  unfolding begin_removal forget kill reset_proxy set_offline cancel_jobs is_removing count_of
  begin_removal-guarded g =
      rw (lookup-insert_self id (count_of (lookup id g.removing) + 1) g.removing) (ground arith)

  During-guarded : (g h : Gateway) → is_removing g id ≡ true → During g h → is_removing h id ≡ true
  During-guarded g h start During.begun = start
  During-guarded g h start (During.later run step guard) = guard

  never_more :
      (g h : Gateway)
      → is_removing g id ≡ true
      → Detached g
      → During g h
      → Detached h × (requests h ≤ requests g)
  never_more g h start d During.begun = (d, omega arith)
  never_more g h start d (During.later run step guard) =
      let before = During-guarded g _ start run in
      let (detached, fewer) = never_more g _ start d run in
      (Step-Detached _ h before step detached, omega (arith, Step-requests _ h before step))

  none_admitted : (g : Gateway) → is_removing g id ≡ true → admit_tunnel g id ≡ (g, false)
  unfolding admit_tunnel
  none_admitted g guard = rw guard refl

  begun-Detached : (g : Gateway) → Detached (begin_removal g id)
  unfolding begin_removal forget kill reset_proxy set_offline cancel_jobs
  begun-Detached g = lookup-delete_self id g.sess

  -- From PrepareDelete's start to the release of its guard, whatever else happens meanwhile: at any
  -- moment `h` no agent of the tunnel is attached and a request of it is refused with nothing changed,
  -- and from `h` to any later moment `k` under the guard the number of its admitted requests does not
  -- grow, so a tunnel that is drained stays drained.
  pub During-Detached :
      (g h k : Gateway)
      → During (begin_removal g id) h
      → During h k
      → Detached h
        × (admit_tunnel h id ≡ (h, false))
        × Detached k
        × (requests k ≤ requests h)
        × (drained h id ≡ true → drained k id ≡ true)
  unfolding drained
  During-Detached g h k first then =
      let start = begin_removal-guarded g in
      let (detached, fewer) = never_more (begin_removal g id) h start (begun-Detached g) first in
      let guard = During-guarded (begin_removal g id) h start first in
      let (later_detached, no_more) = never_more h k guard detached then in
      (detached, none_admitted h guard, later_detached, no_more, λ empty. ground arith)
