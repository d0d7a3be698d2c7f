-- ===== src/Tunnel/Visitor/Admission.antt =====
-- internal/tunnel/gateway.go: the slots that proxyRequest takes and gives back.
use meshbridge.Base.{
  ℕ, ◌+◌, ◌-◌, ◌<◌, ◌≡◌, ◌≢◌, refl, sym, subst, Bool, false, if◌then◌else◌, Option, none, some,
  if_elim, Bool-cases, inl, inr, ltb, ◌==◌, arith,
}
use meshbridge.Base.Dict.{Dict, lookup, insert, lookup-insert, lookup-delete}
use meshbridge.Base.Text.{Text, text_eq, text_eq_iff, eq_text}
use meshbridge.Tunnel.Gateway.{
  Gateway, count_of, is_removing, lowered, admit_tunnel, release_tunnel, acquire_global,
  release_global, begin_job, end_job,
}
use meshbridge.Tunnel.Visitor.{
  Page, offline, take_global, take_tunnel, enter_request, leave_request,
}

-- The requests of every tunnel are counted as before, and those of all tunnels.
abbrev pub SameLoad : Gateway → Gateway → Type 0
SameLoad g h =
    ((id : Text) → count_of (lookup id h.admission) ≡ count_of (lookup id g.admission))
    × (h.gsem ≡ g.gsem)

count-lowered :
    (id j : Text) (n : ℕ) (admission : Dict Text ℕ)
    → count_of (lookup j (lowered id n admission))
      ≡ (if text_eq id j then n else count_of (lookup j admission))
unfolding lowered count_of
count-lowered id j n admission =
    if_elim
      (λ (a : Dict Text ℕ).
        count_of (lookup j a) ≡ (if text_eq id j then n else count_of (lookup j admission)))
      (n == 0) (λ zero. ground (arith, lookup-delete id j admission))
      (λ _. ground (arith, lookup-insert id j n admission))

count-insert :
    (id j : Text) (n : ℕ) (admission : Dict Text ℕ)
    → count_of (lookup j (insert id n admission))
      ≡ (if text_eq id j then n else count_of (lookup j admission))
unfolding count_of
count-insert id j n admission = ground (arith, lookup-insert id j n admission)

-- Taking a slot and giving it back leaves every count as it was.
restored :
    (id j : Text) (admission : Dict Text ℕ)
    → let more : Dict Text ℕ = insert id (count_of (lookup id admission) + 1) admission in
      count_of (lookup j (lowered id (count_of (lookup id more) - 1) more))
      ≡ count_of (lookup j admission)
restored id j admission = elim (Bool-cases (text_eq id j)) [
  | inl same ↦
      let e : id ≡ j = (text_eq_iff id j).0 same in
      rw
        (
          count-lowered id j
              (count_of (lookup id (insert id (count_of (lookup id admission) + 1) admission)) - 1)
              (insert id (count_of (lookup id admission) + 1) admission),
          same,
          count-insert id id (count_of (lookup id admission) + 1) admission,
          (text_eq_iff id id).1 refl,
        )
        (subst (λ k. count_of (lookup id admission) + 1 - 1 ≡ count_of (lookup k admission)) e
          (omega arith))
  | inr differ ↦
      rw
        (
          count-lowered id j
              (count_of (lookup id (insert id (count_of (lookup id admission) + 1) admission)) - 1)
              (insert id (count_of (lookup id admission) + 1) admission),
          differ,
          count-insert id j (count_of (lookup id admission) + 1) admission,
          differ,
        )
        refl
]

-- What enter_request does in every case: it refuses and leaves the gateway's load, or it takes one
-- slot of the tunnel and one of all tunnels.
abbrev pub Entered : Gateway → Text → Gateway × Option Page → Type 0
Entered g id (h, some page) = SameLoad g h
Entered g id (h, none) =
    (h.admission ≡ insert id (count_of (lookup id g.admission) + 1) g.admission)
    × (h.gsem ≡ g.gsem + 1)
    × (g.gsem < 128)
    × (count_of (lookup id g.admission) < 16)
    × (is_removing g id ≡ false)
    × (lookup id g.sess ≢ none)

take_global-Entered :
    (g : Gateway) (id : Text) (job : ℕ)
    → is_removing g id ≡ false
    → count_of (lookup id g.admission) < 16
    → lookup id g.sess ≢ none
    → let h : Gateway = record g {
      admission = insert id (count_of (lookup id g.admission) + 1) g.admission;
    } in
      Entered g id (take_global g id job (acquire_global h))
unfolding take_global acquire_global release_tunnel begin_job
take_global-Entered g id job free low live =
    let h : Gateway = record g {
      admission = insert id (count_of (lookup id g.admission) + 1) g.admission;
    } in
    if_elim (λ (q : Gateway × Bool). Entered g id (take_global g id job q)) (ltb g.gsem 128)
      (λ spare. (refl, refl, ground arith, low, free, live))
      (λ _. (λ j. restored id j g.admission, refl))

take_tunnel-Entered :
    (g : Gateway) (id : Text) (job : ℕ)
    → lookup id g.sess ≢ none
    → Entered g id (take_tunnel g id job (admit_tunnel g id))
unfolding take_tunnel admit_tunnel
take_tunnel-Entered g id job live =
    if_elim (λ (q : Gateway × Bool). Entered g id (take_tunnel g id job q)) (is_removing g id)
      (λ _. (λ j. refl, refl))
      (λ free.
        if_elim (λ (q : Gateway × Bool). Entered g id (take_tunnel g id job q))
          (ltb (count_of (lookup id g.admission)) 16)
          (λ low. take_global-Entered g id job free (ground arith) live) (λ _. (λ j. refl, refl)))

-- A request is refused with the load of all tunnels unchanged, whichever bound refused it, or it
-- takes exactly one of the 16 slots of its tunnel and one of the 128 of all; it is never taken
-- without an agent's session or while the tunnel is being removed.
enter_request-Entered : (g : Gateway) (id : Text) (job : ℕ) → Entered g id (enter_request g id job)
unfolding enter_request
enter_request-Entered g id job = entered_of (lookup id g.sess) refl
  where
    entered_of :
        (o : Option ℕ)
        → lookup id g.sess ≡ o
        → Entered g id (elim o [
          | none ↦ (g, some offline)
          | some s ↦ take_tunnel g id job (admit_tunnel g id)
        ])
    entered_of none h = (λ j. refl, refl)
    entered_of (some s) h = take_tunnel-Entered g id job (λ e. absurd (cc))

-- A request that has entered and left, with nothing in between, leaves every count as it was.
pub leave_request-enter_request :
    (g : Gateway) (id : Text) (job : ℕ)
    → (enter_request g id job).1 ≡ none
    → SameLoad g (leave_request (enter_request g id job).0 id job)
unfolding leave_request end_job release_global release_tunnel
leave_request-enter_request g id job h =
    let entered : Entered g id ((enter_request g id job).0, none) =
      subst (λ o. Entered g id ((enter_request g id job).0, o)) h
        (enter_request-Entered g id job) in
    let admission = entered.0 in
    let all = entered.1 in
    (
      λ j.
          subst
            (λ a.
              count_of (lookup j (lowered id (count_of (lookup id a) - 1) a))
              ≡ count_of (lookup j g.admission))
            (sym admission) (restored id j g.admission),
      omega (arith, all),
    )
