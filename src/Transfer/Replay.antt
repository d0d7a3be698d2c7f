-- ===== src/Transfer/Replay.antt =====
-- internal/auth/auth.go, ReplayGuard: nonces that were consumed. Times are nanoseconds; the collection
-- never ran where `last_gc` is `none`, the zero time.
use meshbridge.Base.{
  ℕ, ◌+◌, ◌≤◌, ◌≡◌, refl, subst, Bool, true, false, not, Option, none, some, List, [], ◌∷◌, ltb,
  if◌then◌else◌, if_elim, keep, All, Bool-cases, inl, inr, arith,
}
use meshbridge.Base.Dict.{
  Dict, lookup, insert, Distinct, lookup-insert, lookup-insert_self, lookup-keep, keep-Distinct,
  insert-Distinct,
}
use meshbridge.Base.Text.{Text, text_eq, text_eq_iff, eq_text}

pub record ReplayGuard : Type 0 where
  pub seen : Dict Text ℕ
  pub last_gc : Option ℕ

unfoldable pub new_replay_guard : ReplayGuard
new_replay_guard = record { seen = []; last_gc = none }

-- `now.Sub(g.lastGC) > time.Minute`.
unfoldable pub gc_due : Option ℕ → ℕ → Bool
gc_due none now = true
gc_due (some t) now = ltb (t + 60000000000) now

-- The entries that `now.Sub(t) > maxTTL` keeps.
unfoldable pub collected : ReplayGuard → ℕ → ℕ → ReplayGuard
unfolding gc_due
collected g now max_ttl =
    if gc_due g.last_gc now
    then record { seen = keep (λ e. not (ltb (e.1 + max_ttl) now)) g.seen; last_gc = some now }
    else g

unfoldable pub consume : ReplayGuard → Text → ℕ → Option ℕ → ReplayGuard × Bool
consume g nonce exp (some t) = (g, false)
consume g nonce exp none = (record g { seen = insert nonce exp g.seen }, true)

unfoldable pub check_and_consume : ReplayGuard → Text → ℕ → ℕ → ℕ → ReplayGuard × Bool
unfolding text_eq collected consume
check_and_consume g nonce exp max_ttl now =
    let h = collected g now max_ttl in
    if text_eq nonce [] then (g, false) else consume h nonce exp (lookup nonce h.seen)

-- One call: the nonce, the expiry of its token and the time.
abbrev pub Calls : Type 0
Calls = List (Text × ℕ × ℕ)

unfoldable pub check_all : ℕ → ReplayGuard → Calls → ReplayGuard
unfolding check_and_consume
check_all max_ttl g [] = g
check_all max_ttl g ((nonce, exp, now) ∷ calls) =
    check_all max_ttl (check_and_consume g nonce exp max_ttl now).0 calls

-- The nonce is remembered with its expiry.
abbrev pub Remembers : Text → ℕ → ReplayGuard → Type 0
Remembers nonce exp g = (lookup nonce g.seen ≡ some exp) × Distinct g.seen

collected-Remembers :
    (nonce : Text) (exp : ℕ) (g : ReplayGuard) (now max_ttl : ℕ)
    → now ≤ exp + max_ttl
    → Remembers nonce exp g
    → Remembers nonce exp (collected g now max_ttl)
unfolding collected
collected-Remembers nonce exp g now max_ttl early (found, distinct) =
    if_elim (Remembers nonce exp) (gc_due g.last_gc now)
      (λ _. (
        rw (lookup-keep (λ e. not (ltb (e.1 + max_ttl) now)) nonce g.seen distinct, found)
            (ground arith),
        keep-Distinct (λ e. not (ltb (e.1 + max_ttl) now)) g.seen distinct,
      ))
      (λ _. (found, distinct))

consume-Remembers :
    (nonce other : Text) (exp exp' : ℕ) (g : ReplayGuard) (o : Option ℕ)
    → lookup other g.seen ≡ o
    → Remembers nonce exp g
    → Remembers nonce exp (consume g other exp' o).0
unfolding consume
consume-Remembers nonce other exp exp' g (some t) h ok = ok
consume-Remembers nonce other exp exp' g none h (found, distinct) =
    elim (Bool-cases (text_eq other nonce)) [
      | inl same ↦
          let e : other ≡ nonce = (text_eq_iff other nonce).0 same in
          let gone : lookup nonce g.seen ≡ none = subst (λ k. lookup k g.seen ≡ none) e h in
          absurd (cc)
      | inr differ ↦ (
        rw (lookup-insert other nonce exp' g.seen, differ) found,
        insert-Distinct other exp' g.seen distinct,
      )
    ]

check-Remembers :
    (nonce other : Text) (exp exp' max_ttl now : ℕ) (g : ReplayGuard)
    → now ≤ exp + max_ttl
    → Remembers nonce exp g
    → Remembers nonce exp (check_and_consume g other exp' max_ttl now).0
unfolding check_and_consume
check-Remembers nonce other exp exp' max_ttl now g early ok =
    let h : ReplayGuard = collected g now max_ttl in
    if_elim (λ (r : ReplayGuard × Bool). Remembers nonce exp r.0) (text_eq other []) (λ _. ok)
      (λ _.
        consume-Remembers nonce other exp exp' h (lookup other h.seen) refl
          (collected-Remembers nonce exp g now max_ttl early ok))

check_all-Remembers :
    (nonce : Text) (exp max_ttl : ℕ) (g : ReplayGuard) (calls : Calls)
    → All (λ (c : Text × ℕ × ℕ). c.2 ≤ exp + max_ttl) calls
    → Remembers nonce exp g
    → Remembers nonce exp (check_all max_ttl g calls)
unfolding check_all
check_all-Remembers nonce exp max_ttl g [] early ok = ok
check_all-Remembers nonce exp max_ttl g ((other, exp', now) ∷ calls) (first, early) ok =
    check_all-Remembers nonce exp max_ttl (check_and_consume g other exp' max_ttl now).0 calls early
      (check-Remembers nonce other exp exp' max_ttl now g first ok)

consume-known :
    (g : ReplayGuard) (nonce : Text) (exp exp' : ℕ) (o : Option ℕ)
    → o ≡ some exp
    → (consume g nonce exp' o).1 ≡ false
unfolding consume
consume-known g nonce exp exp' none h = absurd (cc)
consume-known g nonce exp exp' (some t) h = refl

consumed-Remembers :
    (g : ReplayGuard) (nonce : Text) (exp : ℕ) (o : Option ℕ)
    → Distinct g.seen
    → (consume g nonce exp o).1 ≡ true
    → Remembers nonce exp (consume g nonce exp o).0
unfolding consume
consumed-Remembers g nonce exp none distinct h =
    (lookup-insert_self nonce exp g.seen, insert-Distinct nonce exp g.seen distinct)
consumed-Remembers g nonce exp (some t) distinct h = absurd (cc)

collected-Distinct :
    (g : ReplayGuard) (now max_ttl : ℕ) → Distinct g.seen → Distinct (collected g now max_ttl).seen
unfolding collected
collected-Distinct g now max_ttl distinct =
    if_elim (λ (h : ReplayGuard). Distinct h.seen) (gc_due g.last_gc now)
      (λ _. keep-Distinct (λ e. not (ltb (e.1 + max_ttl) now)) g.seen distinct) (λ _. distinct)

accepted-Remembers :
    (g : ReplayGuard) (nonce : Text) (exp max_ttl now : ℕ)
    → Distinct g.seen
    → (check_and_consume g nonce exp max_ttl now).1 ≡ true
    → Remembers nonce exp (check_and_consume g nonce exp max_ttl now).0
unfolding check_and_consume
accepted-Remembers g nonce exp max_ttl now distinct =
    let h : ReplayGuard = collected g now max_ttl in
    if_elim (λ (r : ReplayGuard × Bool). r.1 ≡ true → Remembers nonce exp r.0) (text_eq nonce [])
      (λ _ no. absurd (cc))
      (λ _ yes.
        consumed-Remembers h nonce exp (lookup nonce h.seen)
          (collected-Distinct g now max_ttl distinct) yes)

-- A nonce that was accepted with an expiry is refused by every later call, whatever other calls and
-- collections come between, as long as no call is later than the expiry by more than the maximal time
-- to live.
pub check_and_consume-check_all :
    (g : ReplayGuard) (nonce : Text) (exp exp' max_ttl now later : ℕ) (calls : Calls)
    → Distinct g.seen
    → (check_and_consume g nonce exp max_ttl now).1 ≡ true
    → All (λ (c : Text × ℕ × ℕ). c.2 ≤ exp + max_ttl) calls
    → later ≤ exp + max_ttl
    → (check_and_consume
        (check_all max_ttl (check_and_consume g nonce exp max_ttl now).0 calls)
        nonce
        exp'
        max_ttl
        later).1
      ≡ false
unfolding check_and_consume
check_and_consume-check_all g nonce exp exp' max_ttl now later calls distinct accepted early
      in_time =
    let k : ReplayGuard = check_all max_ttl (check_and_consume g nonce exp max_ttl now).0 calls in
    let known =
      check_all-Remembers nonce exp max_ttl (check_and_consume g nonce exp max_ttl now).0 calls
        early (accepted-Remembers g nonce exp max_ttl now distinct accepted) in
    let kept = collected-Remembers nonce exp k later max_ttl in_time known in
    let h : ReplayGuard = collected k later max_ttl in
    if_elim (λ (r : ReplayGuard × Bool). r.1 ≡ false) (text_eq nonce []) (λ _. refl)
      (λ _. consume-known h nonce exp exp' (lookup nonce h.seen) kept.0)
