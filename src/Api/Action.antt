-- ===== src/Api/Action.antt =====
-- An HTTP handler of internal/api as a program over the server's state: its statements in their order.
-- `run` carries it out; it ends in an answer, in an error of writeErr, or in silence when the client has
-- gone, and the rows written before an error stay written. Below stand the rules by which the outcome of
-- a program is followed step by step.
use meshbridge.Base.{ℕ, Bool, true, false, Option, none, some, ◌≡◌, refl}
use meshbridge.Base.Text.{Text}

pub data HttpReply (A : Type 0) : Type 0 where
  done : A → HttpReply A
  error : ℕ → Text → HttpReply A
  gone : HttpReply A

-- `refuse_if` and `refuse` are writeErr and `return`, `or_refuse` the same for a query that finds no row,
-- `leave_if` is `return` alone, `exec` an Exec, which fails when the database does or when a constraint
-- is violated, and `try` an Exec whose error is ignored.
infixl 5 ◌>>=◌
pub data Action (S : Type 0) : Type 0 → Type 1 where
  pure : {A : Type 0} → A → Action S A
  gets : {A : Type 0} → (S → A) → Action S A
  refuse : {A : Type 0} → ℕ → Text → Action S A
  or_refuse : {A : Type 0} → Option A → ℕ → Text → Action S A
  refuse_if : Bool → ℕ → Text → Action S Unit
  leave_if : Bool → Action S Unit
  modify : (S → S) → Action S Unit
  exec : Bool → (S → Option S) → ℕ → Text → Action S Unit
  try : Bool → (S → S) → Action S Unit
  ◌>>=◌ : {A B : Type 0} → Action S A → (A → Action S B) → Action S B

infixl 5 ◌>>◌
abbrev pub ◌>>◌ : {S A B : Type 0} → Action S A → Action S B → Action S B
m >> k = m >>= λ _. k

-- An Exec that violates no constraint.
abbrev pub write_row : {S : Type 0} → Bool → (S → S) → ℕ → Text → Action S Unit
write_row up f code kind = exec up (λ s. some (f s)) code kind

module _ {S : Type 0} where
  unfoldable pub row_written : Option S → ℕ → Text → S → HttpReply Unit × S
  row_written none code kind s = (error code kind, s)
  row_written (some s') code kind s = (done tt, s')

  unfoldable pub found_row : {A : Type 0} → Option A → ℕ → Text → S → HttpReply A × S
  found_row none code kind s = (error code kind, s)
  found_row (some a) code kind s = (done a, s)

  unfoldable pub and_then :
      {A B : Type 0} → (A → S → HttpReply B × S) → HttpReply A × S → HttpReply B × S
  and_then f (done a, s) = f a s
  and_then f (error code kind, s) = (error code kind, s)
  and_then f (gone, s) = (gone, s)

  unfoldable pub run : {A : Type 0} → Action S A → S → HttpReply A × S
  unfolding row_written found_row and_then
  run (pure a) s = (done a, s)
  run (gets f) s = (done (f s), s)
  run (refuse code kind) s = (error code kind, s)
  run (or_refuse o code kind) s = found_row o code kind s
  run (refuse_if true code kind) s = (error code kind, s)
  run (refuse_if false code kind) s = (done tt, s)
  run (leave_if true) s = (gone, s)
  run (leave_if false) s = (done tt, s)
  run (modify f) s = (done tt, f s)
  run (exec true f code kind) s = row_written (f s) code kind s
  run (exec false f code kind) s = (error code kind, s)
  run (try true f) s = (done tt, f s)
  run (try false f) s = (done tt, s)
  run (m >>= k) s = and_then (λ a. run (k a)) (run m s)

abbrev pub Outcome {ℓ} : {S A : Type 0} → (A → S → Type ℓ) → (S → Type ℓ) → HttpReply A × S → Type ℓ
Outcome P E (done a, s) = P a s
Outcome P E (error code kind, s) = E s
Outcome P E (gone, s) = E s

-- An answer of the program has `P`, and everything else leaves a state with `E`.
pub record Ends {ℓ} {S A : Type 0} (P : A → S → Type ℓ) (E : S → Type ℓ) (m : Action S A) (s : S)
    : Type ℓ where
  pub outcome : Outcome P E (run m s)

module _ {ℓ} {S B : Type 0} {Q : B → S → Type ℓ} {E : S → Type ℓ} where
  outcome_of_reply :
      {A : Type 0} (P : A → S → Type ℓ) (k : A → Action S B) (r : HttpReply A × S)
      → Outcome P E r
      → ((a : A) (s' : S) → P a s' → Ends Q E (k a) s')
      → Outcome Q E (and_then (λ a. run (k a)) r)
  unfolding and_then
  outcome_of_reply P k (done a, s') h rest = (rest a s' h).outcome
  outcome_of_reply P k (error code kind, s') h rest = h
  outcome_of_reply P k (gone, s') h rest = h

  pub then_step :
      {A : Type 0} {P : A → S → Type ℓ} {m : Action S A} {k : A → Action S B} {s : S}
      → Ends P E m s
      → ((a : A) (s' : S) → P a s' → Ends Q E (k a) s')
      → Ends Q E (m >>= k) s
  unfolding run
  then_step {P = P} {m = m} {k = k} {s = s} first rest = record {
    outcome = outcome_of_reply P k (run m s) first.outcome rest;
  }

  pub gets_step :
      {A : Type 0} {f : S → A} {k : A → Action S B} {s : S}
      → Ends Q E (k (f s)) s
      → Ends Q E (gets f >>= k) s
  unfolding run and_then
  gets_step h = record { outcome = h.outcome }

  pub or_refuse_step :
      {A : Type 0} {o : Option A} {code : ℕ} {kind : Text} {k : A → Action S B} {s : S}
      → E s
      → ((a : A) → o ≡ some a → Ends Q E (k a) s)
      → Ends Q E (or_refuse o code kind >>= k) s
  unfolding run and_then found_row
  or_refuse_step {o = none} bad good = record { outcome = bad }
  or_refuse_step {o = some a} bad good = record { outcome = (good a refl).outcome }

  pub refuse_step :
      {bad : Bool} {code : ℕ} {kind : Text} {k : Unit → Action S B} {s : S}
      → E s
      → (bad ≡ false → Ends Q E (k tt) s)
      → Ends Q E (refuse_if bad code kind >>= k) s
  unfolding run and_then
  refuse_step {bad = true} stop go = record { outcome = stop }
  refuse_step {bad = false} stop go = record { outcome = (go refl).outcome }

  pub refuse_case :
      {bad : Bool} {code : ℕ} {kind : Text} {k : Unit → Action S B} {s : S}
      → (bad ≡ true → E s)
      → (bad ≡ false → Ends Q E (k tt) s)
      → Ends Q E (refuse_if bad code kind >>= k) s
  unfolding run and_then
  refuse_case {bad = true} stop go = record { outcome = stop refl }
  refuse_case {bad = false} stop go = record { outcome = (go refl).outcome }

  pub leave_step :
      {bad : Bool} {k : Unit → Action S B} {s : S}
      → E s
      → (bad ≡ false → Ends Q E (k tt) s)
      → Ends Q E (leave_if bad >>= k) s
  unfolding run and_then
  leave_step {bad = true} stop go = record { outcome = stop }
  leave_step {bad = false} stop go = record { outcome = (go refl).outcome }

  pub modify_step :
      {f : S → S} {k : Unit → Action S B} {s : S}
      → Ends Q E (k tt) (f s)
      → Ends Q E (modify f >>= k) s
  unfolding run and_then
  modify_step h = record { outcome = h.outcome }

  outcome_of_row :
      (o : Option S) (code : ℕ) (kind : Text) (k : Unit → Action S B) (s : S)
      → E s
      → ((s' : S) → o ≡ some s' → Ends Q E (k tt) s')
      → Outcome Q E (and_then (λ a. run (k a)) (row_written o code kind s))
  unfolding and_then row_written
  outcome_of_row none code kind k s stop go = stop
  outcome_of_row (some s') code kind k s stop go = (go s' refl).outcome

  pub exec_step :
      {up : Bool} {f : S → Option S} {code : ℕ} {kind : Text} {k : Unit → Action S B} {s : S}
      → E s
      → ((s' : S) → f s ≡ some s' → Ends Q E (k tt) s')
      → Ends Q E (exec up f code kind >>= k) s
  unfolding run and_then
  exec_step {up = false} stop go = record { outcome = stop }
  exec_step {up = true} {f = f} {code = code} {kind = kind} {k = k} {s = s} stop go = record {
    outcome = outcome_of_row (f s) code kind k s stop go;
  }

  pub write_step :
      {up : Bool} {f : S → S} {code : ℕ} {kind : Text} {k : Unit → Action S B} {s : S}
      → E s
      → Ends Q E (k tt) (f s)
      → Ends Q E (write_row up f code kind >>= k) s
  unfolding run and_then row_written
  write_step {up = false} stop go = record { outcome = stop }
  write_step {up = true} stop go = record { outcome = go.outcome }

  pub try_step :
      {up : Bool} {f : S → S} {k : Unit → Action S B} {s : S}
      → Ends Q E (k tt) s
      → Ends Q E (k tt) (f s)
      → Ends Q E (try up f >>= k) s
  unfolding run and_then
  try_step {up = false} skipped ran = record { outcome = skipped.outcome }
  try_step {up = true} skipped ran = record { outcome = ran.outcome }

  pub try_case :
      {up : Bool} {f : S → S} {k : Unit → Action S B} {s : S}
      → (up ≡ false → Ends Q E (k tt) s)
      → (up ≡ true → Ends Q E (k tt) (f s))
      → Ends Q E (try up f >>= k) s
  unfolding run and_then
  try_case {up = false} skipped ran = record { outcome = (skipped refl).outcome }
  try_case {up = true} skipped ran = record { outcome = (ran refl).outcome }

  -- What both outcomes of an Exec have in common.
  pub try_into :
      {up : Bool} {f : S → S} {k : Unit → Action S B} {s : S} (I : S → Type ℓ)
      → I s
      → I (f s)
      → ((s' : S) → I s' → Ends Q E (k tt) s')
      → Ends Q E (try up f >>= k) s
  try_into {f = f} {s = s} I skipped ran rest = try_step (rest s skipped) (rest (f s) ran)

module _ {ℓ} {S A : Type 0} {P : A → S → Type ℓ} {E : S → Type ℓ} where
  pub pure_end : {a : A} {s : S} → P a s → Ends P E (pure a) s
  unfolding run
  pure_end h = record { outcome = h }

  pub gets_end : {f : S → A} {s : S} → P (f s) s → Ends P E (gets f) s
  unfolding run
  gets_end h = record { outcome = h }

  pub refuse_end : {code : ℕ} {kind : Text} {s : S} → E s → Ends P E (refuse code kind) s
  unfolding run
  refuse_end h = record { outcome = h }

module _ {ℓ} {S : Type 0} {P : Unit → S → Type ℓ} {E : S → Type ℓ} where
  pub refuse_if_end :
      {bad : Bool} {code : ℕ} {kind : Text} {s : S}
      → E s
      → (bad ≡ false → P tt s)
      → Ends P E (refuse_if bad code kind) s
  unfolding run
  refuse_if_end {bad = true} stop go = record { outcome = stop }
  refuse_if_end {bad = false} stop go = record { outcome = go refl }

module _ {ℓ} {S A : Type 0} {P Q : A → S → Type ℓ} {E F : S → Type ℓ} where
  weaken_outcome :
      (r : HttpReply A × S)
      → Outcome P E r
      → ((a : A) (s' : S) → P a s' → Q a s')
      → ((s' : S) → E s' → F s')
      → Outcome Q F r
  weaken_outcome (done a, s') h f g = f a s' h
  weaken_outcome (error code kind, s') h f g = g s' h
  weaken_outcome (gone, s') h f g = g s' h

  pub weaken :
      {m : Action S A} {s : S}
      → Ends P E m s
      → ((a : A) (s' : S) → P a s' → Q a s')
      → ((s' : S) → E s' → F s')
      → Ends Q F m s
  weaken {m = m} {s = s} h f g = record { outcome = weaken_outcome (run m s) h.outcome f g }
