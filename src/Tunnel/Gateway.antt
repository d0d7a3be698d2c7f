-- ===== src/Tunnel/Gateway.antt =====
-- internal/tunnel/gateway.go, the gateway's state and the operations on it: agent sessions,
-- admission of requests, their jobs, the removal guard and the cache of proxies. A session and a job
-- are the numbers of the objects; `closed` and `cancelled` record the calls of Close and cancel, and
-- `audited` the rows of the audit log. Times are nanoseconds.
pub mod Frames
pub mod Slots
pub mod Presence
pub mod Removal
mod Tests
use meshbridge.Base.{
  ℕ, ◌+◌, ◌-◌, ◌*◌, Bool, true, false, ◌&&◌, ◌||◌, not, Option, none, some, List, [], ◌∷◌, ◌++◌,
  map, ◌==◌, ltb, if◌then◌else◌, keep, ◌≡◌, ◌≢◌,
}
use meshbridge.Base.Dict.{Dict, lookup, insert, delete}
use meshbridge.Base.Text.{Text, codes, text_eq, eq_text}

abbrev pub max_concurrent_per_tunnel : ℕ
max_concurrent_per_tunnel = 16

abbrev pub max_concurrent_global : ℕ
max_concurrent_global = 128

abbrev pub agent_slot_bound : ℕ
agent_slot_bound = 32

abbrev pub audit_flap_window : ℕ
audit_flap_window = 60000000000

-- `gsem`, `slots` and the values of `admission` are the lengths of the channels.
pub record Gateway : Type 0 where
  pub sess : Dict Text ℕ
  pub online : Dict Text Bool
  pub last_ev : Dict Text ℕ
  pub closing : Bool
  pub slots : ℕ
  pub gsem : ℕ
  pub admission : Dict Text ℕ
  pub removing : Dict Text ℕ
  pub jobs : Dict Text (List ℕ)
  pub proxy : Dict Text Text
  pub closed : List ℕ
  pub cancelled : List ℕ
  pub audited : List (Text × Bool)

unfoldable pub new_gateway : Gateway
new_gateway = record {
  sess = [];
  online = [];
  last_ev = [];
  closing = false;
  slots = 0;
  gsem = 0;
  admission = [];
  removing = [];
  jobs = [];
  proxy = [];
  closed = [];
  cancelled = [];
  audited = [];
}

-- The zero value of a missing key.
unfoldable pub count_of : Option ℕ → ℕ
count_of none = 0
count_of (some n) = n

unfoldable pub jobs_of : Option (List ℕ) → List ℕ
jobs_of none = []
jobs_of (some js) = js

unfoldable pub is_removing : Gateway → Text → Bool
unfolding count_of
is_removing g id = ltb 0 (count_of (lookup id g.removing))

-- `delete` of a counter that has come to 0.
unfoldable pub lowered : Text → ℕ → Dict Text ℕ → Dict Text ℕ
lowered id n counts = if n == 0 then delete id counts else insert id n counts

unfoldable pub admit_tunnel : Gateway → Text → Gateway × Bool
unfolding count_of is_removing
admit_tunnel g id =
    let n = count_of (lookup id g.admission) in
    if is_removing g id
    then (g, false)
    else if ltb n max_concurrent_per_tunnel
    then (record g { admission = insert id (n + 1) g.admission }, true)
    else (g, false)

-- What the first call of the function that admitTunnel returns does.
unfoldable pub release_tunnel : Gateway → Text → Gateway
unfolding count_of lowered
release_tunnel g id = record g {
  admission = lowered id (count_of (lookup id g.admission) - 1) g.admission;
}

-- The slot of all tunnels, in proxyRequest.
unfoldable pub acquire_global : Gateway → Gateway × Bool
acquire_global g =
    if ltb g.gsem max_concurrent_global then (record g { gsem = g.gsem + 1 }, true) else (g, false)

unfoldable pub release_global : Gateway → Gateway
release_global g = record g { gsem = g.gsem - 1 }

unfoldable pub acquire_agent : Gateway → Bool → Gateway × Bool
acquire_agent g ready =
    if g.closing || not ready
    then (g, false)
    else if ltb g.slots agent_slot_bound
    then (record g { slots = g.slots + 1 }, true)
    else (g, false)

unfoldable pub release_agent : Gateway → Gateway
release_agent g = record g { slots = g.slots - 1 }

unfoldable pub begin_job : Gateway → Text → ℕ → Gateway
unfolding jobs_of
begin_job g id job = record g { jobs = insert id (job ∷ jobs_of (lookup id g.jobs)) g.jobs }

unfoldable pub kept_jobs : Text → List ℕ → Dict Text (List ℕ) → Dict Text (List ℕ)
kept_jobs id [] jobs = delete id jobs
kept_jobs id (j ∷ js) jobs = insert id (j ∷ js) jobs

unfoldable pub end_job : Gateway → Text → ℕ → Gateway
unfolding jobs_of kept_jobs
end_job g id job = record g {
  jobs = kept_jobs id (keep (λ j. not (j == job)) (jobs_of (lookup id g.jobs))) g.jobs;
}

-- The cancel functions of one tunnel, or of all when the name is empty.
unfoldable pub cancels : Text → Dict Text (List ℕ) → List ℕ
unfolding text_eq
cancels id [] = []
cancels id ((tunnel, js) ∷ jobs) =
    if text_eq id [] || text_eq id tunnel then js ++ cancels id jobs else cancels id jobs

unfoldable pub cancel_jobs : Gateway → Text → Gateway
unfolding cancels
cancel_jobs g id = record g { cancelled = cancels id g.jobs ++ g.cancelled }

-- `time.Since(last) < auditFlapWindow`; the zero time is long past.
unfoldable pub flapping : Option ℕ → ℕ → Bool
flapping none now = false
flapping (some t) now = ltb now (t + audit_flap_window)

-- `time.Since(last) > auditFlapWindow`.
unfoldable pub past_flap : Option ℕ → ℕ → Bool
past_flap none now = true
past_flap (some t) now = ltb (t + audit_flap_window) now

unfoldable pub log_online : Gateway → Text → Bool → ℕ → Gateway
unfolding flapping
log_online g id up now =
    if flapping (lookup id g.last_ev) now
    then g
    else record g { last_ev = insert id now g.last_ev; audited = (id, up) ∷ g.audited }

unfoldable pub close_session : Gateway → ℕ → Gateway
close_session g s = record g { closed = s ∷ g.closed }

-- Close of the session that Attach replaces.
unfoldable pub replaced : Option ℕ → ℕ → List ℕ → List ℕ
replaced none s closed = closed
replaced (some old) s closed = if old == s then closed else old ∷ closed

unfoldable pub was_online : Option Bool → Bool
was_online none = false
was_online (some b) = b

unfoldable pub registered : Gateway → Text → ℕ → Gateway
unfolding replaced
registered g id s = record g {
  sess = insert id s g.sess;
  online = insert id true g.online;
  closed = replaced (lookup id g.sess) s g.closed;
}

-- `active` is the outcome of the query for an active row, true without a database; `ready` that of
-- MeterReady.
unfoldable pub attach : Gateway → Text → ℕ → Bool → Bool → ℕ → Gateway
unfolding is_removing close_session registered was_online past_flap log_online
attach g id s active ready now =
    if is_removing g id
    then close_session g s
    else if not active
    then close_session g s
    else if g.closing || not ready
    then close_session g s
    else if not (was_online (lookup id g.online)) || past_flap (lookup id g.last_ev) now
    then log_online (registered g id s) id true now
    else registered g id s

unfoldable pub is_current : Option ℕ → ℕ → Bool
is_current none s = false
is_current (some t) s = t == s

unfoldable pub set_offline : Gateway → Text → Gateway
set_offline g id = record g { sess = delete id g.sess; online = insert id false g.online }

-- What Attach runs when the session has closed.
unfoldable pub session_closed : Gateway → Text → ℕ → ℕ → Gateway
unfolding is_current set_offline log_online
session_closed g id s now =
    log_online (if is_current (lookup id g.sess) s then set_offline g id else g) id false now

unfoldable pub closed_too : Option ℕ → List ℕ → List ℕ
closed_too none closed = closed
closed_too (some s) closed = s ∷ closed

unfoldable pub kill : Gateway → Text → Gateway
unfolding cancel_jobs set_offline closed_too
kill g id =
    let h = set_offline (cancel_jobs g id) id in
    record h { closed = closed_too (lookup id g.sess) h.closed }

unfoldable pub all_offline : Dict Text ℕ → Dict Text Bool → Dict Text Bool
all_offline [] online = online
all_offline ((id, s) ∷ sess) online = all_offline sess (insert id false online)

unfoldable pub close_sessions : Gateway → Gateway
unfolding cancel_jobs all_offline
close_sessions g =
    let h = cancel_jobs g [] in
    record h {
      sess = [];
      online = all_offline h.sess h.online;
      closed = map (λ e. e.1) h.sess ++ h.closed;
    }

-- The goroutine of ShutdownSessions, up to its wait.
unfoldable pub shutdown : Gateway → Gateway
unfolding close_sessions
shutdown g = close_sessions (record g { closing = true })

unfoldable pub reset_proxy : Gateway → Text → Gateway
reset_proxy g id = record g { proxy = delete id g.proxy }

-- The proxy of a tunnel, which keeps the slug it was built with.
unfoldable pub with_proxy : Gateway → Text → Text → Option Text → Gateway × Text
with_proxy g id slug none = (record g { proxy = insert id slug g.proxy }, slug)
with_proxy g id slug (some built) = (g, built)

unfoldable pub proxy_for : Gateway → Text → Text → Gateway × Text
unfolding with_proxy
proxy_for g id slug = with_proxy g id slug (lookup id g.proxy)

unfoldable pub forget : Gateway → Text → Gateway
unfolding kill reset_proxy
forget g id = reset_proxy (kill g id) id

-- What a flush or a final settlement reports: `fatal` when the meter is unavailable or the budget of
-- all tunnels is spent.
unfoldable pub meter_result : Gateway → Bool → List Text → Gateway
unfolding close_sessions forget
meter_result g true stopped = close_sessions g
meter_result g false [] = g
meter_result g false (id ∷ stopped) = meter_result (kill (reset_proxy g id) id) false stopped

-- PrepareDelete up to its loop.
unfoldable pub begin_removal : Gateway → Text → Gateway
unfolding forget count_of
begin_removal g id =
    forget (record g { removing = insert id (count_of (lookup id g.removing) + 1) g.removing }) id

unfoldable pub drained : Gateway → Text → Bool
unfolding count_of
drained g id = count_of (lookup id g.admission) == 0

-- What the first call of PrepareDelete's release does.
unfoldable pub end_removal : Gateway → Text → Gateway
unfolding count_of lowered
end_removal g id = record g {
  removing = lowered id (count_of (lookup id g.removing) - 1) g.removing;
}

pub data Step (g : Gateway) : Gateway → Type 0 where
  admitted : (id : Text) → Step g (admit_tunnel g id).0
  released : (id : Text) (n : ℕ) → lookup id g.admission ≡ some n → Step g (release_tunnel g id)
  entered : Step g (acquire_global g).0
  departed : Step g (release_global g)
  agent_in : (ready : Bool) → Step g (acquire_agent g ready).0
  agent_out : Step g (release_agent g)
  job_begun : (id : Text) (job : ℕ) → Step g (begin_job g id job)
  job_ended : (id : Text) (job : ℕ) → Step g (end_job g id job)
  attached :
      (id : Text) (s : ℕ) (active ready : Bool) (now : ℕ) → Step g (attach g id s active ready now)
  disconnected : (id : Text) (s now : ℕ) → Step g (session_closed g id s now)
  forgotten : (id : Text) → Step g (forget g id)
  reported : (fatal : Bool) (stopped : List Text) → Step g (meter_result g fatal stopped)
  shut : Step g (shutdown g)
  proxy_reset : (id : Text) → Step g (reset_proxy g id)
  proxied : (id slug : Text) → Step g (proxy_for g id slug).0
  removal_begun : (id : Text) → Step g (begin_removal g id)
  removal_ended : (id : Text) → count_of (lookup id g.removing) ≢ 0 → Step g (end_removal g id)

pub data Reach : Gateway → Type 0 where
  fresh : Reach new_gateway
  later : {g h : Gateway} → Reach g → Step g h → Reach h
