-- ===== src/Tunnel/Agent.antt =====
-- internal/tunnel/agent.go, the agent's side: which tunnels it keeps open (Reconcile, Close) and how
-- long it waits to reconnect (run); TargetOK and AllowedBy of internal/tunnel/tunnel.go. The text form
-- of addresses is a parameter, and a network of --tunnel-allow is the set of addresses it contains.
pub mod Wanted
pub mod Restarts
pub mod Backoff
mod Tests
use meshbridge.Base.{
  ℕ, ◌+◌, ◌*◌, ◌/◌, Bool, true, false, ◌&&◌, ◌||◌, not, Option, none, some, List, [], ◌∷◌, ◌++◌,
  map, ◌==◌, ltb, leb, if◌then◌else◌, keep, any, zero, suc,
}
use meshbridge.Base.Dict.{Dict, lookup, insert}
use meshbridge.Base.Text.{Text, codes, text_eq, eq_text}

-- An address of four bytes, which an IPv6 address that maps one also is, or one of sixteen.
pub data Ip : Type 0 where
  v4 : ℕ → ℕ → ℕ → ℕ → Ip
  v6 : List ℕ → Ip

unfoldable pub is_loopback : Ip → Bool
unfolding text_eq
is_loopback (v4 a b c d) = a == 127
is_loopback (v6 bytes) =
    text_eq bytes (0 ∷ 0 ∷ 0 ∷ 0 ∷ 0 ∷ 0 ∷ 0 ∷ 0 ∷ 0 ∷ 0 ∷ 0 ∷ 0 ∷ 0 ∷ 0 ∷ 0 ∷ 1 ∷ [])

unfoldable pub is_private : Ip → Bool
is_private (v4 a b c d) = a == 10 || (a == 172 && leb 16 b && leb b 31) || (a == 192 && b == 168)
is_private (v6 []) = false
is_private (v6 (a ∷ bytes)) = a == 252 || a == 253

unfoldable pub is_cgnat : Ip → Bool
is_cgnat (v4 a b c d) = a == 100 && leb 64 b && leb b 127
is_cgnat (v6 bytes) = false

pub record AgentConfig : Type 0 where
  pub id : Text
  pub scheme : Text
  pub host : Text
  pub port : ℕ

pub data TargetError : Type 0 where
  bad_scheme no_literal not_local bad_port : TargetError

-- Go's `==` on the struct.
unfoldable pub same_config : AgentConfig → AgentConfig → Bool
unfolding text_eq
same_config s t =
    text_eq s.id t.id && text_eq s.scheme t.scheme && text_eq s.host t.host && s.port == t.port

-- `conns` holds the target of each running connection; `opened` and `cancelled` record the starts
-- and cancels.
pub record Client : Type 0 where
  pub conns : Dict Text AgentConfig
  pub opened : List AgentConfig
  pub cancelled : List Text

unfoldable pub wants : Option AgentConfig → AgentConfig → Bool
unfolding same_config
wants none target = false
wants (some w) target = same_config w target

unfoldable pub stop_stale : Dict Text AgentConfig → Client → Client
unfolding wants
stop_stale want c = record c {
  conns = keep (λ e. wants (lookup e.0 want) e.1) c.conns;
  cancelled = map (λ e. e.0) (keep (λ e. not (wants (lookup e.0 want) e.1)) c.conns) ++ c.cancelled;
}

unfoldable pub start_one : Text → AgentConfig → Client → Option AgentConfig → Client
start_one id t c none = record c { conns = insert id t c.conns; opened = t ∷ c.opened }
start_one id t c (some running) = c

unfoldable pub start_missing : Dict Text AgentConfig → Client → Client
unfolding start_one
start_missing [] c = c
start_missing ((id, t) ∷ want) c = start_missing want (start_one id t c (lookup id c.conns))

module _ (parse_ip : Text → Option Ip) where
  unfoldable pub checked_address : ℕ → Option Ip → Option TargetError
  unfolding is_loopback is_private is_cgnat
  checked_address port none = some no_literal
  checked_address port (some ip) =
      if not (is_loopback ip) && not (is_private ip) && not (is_cgnat ip)
      then some not_local
      else if ltb port 1 || ltb 65535 port
      then some bad_port
      else none

  unfoldable pub target_ok : Text → Text → ℕ → Option TargetError
  unfolding text_eq checked_address
  target_ok scheme host port =
      if text_eq scheme (codes "http") || text_eq scheme (codes "https")
      then checked_address port (parse_ip host)
      else some bad_scheme

  unfoldable pub allowed_address : List (Ip → Bool) → Option Ip → Bool
  unfolding is_loopback
  allowed_address extra none = false
  allowed_address extra (some ip) = is_loopback ip || any (λ n. n ip) extra

  unfoldable pub allowed_by : Text → List (Ip → Bool) → Bool
  unfolding allowed_address
  allowed_by host extra = allowed_address extra (parse_ip host)

  unfoldable pub no_error : Option TargetError → Bool
  no_error none = true
  no_error (some e) = false

  unfoldable pub acceptable : List (Ip → Bool) → AgentConfig → Bool
  unfolding no_error target_ok allowed_by
  acceptable allow t = no_error (target_ok t.scheme t.host t.port) && allowed_by t.host allow

  -- The map `want`: a later entry of the same tunnel replaces an earlier one.
  unfoldable pub wanted :
      List (Ip → Bool) → List AgentConfig → Dict Text AgentConfig → Dict Text AgentConfig
  unfolding acceptable
  wanted allow [] want = want
  wanted allow (t ∷ list) want =
      if acceptable allow t then wanted allow list (insert t.id t want) else wanted allow list want

  unfoldable pub reconcile : List (Ip → Bool) → List AgentConfig → Client → Client
  unfolding wanted stop_stale start_missing
  reconcile allow list c = let want = wanted allow list [] in start_missing want (stop_stale want c)

unfoldable pub close_client : Client → Client
close_client c = record c { conns = []; cancelled = map (λ e. e.0) c.conns ++ c.cancelled }

-- Nanoseconds.
abbrev pub one_second : ℕ
one_second = 1000000000

-- The backoff behind a failed connection.
unfoldable pub next_backoff : ℕ → ℕ
next_backoff backoff = if ltb backoff (60 * one_second) then backoff * 2 else backoff

unfoldable pub backoff_after : ℕ → ℕ
unfolding next_backoff
backoff_after zero = one_second
backoff_after (suc n) = next_backoff (backoff_after n)

-- `drawn` is rand.Int63n of the backoff.
unfoldable pub delay : ℕ → ℕ → ℕ
delay backoff drawn = backoff / 2 + drawn
