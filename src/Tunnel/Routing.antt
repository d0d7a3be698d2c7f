-- ===== src/Tunnel/Routing.antt =====
-- How a visitor's host and path name a tunnel: PublicHost and ParseSubdomainSlug of
-- internal/tunnel/tunnel.go, servePathMode, serveHostMode and the loads by slug of
-- internal/tunnel/gateway.go. The rows of the table come in the order in which SQLite yields them.
pub mod Hosts
pub mod Paths
mod Tests
use meshbridge.Base.{
  ℕ, ◌+◌, ◌-◌, Bool, true, false, ◌&&◌, ◌||◌, not, Option, none, some, List, [], ◌∷◌, ◌++◌, ◌==◌,
  ltb, leb, if◌then◌else◌, length, take, drop, all, any,
}
use meshbridge.Base.Text.{
  Text, codes, text_eq, has_prefix, has_suffix, strip, trim_prefix, cut, to_lower,
}
use meshbridge.Tunnel.{Tunnel}
use meshbridge.Tunnel.Visitor.{path_prefix}
use mathlib.Core.List.{reverse}

unfoldable pub subdomain_label : Text → Text
subdomain_label slug = codes "t-" ++ (if ltb 12 (length slug) then take 12 slug else slug)

unfoldable pub public_host : Text → Text → Text
public_host label base_domain = label ++ b'.' ∷ base_domain

unfoldable pub holds : ℕ → Text → Bool
holds c = any (λ d. d == c)

-- net.SplitHostPort behind an opening bracket: the host up to the closing one, then a colon and a port.
unfoldable pub split_bracketed : Text × Text × Bool → Option Text
unfolding holds
split_bracketed (host, c ∷ port, true) =
    if c == b':'
      && not (holds b':' port)
      && not (holds b'[' host)
      && not (holds b'[' port)
      && not (holds b']' port)
    then some host
    else none
split_bracketed (host, _, _) = none

-- The last colon, found from the end.
unfoldable pub split_plain : Text × Text × Bool → Option Text
unfolding holds
split_plain (port, host, found) =
    if found
      && not (holds b':' host)
      && not (holds b'[' host)
      && not (holds b'[' port)
      && not (holds b']' host)
      && not (holds b']' port)
    then some (reverse host)
    else none

-- The host of net.SplitHostPort, `none` for its errors.
unfoldable pub split_host : Text → Option Text
unfolding split_bracketed split_plain cut
split_host [] = none
split_host (c ∷ s) =
    if c == b'[' then split_bracketed (cut s b']') else split_plain (cut (reverse (c ∷ s)) b':')

unfoldable pub without_port : Text → Option Text → Text
without_port host none = host
without_port host (some hn) = hn

unfoldable pub is_hex : ℕ → Bool
is_hex c = (leb b'0' c && leb c b'9') || (leb b'a' c && leb c b'f')

-- What stands behind `t-` when it is hexadecimal and not empty.
unfoldable pub hex_label : Option Text → Text
unfolding is_hex
hex_label none = []
hex_label (some rest) = if all is_hex rest then rest else []

unfoldable pub parse_label : Text → Text → Text
unfolding has_suffix hex_label strip
parse_label h suffix =
    if not (has_suffix h suffix) || leb (length h) (length suffix + 2)
    then []
    else hex_label (strip (codes "t-") (take (length h - length suffix) h))

unfoldable pub parse_subdomain_slug : Text → Text → Text
unfolding text_eq without_port split_host parse_label
parse_subdomain_slug host base_domain =
    if text_eq base_domain []
    then []
    else parse_label (without_port host (split_host host)) (b'.' ∷ base_domain)

-- The first row that passes a test: QueryRow and Scan.
unfoldable pub first_row : (Tunnel → Bool) → List Tunnel → Option Tunnel
first_row p [] = none
first_row p (t ∷ rows) = let rest = first_row p rows in if p t then some t else rest

unfoldable pub load_by_slug : List Tunnel → Text → Option Tunnel
unfolding first_row text_eq
load_by_slug rows slug =
    let found = first_row (λ t. text_eq t.slug slug) rows in
    if length slug == 32 then found else none

-- LIKE ignores the case of ASCII letters; a prefix of hexadecimal digits has no wildcard.
unfoldable pub has_slug_prefix : Text → Tunnel → Bool
unfolding has_prefix to_lower
has_slug_prefix prefix t = has_prefix (to_lower t.slug) (to_lower prefix) && length t.slug == 32

unfoldable pub load_by_slug_prefix : List Tunnel → Text → Option Tunnel
unfolding first_row has_slug_prefix
load_by_slug_prefix rows prefix = first_row (has_slug_prefix prefix) rows

-- What the routing ends in: net/http's own 404, the gateway's page, the permanent redirect, or
-- serveVisitor with the flag that the prefix is stripped.
pub data Route : Type 0 where
  not_found : Route
  no_tunnel : Route
  redirected : Text → Route
  visit : Tunnel → Bool → Route

unfoldable pub route_path : Text → Option Tunnel → Route
unfolding path_prefix text_eq
route_path path none = no_tunnel
route_path path (some t) =
    if not t.strip_prefix
    then visit t false
    else if text_eq path (path_prefix t.slug)
    then redirected (path ++ b'/' ∷ [])
    else visit t true

unfoldable pub serve_path_mode : List Tunnel → Text → Route
unfolding cut trim_prefix text_eq load_by_slug route_path
serve_path_mode rows path =
    let slug = (cut (trim_prefix path (codes "/t/")) b'/').0 in
    if text_eq slug [] then not_found else route_path path (load_by_slug rows slug)

unfoldable pub route_host : Option Tunnel → Route
route_host none = no_tunnel
route_host (some t) = visit t false

unfoldable pub serve_host_mode : List Tunnel → Text → Text → Route
unfolding parse_subdomain_slug text_eq load_by_slug_prefix route_host
serve_host_mode rows base_domain host =
    let prefix = parse_subdomain_slug host base_domain in
    if text_eq prefix [] then not_found else route_host (load_by_slug_prefix rows prefix)
