-- ===== src/Policy.antt =====
-- internal/policy/policy.go: Render, Validate and Slugify. The keys of a grant's App are a list, as
-- their values are empty.
pub mod Isolation
pub mod Slugs
pub mod Validity
mod Tests
use meshbridge.Base.{
  ℕ, ◌+◌, ◌-◌, Bool, true, false, ◌&&◌, ◌||◌, not, Option, none, some, List, [], ◌∷◌, ◌++◌, map,
  ◌==◌, ltb, leb, if◌then◌else◌, length, take, any, zero, suc,
}
use meshbridge.Base.Dict.{Dict, insert}
use meshbridge.Base.Text.{
  Text, codes, text_eq, eq_text, has_suffix, contains, to_lower, trim, trim_space,
}

pub record Relay : Type 0 where
  pub name : Text
  pub tag : Text
  pub region : Text

-- The devices of the source's Input are not read.
pub record Input : Type 0 where
  pub projects : List Text
  pub relays : List Relay
  pub owner_user : Text

pub record Grant : Type 0 where
  pub src : List Text
  pub dst : List Text
  pub ip : List Text
  pub app : List Text

pub record Policy : Type 0 where
  pub tag_own : Dict Text (List Text)
  pub grants : List Grant

-- Go's `<=` on strings.
unfoldable pub text_le : Text → Text → Bool
text_le [] t = true
text_le (a ∷ s) [] = false
text_le (a ∷ s) (b ∷ t) = let rest = text_le s t in if a == b then rest else ltb a b

unfoldable pub place : Text → List Text → List Text
unfolding text_le
place s [] = s ∷ []
place s (t ∷ ts) = if text_le s t then s ∷ t ∷ ts else t ∷ place s ts

-- sort.Strings: the one sorted order of the texts.
unfoldable pub sort_strings : List Text → List Text
unfolding place
sort_strings [] = []
sort_strings (s ∷ ts) = place s (sort_strings ts)

unfoldable pub project_tag : Text → Text
project_tag slug = codes "tag:project-" ++ slug

abbrev pub admin_tag : Text
admin_tag = codes "tag:admin-device"

abbrev pub relay_cap : Text
relay_cap = codes "tailscale.com/cap/relay"

unfoldable pub owner_of : Text → Text
unfolding text_eq has_suffix
owner_of user =
    let owner = if text_eq user [] then codes "admin@" else user in
    if has_suffix owner (codes "@") then owner else owner ++ codes "@"

unfoldable pub owned_by : List Text → List Text → Dict Text (List Text) → Dict Text (List Text)
unfolding project_tag
owned_by owners [] own = own
owned_by owners (slug ∷ slugs) own = owned_by owners slugs (
    insert (codes "tag:role-prod") owners
      (insert (codes "tag:role-dev") owners (insert (project_tag slug) owners own)))

unfoldable pub mesh_grant : Text → Grant
unfolding project_tag
mesh_grant slug = record {
  src = project_tag slug ∷ [];
  dst = project_tag slug ∷ [];
  ip = codes "*" ∷ [];
  app = [];
}

unfoldable pub ssh_grants : List Text → List Grant
unfolding project_tag
ssh_grants [] = []
ssh_grants (slug ∷ slugs) =
    record {
      src = admin_tag ∷ [];
      dst = map project_tag (slug ∷ slugs);
      ip = codes "tcp:22" ∷ [];
      app = [];
    }
    ∷ []

unfoldable pub relay_grant : Text → Relay → Grant
unfolding project_tag
relay_grant slug r = record {
  src = project_tag slug ∷ [];
  dst = r.tag ∷ [];
  ip = [];
  app = relay_cap ∷ [];
}

unfoldable pub relay_grants : List Relay → List Text → List Grant
unfolding relay_grant
relay_grants relays [] = []
relay_grants relays (slug ∷ slugs) = map (relay_grant slug) relays ++ relay_grants relays slugs

unfoldable pub render : Input → Policy
unfolding owner_of owned_by sort_strings mesh_grant ssh_grants relay_grants
render in_ =
    let owners = owner_of in_.owner_user ∷ [] in
    let slugs = sort_strings in_.projects in
    record {
      tag_own = owned_by owners in_.projects (insert admin_tag owners []);
      grants = map mesh_grant slugs ++ ssh_grants slugs ++ relay_grants in_.relays slugs;
    }

unfoldable pub is_wildcard : Text → Bool
unfolding text_eq
is_wildcard s = text_eq s (codes "*") || text_eq s (codes "autogroup:danger-all")

unfoldable pub bad_dst : Text → Bool
unfolding text_eq contains
bad_dst d = contains d (codes " ") || text_eq d []

unfoldable pub bad_grant : Grant → Bool
unfolding is_wildcard bad_dst text_eq
bad_grant g = (any is_wildcard g.src && any (λ k. text_eq k relay_cap) g.app) || any bad_dst g.dst

-- The index of the first grant that is refused.
unfoldable pub validate_from : ℕ → List Grant → Option ℕ
unfolding bad_grant
validate_from i [] = none
validate_from i (g ∷ grants) =
    let rest = validate_from (i + 1) grants in if bad_grant g then some i else rest

unfoldable pub validate : Policy → Option ℕ
unfolding validate_from
validate p = validate_from 0 p.grants

-- What Slugify writes for one character.
unfoldable pub slug_char : ℕ → Text
slug_char c =
    if (leb b'a' c && leb c b'z') || (leb b'0' c && leb c b'9')
    then c ∷ []
    else if c == b' ' || c == b'_' || c == b'-'
    then b'-' ∷ []
    else []

unfoldable pub slug_chars : Text → Text
unfolding slug_char
slug_chars [] = []
slug_chars (c ∷ s) = slug_char c ++ slug_chars s

-- strings.ReplaceAll of two dashes by one, from the left.
unfoldable pub halve_dashes : Text → Text
halve_dashes [] = []
halve_dashes (a ∷ []) = a ∷ []
halve_dashes (a ∷ b ∷ s) =
    let both = halve_dashes s in
    let one = halve_dashes (b ∷ s) in if a == b'-' && b == b'-' then b'-' ∷ both else a ∷ one

-- `for strings.Contains(out, "--")`.
unfoldable pub single_dashes : ℕ → Text → Text
unfolding halve_dashes contains
single_dashes zero s = s
single_dashes (suc fuel) s =
    let rest = single_dashes fuel (halve_dashes s) in if contains s (codes "--") then rest else s

unfoldable pub or_proj : Text → Text
or_proj [] = codes "proj"
or_proj (c ∷ s) = c ∷ s

-- The name is ASCII.
unfoldable pub slugify : Text → Text
unfolding slug_chars single_dashes to_lower trim trim_space or_proj
slugify name =
    let out = trim (λ c. c == b'-') (slug_chars (to_lower (trim_space name))) in
    or_proj (single_dashes (length out) out)
