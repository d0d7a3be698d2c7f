-- ===== src/Policy/Validity.antt =====
-- internal/policy/policy.go: Validate on what Render makes.
use meshbridge.Base.{
  ℕ, ◌+◌, ◌≡◌, refl, true, false, none, List, [], ◌∷◌, ◌++◌, map, all, any, All, All-append,
  if_elim, arith,
}
use meshbridge.Base.Text.{Text, codes, text_eq, contains, has_prefix, is_found, strip}
use meshbridge.Policy.{
  Relay, Input, Grant, text_le, place, sort_strings, project_tag, mesh_grant, ssh_grants,
  relay_grant, relay_grants, render, is_wildcard, bad_dst, bad_grant, validate_from, validate,
}
use meshbridge.Policy.Slugs.{is_slug_char}

abbrev pub IsSlug : Text → Type 0
IsSlug s = all is_slug_char s ≡ true

abbrev pub IsTag : Relay → Type 0
IsTag r = bad_dst r.tag ≡ false

abbrev Good : Grant → Type 0
Good g = bad_grant g ≡ false

slug-clear : (s : Text) → IsSlug s → contains s (codes " ") ≡ false
unfolding contains has_prefix is_found strip
slug-clear [] h = refl
slug-clear (c ∷ s) h = ground (arith, slug-clear s)

project_tag-good : (s : Text) → IsSlug s → bad_dst (project_tag s) ≡ false
unfolding bad_dst project_tag contains has_prefix is_found strip text_eq
project_tag-good s h = rw (slug-clear s h) refl

project_tag-plain : (s : Text) → is_wildcard (project_tag s) ≡ false
unfolding is_wildcard project_tag text_eq
project_tag-plain s = refl

mesh-Good : (s : Text) → IsSlug s → Good (mesh_grant s)
unfolding bad_grant mesh_grant
mesh-Good s h = rw (project_tag-plain s, project_tag-good s h) refl

All-mesh : (slugs : List Text) → All IsSlug slugs → All Good (map mesh_grant slugs)
All-mesh [] h = tt
All-mesh (s ∷ slugs) (first, h) = (mesh-Good s first, All-mesh slugs h)

no_bad : (slugs : List Text) → All IsSlug slugs → any bad_dst (map project_tag slugs) ≡ false
no_bad [] h = refl
no_bad (s ∷ slugs) (first, h) = rw (project_tag-good s first, no_bad slugs h) refl

All-ssh : (slugs : List Text) → All IsSlug slugs → All Good (ssh_grants slugs)
unfolding ssh_grants bad_grant is_wildcard text_eq
All-ssh [] h = tt
All-ssh (s ∷ slugs) h = (no_bad (s ∷ slugs) h, tt)

relay-Good : (s : Text) (r : Relay) → IsTag r → Good (relay_grant s r)
unfolding bad_grant relay_grant
relay-Good s r h = rw (project_tag-plain s, h) refl

All-relay :
    (s : Text) (relays : List Relay) → All IsTag relays → All Good (map (relay_grant s) relays)
All-relay s [] h = tt
All-relay s (r ∷ relays) (first, h) = (relay-Good s r first, All-relay s relays h)

All-relays :
    (relays : List Relay) (slugs : List Text)
    → All IsTag relays
    → All Good (relay_grants relays slugs)
unfolding relay_grants
All-relays relays [] h = tt
All-relays relays (s ∷ slugs) h =
    All-append Good (map (relay_grant s) relays) (relay_grants relays slugs) (All-relay s relays h)
      (All-relays relays slugs h)

All-place : (s : Text) (ts : List Text) → IsSlug s → All IsSlug ts → All IsSlug (place s ts)
unfolding place
All-place s [] h hs = (h, tt)
All-place s (t ∷ ts) h (first, hs) =
    if_elim (λ (r : List Text). All IsSlug r) (text_le s t) (λ _. (h, (first, hs)))
      (λ _. (first, All-place s ts h hs))

All-sort_strings : (ts : List Text) → All IsSlug ts → All IsSlug (sort_strings ts)
unfolding sort_strings
All-sort_strings [] h = tt
All-sort_strings (s ∷ ts) (first, h) = All-place s (sort_strings ts) first (All-sort_strings ts h)

validate_from-Good : (i : ℕ) (grants : List Grant) → All Good grants → validate_from i grants ≡ none
unfolding validate_from
validate_from-Good i [] h = refl
validate_from-Good i (g ∷ grants) (first, h) = rw first (validate_from-Good (i + 1) grants h)

-- The policy rendered from slugs of letters, digits and dashes and from relay tags that are neither
-- empty nor hold a space is one that Validate takes.
pub validate-render :
    (in_ : Input) → All IsSlug in_.projects → All IsTag in_.relays → validate (render in_) ≡ none
unfolding validate render
validate-render in_ hs hr =
    let slugs : List Text = sort_strings in_.projects in
    let sorted : All IsSlug slugs = All-sort_strings in_.projects hs in
    validate_from-Good 0 (map mesh_grant slugs ++ ssh_grants slugs ++ relay_grants in_.relays slugs)
      (All-append Good (map mesh_grant slugs ++ ssh_grants slugs) (relay_grants in_.relays slugs)
        (All-append Good (map mesh_grant slugs) (ssh_grants slugs) (All-mesh slugs sorted)
          (All-ssh slugs sorted))
        (All-relays in_.relays slugs hr))
