-- ===== src/Policy/Tests.antt =====
-- Two projects and a relay.
use meshbridge.Base.{◌≤◌, ◌≡◌, refl, true, false, [], ◌∷◌, All, all, length}
use meshbridge.Base.Text.{
  codes, text_eq, has_prefix, is_found, strip, contains, trim, trim_left, trim_space, is_space,
  to_lower, lower,
}
use meshbridge.Policy.{
  Relay, Input, render, bad_dst, slugify, slug_char, slug_chars, halve_dashes, single_dashes,
  or_proj, is_wildcard,
}
use meshbridge.Policy.Isolation.{Isolated, IsRelayTag, render-Isolated}
use meshbridge.Policy.Slugs.{is_slug_char, slugify-slug}
use meshbridge.Policy.Validity.{IsTag}

abbrev tokyo : Relay
tokyo = record { name = codes "relay-jp-01"; tag = codes "tag:relay-jp"; region = codes "jp" }

abbrev two : Input
two = record { projects = codes "b" ∷ codes "a" ∷ []; relays = tokyo ∷ []; owner_user = [] }

tokyo-IsRelayTag : IsRelayTag tokyo
unfolding has_prefix is_found strip is_wildcard text_eq
tokyo-IsRelayTag = (refl, refl)

tokyo-IsTag : IsTag tokyo
unfolding bad_dst contains has_prefix is_found strip text_eq
tokyo-IsTag = refl

render-Isolated_example : All (Isolated two.relays) (render two).grants
render-Isolated_example = render-Isolated two (tokyo-IsRelayTag, tt)

slugify-slug_example :
    (all is_slug_char (slugify (codes " My__App ")) ≡ true)
    × (contains (slugify (codes " My__App ")) (codes "--") ≡ false)
    × (1 ≤ length (slugify (codes " My__App ")))
slugify-slug_example = slugify-slug (codes " My__App ")

my_app : slugify (codes " My__App ") ≡ codes "my-app"
unfolding slugify slug_char slug_chars halve_dashes single_dashes or_proj trim trim_left trim_space
    is_space to_lower lower contains has_prefix is_found strip
my_app = refl
