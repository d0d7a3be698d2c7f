-- ===== src/Tunnel/Routing/Paths.antt =====
-- internal/tunnel/gateway.go: the two modes of routing on the links that the program shows.
use meshbridge.Base.{
  ℕ, ◌≤◌, ◌≡◌, ◌≢◌, ◌∙◌, refl, sym, ap, subst, Bool, true, false, Option, zero, suc, none, some,
  List, [], ◌∷◌, ◌++◌, map, length, length-append, take, drop, take-append-drop, all, All, if_elim,
  Bool-cases, inl, inr, arith, ◌==◌,
}
use meshbridge.Base.Text.{
  Text, codes, text_eq, text_eq_iff, has_prefix, has_prefix-append, trim_prefix, strip, cut,
  cut-append, to_lower, lower,
}
use mathlib.Core.List.{map-append}
use meshbridge.Tunnel.{Tunnel}
use meshbridge.Tunnel.Visitor.{path_prefix}
use meshbridge.Tunnel.Routing.{
  visit, first_row, load_by_slug, has_slug_prefix, load_by_slug_prefix, route_path, serve_path_mode,
  serve_host_mode, subdomain_label, public_host, holds, is_hex,
}
use meshbridge.Tunnel.Routing.Hosts.{parse_subdomain_slug-public_host}

row_passes : (Tunnel → Bool) → Option Tunnel → Bool
row_passes p none = true
row_passes p (some v) = p v

first_row-passes :
    (p : Tunnel → Bool) (rows : List Tunnel) (t : Tunnel) → first_row p rows ≡ some t → p t ≡ true
unfolding first_row row_passes
first_row-passes p [] t = λ h. absurd (cc)
first_row-passes p (u ∷ rows) t =
    if_elim (λ (o : Option Tunnel). o ≡ some t → p t ≡ true) (p u)
      (λ passes h. subst (λ o. row_passes p o ≡ true) h passes) (λ _ h. first_row-passes p rows t h)

-- A row that passes is enough for some row to be found, and the one found passes.
first_row-found :
    (p : Tunnel → Bool) (rows : List Tunnel) (t : Tunnel) (more : List Tunnel)
    → p t ≡ true
    → (u : Tunnel) × (first_row p (rows ++ t ∷ more) ≡ some u) × (p u ≡ true)
unfolding first_row
first_row-found p [] t more h = (t, rw h refl, h)
first_row-found p (v ∷ rows) t more h = elim (Bool-cases (p v)) [
  | inl passes ↦ (v, rw passes refl, passes)
  | inr fails ↦ rw fails (first_row-found p rows t more h)
]

load_by_slug-slug :
    (rows : List Tunnel) (slug : Text) (t : Tunnel)
    → load_by_slug rows slug ≡ some t
    → t.slug ≡ slug
unfolding load_by_slug
load_by_slug-slug rows slug t =
    if_elim (λ o. o ≡ some t → t.slug ≡ slug) (length slug == 32)
      (λ _ h. (text_eq_iff t.slug slug).0 (first_row-passes (λ u. text_eq u.slug slug) rows t h))
      (λ _ h. absurd (cc))

different_length : (s t : Text) → length s ≢ length t → text_eq s t ≡ false
different_length s t h = elim (Bool-cases (text_eq s t)) [
  | inl same ↦ absurd (h (ap length ((text_eq_iff s t).0 same)))
  | inr differ ↦ differ
]

-- The slug that is cut from a public path.
slug_of-path :
    (slug rest : Text)
    → All (λ c. c ≢ b'/') slug
    → (cut (trim_prefix (path_prefix slug ++ b'/' ∷ rest) (codes "/t/")) b'/').0 ≡ slug
unfolding trim_prefix path_prefix strip
slug_of-path slug rest plain = ap (λ p. p.0) (cut-append slug rest b'/' plain)

is_named : (slug : Text) → 1 ≤ length slug → text_eq slug [] ≡ false
is_named slug h = different_length slug [] (λ e. absurd (omega arith))

longer_path :
    (slug rest : Text) → length (path_prefix slug ++ b'/' ∷ rest) ≢ length (path_prefix slug)
longer_path slug rest e = absurd (omega (arith, length-append (path_prefix slug) (b'/' ∷ rest)))

stripped_or_whole :
    (path : Text) (t : Tunnel)
    → text_eq path (path_prefix t.slug) ≡ false
    → route_path path (some t) ≡ visit t t.strip_prefix
unfolding route_path
stripped_or_whole path t whole = elim (Bool-cases t.strip_prefix) [
  | inl h ↦ ground (arith, whole, h)
  | inr h ↦ ground (arith, whole, h)
]

-- A path below the public prefix of a slug without a slash is served by the tunnel with this slug, stripped or whole
-- as the tunnel is configured, and is never redirected.
pub serve_path_mode-path_prefix :
    (rows : List Tunnel) (slug rest : Text) (t : Tunnel)
    → All (λ c. c ≢ b'/') slug
    → 1 ≤ length slug
    → load_by_slug rows slug ≡ some t
    → (serve_path_mode rows (path_prefix slug ++ b'/' ∷ rest) ≡ visit t t.strip_prefix)
      × (t.slug ≡ slug)
unfolding serve_path_mode route_path
serve_path_mode-path_prefix rows slug rest t plain named found =
    let path : Text = path_prefix slug ++ b'/' ∷ rest in
    let own : t.slug ≡ slug = load_by_slug-slug rows slug t found in
    let longer : length path ≢ length (path_prefix t.slug) =
      subst (λ s. length path ≢ length (path_prefix s)) (sym own) (longer_path slug rest) in
    let whole : text_eq path (path_prefix t.slug) ≡ false =
      different_length path (path_prefix t.slug) longer in
    let routed : route_path path (some t) ≡ visit t t.strip_prefix =
      stripped_or_whole path t whole in
    (rw (slug_of-path slug rest plain, is_named slug named, found) routed, own)

own_prefix : (t : Tunnel) → length t.slug ≡ 32 → has_slug_prefix (take 12 t.slug) t ≡ true
unfolding has_slug_prefix to_lower
own_prefix t size =
    let parts : map lower t.slug ≡ map lower (take 12 t.slug) ++ map lower (drop 12 t.slug) =
      ap (map lower) (sym (take-append-drop 12 t.slug))
      ∙ map-append lower (take 12 t.slug) (drop 12 t.slug) in
    let begins : has_prefix (map lower t.slug) (map lower (take 12 t.slug)) ≡ true =
      subst (λ s. has_prefix s (map lower (take 12 t.slug)) ≡ true) (sym parts)
        (has_prefix-append (map lower (take 12 t.slug)) (map lower (drop 12 t.slug))) in
    ground (arith, begins, size)

slug_prefix_parts :
    (prefix : Text) (u : Tunnel)
    → has_slug_prefix prefix u ≡ true
    → (has_prefix (to_lower u.slug) (to_lower prefix) ≡ true) × (length u.slug ≡ 32)
unfolding has_slug_prefix
slug_prefix_parts prefix u h = (ground arith, ground arith)

long_take : (n : ℕ) (s : Text) → 1 ≤ n → 1 ≤ length s → 1 ≤ length (take n s)
long_take zero s h k = absurd (omega arith)
long_take (suc n) [] h k = k
long_take (suc n) (c ∷ s) h k = omega arith

-- Whatever other rows match as well and wherever they stand, the host shown for a tunnel leads to
-- some tunnel, whose slug begins with the same twelve digits: a prefix that several share resolves.
pub serve_host_mode-public_host :
    (before behind : List Tunnel) (t : Tunnel) (base_domain : Text)
    → all is_hex t.slug ≡ true
    → length t.slug ≡ 32
    → 1 ≤ length base_domain
    → holds b':' base_domain ≡ false
    → (u : Tunnel) × (serve_host_mode
          (before ++ t ∷ behind)
          base_domain
          (public_host (subdomain_label t.slug) base_domain)
        ≡ visit u false)
      × (has_prefix (to_lower u.slug) (to_lower (take 12 t.slug)) ≡ true)
      × (length u.slug ≡ 32)
unfolding serve_host_mode load_by_slug_prefix
serve_host_mode-public_host before behind t base_domain hex size named clear =
    let prefix : Text = take 12 t.slug in
    let parsed =
      parse_subdomain_slug-public_host t.slug base_domain hex (omega arith) named clear in
    let (u, found, passes) =
      first_row-found (has_slug_prefix prefix) before t behind (own_prefix t size) in
    let (begins, long) = slug_prefix_parts prefix u passes in
    let some_digit : text_eq prefix [] ≡ false =
      is_named prefix (long_take 12 t.slug (omega arith) (omega arith)) in
    (u, rw (parsed, some_digit, found) refl, begins, long)
