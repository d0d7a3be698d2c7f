-- ===== src/Tunnel/Routing/Hosts.antt =====
-- internal/tunnel/tunnel.go: SubdomainLabel, PublicHost and ParseSubdomainSlug against each other.
use meshbridge.Base.{
  ℕ, ◌+◌, ◌-◌, ◌≤◌, ◌≡◌, ◌≢◌, ◌∙◌, refl, sym, ap, subst, Bool, true, false, ◌||◌, not, Option, none,
  some, [], ◌∷◌, ◌++◌, ltb, leb, length, length-append, take, all, if_elim, if◌then◌else◌, arith,
  suc, zero, ◌==◌,
}
use meshbridge.Base.Text.{
  Text, codes, text_eq, has_prefix, has_suffix, strip, has_prefix-append, cut,
}
use mathlib.Core.List.{reverse, reverse-append, reverse-cons}
use meshbridge.Tunnel.Routing.{
  subdomain_label, public_host, holds, split_plain, split_host, without_port, is_hex, hex_label,
  parse_label, parse_subdomain_slug,
}

has_suffix-append : (s t : Text) → has_suffix (s ++ t) t ≡ true
unfolding has_suffix
has_suffix-append s t =
    subst (λ r. has_prefix r (reverse t) ≡ true) (sym (reverse-append s t))
      (has_prefix-append (reverse t) (reverse s))

take-append : (s t : Text) → take (length s) (s ++ t) ≡ s
take-append [] t = refl
take-append (c ∷ s) t = ap (λ r. c ∷ r) (take-append s t)

holds-append : (c : ℕ) (s t : Text) → holds c (s ++ t) ≡ (holds c s || holds c t)
unfolding holds
holds-append c [] t = refl
holds-append c (d ∷ s) t = ground (arith, holds-append c s t)

holds-reverse : (c : ℕ) (s : Text) → holds c (reverse s) ≡ holds c s
unfolding holds
holds-reverse c [] = refl
holds-reverse c (d ∷ s) =
    rw (reverse-cons d s, holds-append c (reverse s) (d ∷ []), holds-reverse c s) (ground arith)

cut_absent : (c : ℕ) (s : Text) → holds c s ≡ false → (cut s c).2 ≡ false
unfolding holds cut
cut_absent c [] h = refl
cut_absent c (d ∷ s) h = ground (arith, cut_absent c s)

all-take : (n : ℕ) (s : Text) → all is_hex s ≡ true → all is_hex (take n s) ≡ true
all-take zero s h = refl
all-take (suc n) [] h = refl
all-take (suc n) (c ∷ s) h = ground (arith, all-take n s)

hex_clear : (s : Text) → all is_hex s ≡ true → holds b':' s ≡ false
unfolding holds is_hex
hex_clear [] h = refl
hex_clear (c ∷ s) h = ground (arith, hex_clear s)

split_plain-none : (p : Text × Text × Bool) → p.2 ≡ false → split_plain p ≡ none
unfolding split_plain
split_plain-none (port, host, found) h = rw h refl

-- A host without a colon has no port to split off.
split_host-none :
    (c : ℕ) (s : Text) → c ≢ b'[' → holds b':' (c ∷ s) ≡ false → split_host (c ∷ s) ≡ none
unfolding split_host
split_host-none c s plain h =
    let absent : (cut (reverse (c ∷ s)) b':').2 ≡ false =
      cut_absent b':' (reverse (c ∷ s)) (holds-reverse b':' (c ∷ s) ∙ h) in
    if_elim (λ (o : Option Text). o ≡ none) (c == b'[') (λ bracket. absurd (ground arith))
      (λ _. split_plain-none (cut (reverse (c ∷ s)) b':') absent)

parse_label-append :
    (s suffix : Text)
    → all is_hex s ≡ true
    → 1 ≤ length s
    → parse_label (codes "t-" ++ s ++ suffix) suffix ≡ s
unfolding parse_label hex_label strip
parse_label-append s suffix hex some_digit =
    let label : Text = b't' ∷ b'-' ∷ s in
    let kept : take (length (label ++ suffix) - length suffix) (label ++ suffix) ≡ label =
      subst (λ n. take n (label ++ suffix) ≡ label)
        (let e : length label ≡ length (label ++ suffix) - length suffix =
            omega (arith, length-append label suffix) in
          e)
        (take-append label suffix) in
    let long : leb (length (label ++ suffix)) (length suffix + 2) ≡ false =
      ground (arith, length-append label suffix) in
    rw (has_suffix-append label suffix, long, kept, hex) refl

take_all : (n : ℕ) (s : Text) → length s ≤ n → take n s ≡ s
take_all zero [] h = refl
take_all zero (c ∷ s) h = absurd (omega arith)
take_all (suc n) [] h = refl
take_all (suc n) (c ∷ s) h = ap (λ t. c ∷ t) (take_all n s (omega arith))

length-take : (n : ℕ) (s : Text) → 1 ≤ n → 1 ≤ length s → 1 ≤ length (take n s)
length-take zero s h k = absurd (omega arith)
length-take (suc n) [] h k = k
length-take (suc n) (c ∷ s) h k = omega arith

is_named : (base_domain : Text) → 1 ≤ length base_domain → text_eq base_domain [] ≡ false
unfolding text_eq
is_named [] h = absurd (omega arith)
is_named (c ∷ s) h = refl

shortened : (slug : Text) → (if ltb 12 (length slug) then take 12 slug else slug) ≡ take 12 slug
shortened slug =
    if_elim (λ t. t ≡ take 12 slug) (ltb 12 (length slug)) (λ _. refl)
      (λ h. sym (take_all 12 slug (ground arith)))

-- The host that is shown for a slug of hexadecimal digits names its first twelve, under every base
-- domain without a colon.
pub parse_subdomain_slug-public_host :
    (slug base_domain : Text)
    → all is_hex slug ≡ true
    → 1 ≤ length slug
    → 1 ≤ length base_domain
    → holds b':' base_domain ≡ false
    → parse_subdomain_slug (public_host (subdomain_label slug) base_domain) base_domain
      ≡ take 12 slug
unfolding parse_subdomain_slug public_host subdomain_label without_port
parse_subdomain_slug-public_host slug base_domain hex some_digit named clear =
    let p : Text = take 12 slug in
    let digits : all is_hex p ≡ true = all-take 12 slug hex in
    let host : Text = b't' ∷ b'-' ∷ p ++ b'.' ∷ base_domain in
    let colons : holds b':' host ≡ false =
      rw (holds-append b':' p (b'.' ∷ base_domain), hex_clear p digits, clear) refl in
    let whole : split_host host ≡ none =
      split_host-none b't' (b'-' ∷ p ++ b'.' ∷ base_domain) (omega arith) colons in
    let parsed : parse_subdomain_slug host base_domain ≡ p =
      rw (is_named base_domain named, whole)
        (parse_label-append p (b'.' ∷ base_domain) digits
          (length-take 12 slug (omega arith) some_digit)) in
    subst (λ q. parse_subdomain_slug (b't' ∷ b'-' ∷ q ++ b'.' ∷ base_domain) base_domain ≡ p)
      (sym (shortened slug)) parsed

is_hex-hex_label : (rest : Option Text) → all is_hex (hex_label rest) ≡ true
unfolding hex_label
is_hex-hex_label none = refl
is_hex-hex_label (some rest) =
    if_elim (λ t. all is_hex t ≡ true) (all is_hex rest) (λ h. h) (λ _. refl)

-- Whatever host comes, what reaches the query is hexadecimal: none of LIKE's wildcards can stand in it.
is_hex-parse_subdomain_slug :
    (host base_domain : Text) → all is_hex (parse_subdomain_slug host base_domain) ≡ true
unfolding parse_subdomain_slug parse_label
is_hex-parse_subdomain_slug host base_domain =
    let hex : Text → Type 0 = λ t. all is_hex t ≡ true in
    let h : Text = without_port host (split_host host) in
    if_elim hex (text_eq base_domain []) (λ _. refl)
      (λ _.
        if_elim hex
          (not (has_suffix h (b'.' ∷ base_domain))
            || leb (length h) (length (b'.' ∷ base_domain) + 2))
          (λ _. refl)
          (λ _.
            is_hex-hex_label
              (strip (codes "t-") (take (length h - length (b'.' ∷ base_domain)) h))))
