-- ===== src/Tunnel/Routing/Tests.antt =====
-- Two tunnels whose slugs share their first twelve digits.
use meshbridge.Base.{
  ◌≡◌, ◌≢◌, refl, true, false, some, [], ◌∷◌, ◌++◌, take, length, All, arith, all,
}
use meshbridge.Base.Text.{Text, codes, text_eq, has_prefix, to_lower}
use meshbridge.Tunnel.{Tunnel}
use meshbridge.Tunnel.Visitor.{path_prefix}
use meshbridge.Tunnel.Routing.{
  visit, first_row, load_by_slug, serve_path_mode, serve_host_mode, subdomain_label, public_host,
  parse_subdomain_slug, is_hex, holds,
}
use meshbridge.Tunnel.Routing.Hosts.{parse_subdomain_slug-public_host}
use meshbridge.Tunnel.Routing.Paths.{serve_path_mode-path_prefix, serve_host_mode-public_host}

abbrev named : Text → Tunnel
named slug = record {
  id = codes "i";
  device_id = codes "d";
  name = codes "n";
  slug = slug;
  target_scheme = codes "http";
  target_host = codes "127.0.0.1";
  target_port = 80;
  key_required = false;
  access_key_hash = [];
  status = codes "active";
  strip_prefix = true;
  sandbox = true;
  monthly_quota_byte = 0;
  max_request_bytes = 0;
  created_by = [];
  created_at = 0;
  updated_at = 0;
}

abbrev one : Text
one = codes "0123456789abcdef0123456789abcdef"

abbrev two : Text
two = codes "0123456789abffff0123456789abcdef"

one_hex : all is_hex one ≡ true
unfolding is_hex
one_hex = refl

clear : holds b':' (codes "a.io") ≡ false
unfolding holds
clear = refl

parse_subdomain_slug-public_host_example :
    parse_subdomain_slug (public_host (subdomain_label one) (codes "a.io")) (codes "a.io")
    ≡ take 12 one
parse_subdomain_slug-public_host_example =
    parse_subdomain_slug-public_host one (codes "a.io") one_hex (omega arith) (omega arith) clear

found_one : load_by_slug (named two ∷ named one ∷ []) one ≡ some (named one)
unfolding load_by_slug first_row text_eq
found_one = refl

no_slash : All (λ c. c ≢ b'/') (codes "0123456789abcdef0123456789abcdef")
no_slash = ground arith

serve_path_mode-path_prefix_example :
    (serve_path_mode (named two ∷ named one ∷ []) (path_prefix one ++ codes "/x")
      ≡ visit (named one) true)
    × (one ≡ one)
serve_path_mode-path_prefix_example =
    serve_path_mode-path_prefix (named two ∷ named one ∷ []) one (codes "x") (named one) no_slash
      (omega arith) found_one

serve_host_mode-public_host_example :
    (u : Tunnel) × (serve_host_mode
        (named two ∷ named one ∷ [])
        (codes "a.io")
        (public_host (subdomain_label one) (codes "a.io"))
      ≡ visit u false)
    × (has_prefix (to_lower u.slug) (to_lower (take 12 one)) ≡ true)
    × (length u.slug ≡ 32)
serve_host_mode-public_host_example =
    serve_host_mode-public_host (named two ∷ []) [] (named one) (codes "a.io") one_hex refl
      (omega arith) clear
