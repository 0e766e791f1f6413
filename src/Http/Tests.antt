-- ===== src/Http/Tests.antt =====
-- Tests of the parts of src/http/http_server.cpp.
use natt.Prelude.{◌≡◌, refl, [], txt, lookup, text_eq}
use natt.Http.{network_or_default, configured_cidr}
use natt.Config.{load_default}

-- A network that the configuration does not name has the default subnet.
configured_run :
    (configured_cidr (txt "home") load_default.ipam.pools ≡ txt "10.0.0.0/16")
    × (configured_cidr (network_or_default []) load_default.ipam.pools ≡ txt "10.0.0.0/24")
    × (configured_cidr (txt "office") load_default.ipam.pools ≡ txt "10.0.0.0/24")
    × (configured_cidr (txt "office") [] ≡ txt "10.0.0.0/24")
unfolding configured_cidr network_or_default load_default lookup text_eq
configured_run = (refl, refl, refl, refl)
