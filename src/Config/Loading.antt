-- ===== src/Config/Loading.antt =====
-- What src/config/config.cpp takes from a file.
use natt.Prelude.{
  ◌≡◌, refl, sym, ap, ◌∙◌, arith, true, Option, none, some, List, [], ◌∷◌, if◌then◌else◌, Text, txt,
  Dict, insert, lookup, lookup-insert, text_eq,
}
use natt.Json.{◌>>=◌, bind-some}
use natt.Config.{
  Yaml, IpamConfig, Config, load_default, section, read_server, read_database, read_jwt,
  read_websocket, read_logging, read_admin, read_tls, read_ipam, read_pools, read_config, load,
}

some_inj : {A : Type 0} {x y : A} → some x ≡ some y → x ≡ y
some_inj e = cc

module _ (yaml : Yaml) where
  open yaml use {Node, member_of, as_string, pairs}

  -- The subnet that the last pair of a name gives, or else the one of the map.
  unfoldable pub last_subnet : Text → List (Node × Node) → Option Text → Option Text
  last_subnet name [] before = before
  last_subnet name ((n, s) ∷ rest) before = last_subnet name rest (elim (as_string n) [
    | none ↦ before
    | some key ↦ if text_eq key name then as_string s else before
  ])

  -- Pools that are read are those of the last pair of each name.
  read_pools-lookup :
      (rest : List (Node × Node)) (pools after : Dict Text) (name : Text)
      → read_pools yaml rest pools ≡ some after
      → lookup name after ≡ last_subnet name rest (lookup name pools)
  unfolding read_pools last_subnet
  read_pools-lookup [] pools after name e = ap (lookup name) (sym (some_inj e))
  read_pools-lookup ((n, s) ∷ rest) pools after name e =
      let (key, known, e') = bind-some (as_string n) _ after e in
      let (subnet, given, e'') = bind-some (as_string s) _ after e' in
      read_pools-lookup rest (insert key subnet pools) after name e''
      ∙ ap (last_subnet name rest) (lookup-insert key name subnet pools ∙ rw (known, given) refl)

  section-there :
      {A : Type 0} (read : Node → A → Option A) (key : Text) (root s : Node) (c after : A)
      → member_of root key ≡ some s
      → section yaml read key root c ≡ some after
      → read s c ≡ some after
  unfolding section
  section-there read key root s c after there e = ground (arith, there, e)

  read_ipam-lookup :
      (ipam node : Node) (c after : IpamConfig) (name : Text)
      → member_of ipam (txt "pools") ≡ some node
      → read_ipam yaml ipam c ≡ some after
      → lookup name after.pools ≡ last_subnet name (pairs node) none
  unfolding read_ipam lookup
  read_ipam-lookup ipam node c after name there e =
      let e' : (do pools ← read_pools yaml (pairs node) []; some (record { pools = pools }))
          ≡ some after =
        ground (arith, there, e) in
      let (pools, known, last) = bind-some (read_pools yaml (pairs node) []) _ after e' in
      ap (λ (i : IpamConfig). lookup name i.pools) (sym (some_inj last))
      ∙ read_pools-lookup (pairs node) [] pools name known

  -- A configuration that is loaded from a file has each part from the section of the file, over the
  -- defaults, and no part depends on another section. Where the file has pools, a network has the subnet of
  -- the last pair of its name, and the default networks are gone.
  pub load_lem :
      (root pools : Node) (ipam : Node) (cfg : Config) (name : Text)
      → load yaml true (some root) ≡ some cfg
      → member_of root (txt "ipam") ≡ some ipam
      → member_of ipam (txt "pools") ≡ some pools
      → (section yaml (read_server yaml) (txt "server") root load_default.server ≡ some cfg.server)
        × (section yaml (read_database yaml) (txt "database") root load_default.database
            ≡ some cfg.database)
        × (section yaml (read_jwt yaml) (txt "jwt") root load_default.jwt ≡ some cfg.jwt)
        × (section yaml (read_websocket yaml) (txt "websocket") root load_default.websocket
            ≡ some cfg.websocket)
        × (section yaml (read_logging yaml) (txt "logging") root load_default.logging
            ≡ some cfg.logging)
        × (section yaml (read_admin yaml) (txt "admin") root load_default.admin ≡ some cfg.admin)
        × (section yaml (read_tls yaml) (txt "tls") root load_default.tls ≡ some cfg.tls)
        × (lookup name cfg.ipam.pools ≡ last_subnet name (pairs pools) none)
  unfolding load read_config
  load_lem root pools ipam cfg name e there listed =
      let (server, e1, r1) =
        bind-some (section yaml (read_server yaml) (txt "server") root load_default.server) _ cfg
          e in
      let (database, e2, r2) =
        bind-some (section yaml (read_database yaml) (txt "database") root load_default.database) _
          cfg r1 in
      let (jwt, e3, r3) =
        bind-some (section yaml (read_jwt yaml) (txt "jwt") root load_default.jwt) _ cfg r2 in
      let (websocket, e4, r4) =
        bind-some (section yaml (read_websocket yaml) (txt "websocket") root load_default.websocket)
          _ cfg r3 in
      let (logging, e5, r5) =
        bind-some (section yaml (read_logging yaml) (txt "logging") root load_default.logging) _ cfg
          r4 in
      let (admin, e6, r6) =
        bind-some (section yaml (read_admin yaml) (txt "admin") root load_default.admin) _ cfg r5 in
      let (tls, e7, r7) =
        bind-some (section yaml (read_tls yaml) (txt "tls") root load_default.tls) _ cfg r6 in
      let (with_pools, e8, r8) =
        bind-some (section yaml (read_ipam yaml) (txt "ipam") root load_default.ipam) _ cfg r7 in
      let built : Config = record {
        server = server;
        database = database;
        jwt = jwt;
        websocket = websocket;
        logging = logging;
        admin = admin;
        tls = tls;
        ipam = with_pools;
      } in
      let q : built ≡ cfg = some_inj r8 in
      (
        e1 ∙ ap (λ (c : Config). some c.server) q,
        e2 ∙ ap (λ (c : Config). some c.database) q,
        e3 ∙ ap (λ (c : Config). some c.jwt) q,
        e4 ∙ ap (λ (c : Config). some c.websocket) q,
        e5 ∙ ap (λ (c : Config). some c.logging) q,
        e6 ∙ ap (λ (c : Config). some c.admin) q,
        e7 ∙ ap (λ (c : Config). some c.tls) q,
        ap (λ (c : Config). lookup name c.ipam.pools) (sym q)
            ∙ read_ipam-lookup ipam pools load_default.ipam with_pools name listed (
                section-there (read_ipam yaml) (txt "ipam") root ipam load_default.ipam with_pools
                  there e8),
      )
