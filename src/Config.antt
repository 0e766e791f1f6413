-- ===== src/Config.antt =====
-- src/config/config.cpp. yaml-cpp is a parameter: a member of a node, where it is defined, the conversions,
-- which throw (`none`) where the text is no such value, and the pairs of a map.
pub mod Loading
mod Tests
use natt.Prelude.{
  Bool, true, false, not, Option, none, some, List, [], ◌∷◌, if◌then◌else◌, Text, txt, Dict, insert,
}
use natt.Prelude.Int.{ℤ, pos}
use natt.Json.{◌>>=◌}

pub record Yaml : Type 1 where
  pub Node : Type 0
  pub member_of : Node → Text → Option Node
  pub as_string : Node → Option Text
  pub as_int : Node → Option ℤ
  pub as_bool : Node → Option Bool
  pub pairs : Node → List (Node × Node)

pub record ServerConfig : Type 0 where
  pub host : Text
  pub port : ℤ
  pub workers : ℤ

pub record DatabaseConfig : Type 0 where
  pub path : Text

pub record JwtConfig : Type 0 where
  pub secret : Text
  pub expiration_hours : ℤ

pub record WebSocketConfig : Type 0 where
  pub heartbeat_interval_sec : ℤ
  pub heartbeat_timeout_sec : ℤ

pub record LogConfig : Type 0 where
  pub level : Text
  pub pattern_text : Text

pub record AdminConfig : Type 0 where
  pub enabled : Bool
  pub username : Text
  pub password : Text

pub record TlsConfig : Type 0 where
  pub enabled : Bool
  pub cert_file : Text
  pub key_file : Text

pub record IpamConfig : Type 0 where
  pub pools : Dict Text

pub record Config : Type 0 where
  pub server : ServerConfig
  pub database : DatabaseConfig
  pub jwt : JwtConfig
  pub websocket : WebSocketConfig
  pub logging : LogConfig
  pub admin : AdminConfig
  pub tls : TlsConfig
  pub ipam : IpamConfig

unfoldable pub load_default : Config
load_default = record {
  server = record { host = txt "0.0.0.0"; port = pos 8080; workers = pos 4 };
  database = record { path = txt "data/natmesh.db" };
  jwt = record { secret = txt "change-me"; expiration_hours = pos 72 };
  websocket = record { heartbeat_interval_sec = pos 15; heartbeat_timeout_sec = pos 45 };
  logging = record {
    level = txt "info";
    pattern_text = txt "[%Y-%m-%d %H:%M:%S.%e] [%^%l%$] [%s:%#] %v";
  };
  admin = record { enabled = true; username = txt "admin"; password = txt "admin123456" };
  tls = record { enabled = false; cert_file = txt "server.crt"; key_file = txt "server.key" };
  ipam = record {
    pools = (txt "default", txt "10.0.0.0/24") ∷ (txt "home", txt "10.0.0.0/16") ∷ [];
  };
}

module _ (yaml : Yaml) where
  open yaml use {Node, member_of, as_string, as_int, as_bool, pairs}

  -- `if (s[key]) field = s[key].as<A>();`
  unfoldable pub setting : {A : Type 0} → (Node → Option A) → Text → Node → A → Option A
  setting convert key s field = elim (member_of s key) [ none ↦ some field | some n ↦ convert n ]

  -- `if (auto s = root[key]) { … }`
  unfoldable pub section : {A : Type 0} → (Node → A → Option A) → Text → Node → A → Option A
  section read key root part = elim (member_of root key) [ none ↦ some part | some s ↦ read s part ]

  unfoldable pub read_server : Node → ServerConfig → Option ServerConfig
  read_server s c = do
    host ← setting as_string (txt "host") s c.host
    port ← setting as_int (txt "port") s c.port
    workers ← setting as_int (txt "workers") s c.workers
    some (record { host = host; port = port; workers = workers })

  unfoldable pub read_database : Node → DatabaseConfig → Option DatabaseConfig
  read_database d c = do
    path ← setting as_string (txt "path") d c.path
    some (record { path = path })

  unfoldable pub read_jwt : Node → JwtConfig → Option JwtConfig
  read_jwt j c = do
    secret ← setting as_string (txt "secret") j c.secret
    hours ← setting as_int (txt "expiration_hours") j c.expiration_hours
    some (record { secret = secret; expiration_hours = hours })

  unfoldable pub read_websocket : Node → WebSocketConfig → Option WebSocketConfig
  read_websocket w c = do
    interval ← setting as_int (txt "heartbeat_interval_sec") w c.heartbeat_interval_sec
    timeout ← setting as_int (txt "heartbeat_timeout_sec") w c.heartbeat_timeout_sec
    some (record { heartbeat_interval_sec = interval; heartbeat_timeout_sec = timeout })

  unfoldable pub read_logging : Node → LogConfig → Option LogConfig
  read_logging l c = do
    level ← setting as_string (txt "level") l c.level
    pattern_text ← setting as_string (txt "pattern") l c.pattern_text
    some (record { level = level; pattern_text = pattern_text })

  unfoldable pub read_admin : Node → AdminConfig → Option AdminConfig
  read_admin a c = do
    enabled ← setting as_bool (txt "enabled") a c.enabled
    username ← setting as_string (txt "username") a c.username
    password ← setting as_string (txt "password") a c.password
    some (record { enabled = enabled; username = username; password = password })

  unfoldable pub read_tls : Node → TlsConfig → Option TlsConfig
  read_tls t c = do
    enabled ← setting as_bool (txt "enabled") t c.enabled
    cert_file ← setting as_string (txt "cert_file") t c.cert_file
    key_file ← setting as_string (txt "key_file") t c.key_file
    some (record { enabled = enabled; cert_file = cert_file; key_file = key_file })

  -- A name that comes again replaces its subnet.
  unfoldable pub read_pools : List (Node × Node) → Dict Text → Option (Dict Text)
  read_pools [] pools = some pools
  read_pools ((name_node, subnet_node) ∷ rest) pools = do
    name ← as_string name_node
    subnet ← as_string subnet_node
    read_pools rest (insert name subnet pools)

  -- A file with pools has none of the default ones.
  unfoldable pub read_ipam : Node → IpamConfig → Option IpamConfig
  read_ipam ipam c = elim (member_of ipam (txt "pools")) [
    | none ↦ some c
    | some node ↦ do pools ← read_pools (pairs node) []; some (record { pools = pools })
  ]

  unfoldable pub read_config : Node → Config → Option Config
  read_config root cfg = do
    server ← section read_server (txt "server") root cfg.server
    database ← section read_database (txt "database") root cfg.database
    jwt ← section read_jwt (txt "jwt") root cfg.jwt
    websocket ← section read_websocket (txt "websocket") root cfg.websocket
    logging ← section read_logging (txt "logging") root cfg.logging
    admin ← section read_admin (txt "admin") root cfg.admin
    tls ← section read_tls (txt "tls") root cfg.tls
    ipam ← section read_ipam (txt "ipam") root cfg.ipam
    some (record {
      server = server;
      database = database;
      jwt = jwt;
      websocket = websocket;
      logging = logging;
      admin = admin;
      tls = tls;
      ipam = ipam;
    })

  -- `exists` says whether the file is there, `root` what `YAML::LoadFile` gives.
  unfoldable pub load : Bool → Option Node → Option Config
  load exists root =
      if not exists then some load_default else (do node ← root; read_config node load_default)
