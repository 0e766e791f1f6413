-- ===== src/Config/Tests.antt =====
-- Tests of src/config/config.cpp on a small library of nodes.
use natt.Prelude.{◌≡◌, refl, true, false, ◌&&◌, some, none, [], if◌then◌else◌, Text, txt, text_eq}
use natt.Prelude.Int.{pos}
use natt.Config.{Yaml, load_default, setting, section, read_server, read_config, load}

-- A file that sets the host of the server, where a node is its text.
abbrev small : Yaml
small = record {
  Node = Text;
  member_of = λ n key.
      if text_eq n (txt "root") && text_eq key (txt "server")
      then some (txt "server")
      else if text_eq n (txt "server") && text_eq key (txt "host")
      then some (txt "127.0.0.1")
      else none;
  as_string = λ n. some n;
  as_int = λ n. none;
  as_bool = λ n. none;
  pairs = λ n. [];
}

load_run :
    load small true (some (txt "root"))
    ≡ some (record load_default {
      server = record { host = txt "127.0.0.1"; port = pos 8080; workers = pos 4 };
    })
unfolding load read_config section read_server setting load_default text_eq
load_run = refl

-- Without a file the defaults are taken.
no_file_run : load small false none ≡ some load_default
unfolding load
no_file_run = refl
