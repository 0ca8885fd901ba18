-- ===== src/ServerConfig.antt =====
-- server_config.c and server_config.h: the options of the command line. What `getopt_long` finds is
-- an argument, and `strtol`, `stat`, `realpath` and `getcwd` are parameters.
pub mod Options
use oserver.Prelude.{ℕ, Bool, true, false, Option, none, some, List, [], ◌∷◌, if◌then◌else◌, ℤ, pos}

-- An answer of `getopt_long` with its `optarg`; the last stands for `-h`, and for an error.
pub data Opt : Type 0 where
  opt_port opt_root : List ℕ → Opt
  opt_help : Opt

-- `strtol` in base ten gives the number, as an `int`, and the text behind it; `realpath` and `getcwd`
-- give a text, which for `realpath` is `none` where `stat` has found nothing.
pub record Texts : Type 0 where
  pub strtol : List ℕ → ℤ × List ℕ
  pub realpath : List ℕ → Option (List ℕ)
  pub getcwd : List ℕ

-- `server_config_t`
pub record ServerConfig : Type 0 where
  pub num_regular_threads : ℕ
  pub num_max_threads : ℕ
  pub num_max_connections : ℕ
  pub port : ℤ
  pub backlog : ℕ
  pub stale_connection_timeout_sec : ℕ
  pub root : List ℕ

abbrev pub o_server_default_port : ℤ
o_server_default_port = pos 8080

-- `cfg->port`, the text at `tmp` if it is not `NULL`, and `cfg->root`.
pub record Read : Type 0 where
  pub port : ℤ
  pub tmp : Option (List ℕ)
  pub root : List ℕ

module _ (texts : Texts) where
  abbrev pub read_port : Read → ℤ × List ℕ → Read
  read_port r (n, rest) = record r { port = n; tmp = some rest }

  abbrev pub read_root : Read → Option (List ℕ) → Read
  read_root r none = r
  read_root r (some path) = record r { root = path }

  -- The loop; `none` where the help is printed and 1 is returned.
  unfoldable pub read_options : List Opt → Read → Option Read
  read_options [] r = some r
  read_options (opt_port optarg ∷ opts) r = read_options opts (read_port r (texts.strtol optarg))
  read_options (opt_root optarg ∷ opts) r = read_options opts (read_root r (texts.realpath optarg))
  read_options (opt_help ∷ opts) r = none

  -- `if(tmp == NULL || *tmp != '\0')`
  abbrev pub final_port : ℤ → Option (List ℕ) → ℤ
  final_port port none = o_server_default_port
  final_port port (some []) = port
  final_port port (some (c ∷ rest)) = o_server_default_port

  -- `if(cfg->root[0] == '\0')`
  abbrev pub final_root : List ℕ → List ℕ
  final_root [] = texts.getcwd
  final_root (c ∷ root) = c ∷ root

  abbrev pub finish : Option Read → Option ServerConfig
  finish none = none
  finish (some r) = some (record {
    num_regular_threads = 10;
    num_max_threads = 20;
    num_max_connections = 1024;
    port = final_port r.port r.tmp;
    backlog = 50;
    stale_connection_timeout_sec = 120;
    root = final_root r.root;
  })

  -- `port` is what stood in `cfg->port`; the result is `none` for 1.
  unfoldable pub server_config_read : List Opt → ℤ → Option ServerConfig
  unfolding read_options
  server_config_read opts port =
      finish (read_options opts (record { port = port; tmp = none; root = [] }))
