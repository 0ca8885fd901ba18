-- ===== src/Examples/Options.antt =====
-- Runs of server_config.c and logger.c, and their theorems at concrete options and messages.
use oserver.Prelude.{◌≡◌, refl, none, some, List, [], ◌∷◌, arith, pos}
use oserver.Bytes.{codes}
use oserver.ServerConfig.{
  Opt, opt_port, opt_root, opt_help, Texts, server_config_read, read_options,
}
use oserver.ServerConfig.Options.{
  port_of, or_working_directory, last_port, last_root, config_read-last,
}
use oserver.Logger.{Logger, log_level_info, log_level_debug, log_level_fatal, logger_log}
use oserver.Logger.Buffer.{Logs, log-Logs}

-- Every text is the number 80, and every path is `/www`.
abbrev texts : Texts
texts = record {
  strtol = λ t. (pos 80, []);
  realpath = λ t. some (codes "/www");
  getcwd = codes "/";
}

abbrev opts : List Opt
opts = opt_root (codes "www") ∷ opt_port (codes "80") ∷ []

port_run : server_config_read texts (opt_help ∷ []) (pos 0) ≡ none
unfolding server_config_read read_options
port_run = refl

config_read-last_example :
    server_config_read texts opts (pos 5)
    ≡ some (record {
      num_regular_threads = 10;
      num_max_threads = 20;
      num_max_connections = 1024;
      port = port_of texts (last_port none opts);
      backlog = 50;
      stale_connection_timeout_sec = 120;
      root = or_working_directory texts (last_root texts [] opts);
    })
config_read-last_example = config_read-last texts opts (pos 5) tt

abbrev logger : Logger
logger = record { output_fd = pos 1; log_level = log_level_info }

below_run : logger_log logger log_level_debug (codes "now : ") (codes "x") ≡ none
unfolding logger_log
below_run = refl

log-Logs_example :
    Logs logger log_level_fatal
      (codes "now : ")
      (codes "x")
      (logger_log logger log_level_fatal (codes "now : ") (codes "x"))
log-Logs_example = log-Logs logger log_level_fatal (codes "now : ") (codes "x") (omega arith)
