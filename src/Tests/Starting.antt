-- ===== src/Tests/Starting.antt =====
-- The start of the demo from a small configuration.
use backend_common_component.Prelude.{◌≡◌, refl, true, false, none, some, [], ◌∷◌, arith, pos, ◌==◌}
use backend_common_component.Ini.RoundTrip.{render, write}
use backend_common_component.Logger.Sink.{Logger, warning}
use backend_common_component.Logger.Levels.{level_to_cstr}
use backend_common_component.RedisPool.Types.{connected, pong}
use backend_common_component.App.Keys
use backend_common_component.App.Config.{AppConfig, load_config}
use backend_common_component.App.Loading.{config_ini, IsWritable, load_config-render}
use backend_common_component.App.Start.{World, init}
use backend_common_component.App.Ready.{fresh, Ends, init-Ends}

abbrev small : AppConfig
small = record {
  server_port = pos 8080;
  thread_pool_size = pos 4;
  redis_host = Keys.host;
  redis_port = pos 6379;
  redis_password = [];
  redis_db = pos 0;
  redis_connect_timeout = pos 1000;
  redis_socket_timeout = pos 1000;
  redis_min_size = pos 1;
  redis_max_size = pos 2;
  redis_max_idle_time = pos 300;
  redis_timeout = pos 5000;
  redis_op_num = pos 4;
  mysql_host = Keys.host;
  mysql_port = pos 3306;
  mysql_user = Keys.user;
  mysql_password = Keys.password;
  mysql_database = Keys.database;
  mysql_min_size = pos 2;
  mysql_max_size = pos 3;
  mysql_max_idle_time = pos 180;
  mysql_timeout = pos 10000;
  mysql_op_num = pos 4;
  stock_key_prefix = Keys.business;
  default_timeout = pos 5;
  retry_times = pos 3;
  log_file_name = Keys.log;
  log_level = b'W' ∷ b'A' ∷ b'R' ∷ b'N' ∷ b'I' ∷ b'N' ∷ b'G' ∷ [];
  log_console = true;
  log_max_lines = pos 500;
}

small-IsWritable : IsWritable small
small-IsWritable = record {
  redis_host = (refl, refl, refl);
  redis_password = (refl, refl, refl);
  mysql_host = (refl, refl, refl);
  mysql_user = (refl, refl, refl);
  mysql_password = (refl, refl, refl);
  mysql_database = (refl, refl, refl);
  stock_key_prefix = (refl, refl, refl);
  log_file_name = (refl, refl, refl);
  log_level = (refl, refl, refl);
}

load_config-render_example :
    (load_config (some (write (render (config_ini small)))) [] small).0 ≡ (true, small)
load_config-render_example = load_config-render small small [] small-IsWritable

-- The second construction of a MySQL connection throws.
abbrev outside : World
outside = record {
  file = some (write (render (config_ini small)));
  log_lines = none;
  log_opened = true;
  log_text = [];
  connects = λ n. n == 0;
  attempt = λ n. connected pong;
  clock = λ n. n;
}

abbrev no_logger : Logger
no_logger = record {
  config = record { has_file_name = false; level = warning; console = true; max_lines = 500 };
  is_open = false;
  buffer = [];
  cur_lines = 0;
  initialized = false;
  file = [];
  backups = [];
  printed = [];
}

warning_name : small.log_level ≡ level_to_cstr warning
unfolding level_to_cstr
warning_name = refl

init-Ends_example :
    Ends outside small warning
      (fresh 8 small [] no_logger)
      (init outside (fresh 8 small [] no_logger))
init-Ends_example =
    init-Ends outside small warning 8 small [] no_logger warning_name
      (record {
        redis_ordered = omega arith;
        redis_positive = omega arith;
        mysql_ordered = omega arith;
        mysql_positive = omega arith;
      })
      refl small-IsWritable
