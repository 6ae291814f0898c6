-- ===== src/App/Start.antt =====
-- `App::init`, the end of `App::run`, and what they call: the configuration, the logger and the two
-- pools, which are objects of the program. Logging is left out; so are the HTTP server and the
-- objects that `init` makes of the parts of the demo.
use backend_common_component.Prelude.{
  ◌≡◌, arith, ℕ, ◌-◌, ◌^◌, Bool, true, false, not, Option, List, [], ◌∷◌, ℤ, pos, negsuc,
}
use backend_common_component.Ini.Reader.{Text, Ini}
use backend_common_component.Logger.Sink
use backend_common_component.Logger.Sink.{Logger, LogConfig, info}
use backend_common_component.Logger.Levels.{set_level_str}
use backend_common_component.RedisPool.Types
use backend_common_component.RedisPool.Types.{Attempt}
use backend_common_component.RedisPool.Connections
use backend_common_component.RedisPool.Recycle
use backend_common_component.DbPool.Pool
use backend_common_component.DbPool.Pool.{Outcome, done, threw}
use backend_common_component.App.Config.{AppConfig, load_config}

pub record App : Type 0 where
  pub config : AppConfig
  pub initialized : Bool
  pub ini : Ini
  pub logger : Logger
  pub database : Pool.Pool
  pub redis : Types.Pool

-- What the files and servers answer.
pub record World : Type 0 where
  pub file : Option Text
  pub log_lines : Option ℕ
  pub log_opened : Bool
  pub log_text : List ℕ
  pub connects : ℕ → Bool
  pub attempt : ℕ → Attempt
  pub clock : ℕ → ℕ

abbrev is_empty : Text → Bool
is_empty [] = true
is_empty (_ ∷ _) = false

-- `static_cast<size_t>` of an `int`.
abbrev pub to_size : ℤ → ℕ
to_size (pos n) = n
to_size (negsuc n) = 2 ^ 64 - 1 - n

unfoldable pub init_logger : World → App → App
unfolding Sink.init set_level_str
init_logger w a =
    let c : LogConfig = record {
      has_file_name = not (is_empty a.config.log_file_name);
      level = info;
      console = a.config.log_console;
      max_lines = to_size a.config.log_max_lines;
    } in
    record a {
      logger =
          (set_level_str a.config.log_level
            (Sink.init c w.log_lines w.log_opened w.log_text a.logger)).1;
    }

unfoldable pub init_database_pool : World → App → Outcome × App
unfolding Pool.init
init_database_pool w a =
    let c = a.config in
    let (o, p) =
      Pool.init w.connects c.mysql_min_size c.mysql_max_size c.mysql_max_idle_time c.mysql_timeout
        c.mysql_op_num w.clock a.database in
    (o, record a { database = p })

unfoldable pub init_redis_pool : World → App → App
unfolding Connections.init
init_redis_pool w a =
    let c = a.config in
    record a {
      redis =
          Connections.init w.attempt c.redis_min_size c.redis_max_size c.redis_max_idle_time
            c.redis_timeout c.redis_op_num w.clock a.redis;
    }

-- How `init` ends: it returns, or the exception of the database pool leaves it.
pub data Ended : Type 0 where
  returns : Bool → Ended
  throws : Ended

unfoldable pub with_database : World → Outcome × App → Ended × App
unfolding init_redis_pool
with_database w (threw, a) = (throws, a)
with_database w (done, a) = (returns true, record (init_redis_pool w a) { initialized = true })

unfoldable pub with_config : World → Bool → App → Ended × App
unfolding init_logger init_database_pool with_database
with_config w false a = (returns false, a)
with_config w true a = with_database w (init_database_pool w (init_logger w a))

-- `init`.
unfoldable pub init : World → App → Ended × App
unfolding load_config with_config
init w a =
    let ((ok, config), ini) = load_config w.file a.ini a.config in
    with_config w ok (record a { config = config; ini = ini })

-- `cleanup_resources` of `run`, which runs on a signal and again after the server.
unfoldable pub cleanup_resources : App → App
unfolding Recycle.shutdown Pool.shutdown Sink.shutdown
cleanup_resources a = record a {
  redis = Recycle.shutdown a.redis;
  database = Pool.shutdown a.database;
  logger = Sink.shutdown a.logger;
}

-- `cleanup_resources` after itself changes nothing.
cleanup-twice : (a : App) → cleanup_resources (cleanup_resources a) ≡ cleanup_resources a
unfolding cleanup_resources
cleanup-twice a = ground arith
