-- ===== src/App/Ready.antt =====
-- What `App::init` leaves, from a configuration file in the standard form.
use backend_common_component.Prelude.{
  ℕ, ◌≡◌, refl, sym, Bool, true, false, Option, some, [], pos, ◌≤ℤ◌, ◌⊎◌, inl, inr,
}
use backend_common_component.Ini.RoundTrip.{render, write}
use backend_common_component.Logger.Sink.{LogLevel, Logger}
use mathlib.Core.Path.{subst}
use backend_common_component.Ini.Reader.{Ini, Text}
use backend_common_component.Logger.Levels.{level_to_cstr, set_level_str-named}
use backend_common_component.RedisPool.System
use backend_common_component.RedisPool.System.{started}
use backend_common_component.RedisPool.Invariant.{Working, started-Working}
use backend_common_component.DbPool.Pool
use backend_common_component.DbPool.Pool.{Outcome, done, threw}
use backend_common_component.DbPool.System.{constructed as db_constructed, started as db_started}
use backend_common_component.DbPool.Parts.{Sound}
use backend_common_component.DbPool.Invariant.{started-Sound}
use backend_common_component.App.Config.{AppConfig, load_config}
use backend_common_component.App.Loading.{config_ini, IsWritable, load_config-render}
use backend_common_component.App.Start.{
  App, World, Ended, returns, throws, init_logger, init_redis_pool, init_database_pool,
  with_database, with_config, init,
}

-- The program after a start that succeeded.
pub record Ready (w : World) (c : AppConfig) (level : LogLevel) (a : App) : Type 0 where
  pub is_initialized : a.initialized ≡ true
  pub config_is : a.config ≡ record c { redis_timeout = pos 5000; mysql_timeout = pos 10000 }
  pub level_is : a.logger.config.level ≡ level
  pub redis_works :
      Working w.attempt c.redis_min_size c.redis_max_size
        (record { pool = a.redis; lent = []; waiting = 0; returning = 0 })
  pub database_sound : Sound c.mysql_max_size [] a.database

-- The program after a start that the database pool's exception has left.
pub record Left (before a : App) : Type 0 where
  pub not_initialized : a.initialized ≡ before.initialized
  pub redis_is : a.redis ≡ before.redis

-- `init` has returned true and the program is ready, or the exception has left it.
abbrev pub Ends : World → AppConfig → LogLevel → App → Ended × App → Type 0
Ends w c level before (ended, a) =
    (ended ≡ returns true) × Ready w c level a ⊎ (ended ≡ throws) × Left before a

-- The program before `init`: two pools as their constructors make them.
abbrev pub fresh : ℕ → AppConfig → Ini → Logger → App
fresh hardware_threads config ini logger = record {
  config = config;
  initialized = false;
  ini = ini;
  logger = logger;
  database = db_constructed hardware_threads;
  redis = System.constructed hardware_threads;
}

-- Sizes that can be kept.
pub record AreOrdered (c : AppConfig) : Type 0 where
  pub redis_ordered : c.redis_min_size ≤ℤ c.redis_max_size
  pub redis_positive : pos 0 ≤ℤ c.redis_max_size
  pub mysql_ordered : c.mysql_min_size ≤ℤ c.mysql_max_size
  pub mysql_positive : pos 0 ≤ℤ c.mysql_max_size

module _ (w : World) (c : AppConfig) (level : LogLevel) (hardware_threads : ℕ) (config : AppConfig)
    (ini : Ini) (logger : Logger) (named : c.log_level ≡ level_to_cstr level)
    (sizes : AreOrdered c) where
  abbrev read : AppConfig
  read = record c { redis_timeout = pos 5000; mysql_timeout = pos 10000 }

  abbrev loaded : Ini → App
  loaded ini' = record (fresh hardware_threads config ini logger) { config = read; ini = ini' }

  database_Ends :
      (ini' : Ini) (o : Outcome) (p : Pool.Pool)
      → Sound c.mysql_max_size [] p
      → Ends w c level
          (fresh hardware_threads config ini logger)
          (with_database w (o, record (init_logger w (loaded ini')) { database = p }))
  unfolding with_database init_redis_pool init_logger started
  database_Ends ini' threw p v = inr (refl, record { not_initialized = refl; redis_is = refl })
  database_Ends ini' done p v = inl (
    refl,
    record {
      is_initialized = refl;
      config_is = refl;
      level_is = set_level_str-named c.log_level level _ named;
      redis_works =
          started-Working w.attempt c.redis_min_size c.redis_max_size hardware_threads
            c.redis_max_idle_time (pos 5000) c.redis_op_num w.clock sizes.redis_ordered
            sizes.redis_positive;
      database_sound = v;
    },
  )

  config_Ends :
      (x : (Bool × AppConfig) × Ini)
      → x.0 ≡ (true, read)
      → Ends w c level (fresh hardware_threads config ini logger) (
          with_config w x.0.0
            (record (fresh hardware_threads config ini logger) { config = x.0.1; ini = x.1 }))
  unfolding with_config init_database_pool init_logger db_started
  config_Ends (x, ini') e =
      let a = loaded ini' in
      let (o, p) =
        Pool.init w.connects c.mysql_min_size c.mysql_max_size c.mysql_max_idle_time (pos 10000)
          c.mysql_op_num w.clock a.database in
      let sound : Sound c.mysql_max_size [] p =
        started-Sound w.connects c.mysql_max_size c.mysql_min_size c.mysql_max_idle_time (pos 10000)
          c.mysql_op_num w.clock hardware_threads sizes.mysql_ordered sizes.mysql_positive in
      subst
        (λ (y : Bool × AppConfig). Ends w c level (fresh hardware_threads config ini logger) (
          with_config w y.0
            (record (fresh hardware_threads config ini logger) { config = y.1; ini = ini' })))
        (sym e) (database_Ends ini' o p sound)

  -- When the file has a configuration in the standard form, whose texts have no newline and no blanks
  -- at their ends, whose level is the name of one, and whose pool sizes are ordered and not negative, `init` on fresh
  -- pools returns true, with the configuration of the file, the level set, and both pools in working
  -- order for these sizes; or an exception of the database pool leaves it before Redis is touched, and
  -- the program does not count as initialised.
  pub init-Ends :
      w.file ≡ some (write (render (config_ini c)))
      → IsWritable c
      → Ends w c level
          (fresh hardware_threads config ini logger)
          (init w (fresh hardware_threads config ini logger))
  unfolding init
  init-Ends f written = config_Ends (load_config w.file ini config) (
      subst (λ (file : Option Text). (load_config file ini config).0 ≡ (true, read)) (sym f)
        (load_config-render c config ini written))
