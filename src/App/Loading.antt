-- ===== src/App/Loading.antt =====
-- What `load_config` reads back from a file in the standard form.
use backend_common_component.Prelude.{◌≡◌, refl, Bool, true, some, [], ◌∷◌, ℤ, pos}
use backend_common_component.Ini.Reader.{Ini, find, get_section}
use backend_common_component.Ini.Values.{
  to_int, to_bool, to_text, to_string, from_int, from_bool, value-back,
}
use backend_common_component.Ini.Texts.{FitsLine}
use backend_common_component.Ini.RoundTrip.{render, write, load-render}
use backend_common_component.App.Keys
use backend_common_component.App.Config.{AppConfig, read_config, sections, load_config}
use backend_common_component.App.Writing.{
  bool_text, int-FitsLine, bool-FitsLine, AllTrimmed, fit-AreSections,
}

-- A configuration as sections of texts.
abbrev pub config_ini : AppConfig → Ini
config_ini c =
    (
      Keys.server,
      (Keys.port, to_string c.server_port)
          ∷ (Keys.thread_pool_size, to_string c.thread_pool_size)
          ∷ [],
    )
    ∷ (
      Keys.redis,
      (Keys.host, c.redis_host)
          ∷ (Keys.port, to_string c.redis_port)
          ∷ (Keys.password, c.redis_password)
          ∷ (Keys.database, to_string c.redis_db)
          ∷ (Keys.connect_timeout, to_string c.redis_connect_timeout)
          ∷ (Keys.socket_timeout, to_string c.redis_socket_timeout)
          ∷ [],
    )
    ∷ (
      Keys.redis_pool,
      (Keys.max_idle, to_string c.redis_min_size)
          ∷ (Keys.max_active, to_string c.redis_max_size)
          ∷ (Keys.idle_timeout, to_string c.redis_max_idle_time)
          ∷ (Keys.op_num, to_string c.redis_op_num)
          ∷ [],
    )
    ∷ (
      Keys.mysql,
      (Keys.host, c.mysql_host)
          ∷ (Keys.port, to_string c.mysql_port)
          ∷ (Keys.user, c.mysql_user)
          ∷ (Keys.password, c.mysql_password)
          ∷ (Keys.database, c.mysql_database)
          ∷ (Keys.max_idle_conns, to_string c.mysql_min_size)
          ∷ (Keys.max_open_conns, to_string c.mysql_max_size)
          ∷ (Keys.conn_max_lifetime, to_string c.mysql_max_idle_time)
          ∷ (Keys.op_num, to_string c.mysql_op_num)
          ∷ [],
    )
    ∷ (
      Keys.business,
      (Keys.stock_key_prefix, c.stock_key_prefix)
          ∷ (Keys.default_timeout, to_string c.default_timeout)
          ∷ (Keys.retry_times, to_string c.retry_times)
          ∷ [],
    )
    ∷ (
      Keys.log,
      (Keys.file_name, c.log_file_name)
          ∷ (Keys.level, c.log_level)
          ∷ (Keys.console, bool_text c.log_console)
          ∷ (Keys.max_lines, to_string c.log_max_lines)
          ∷ [],
    )
    ∷ []

-- The texts of a configuration can be written in lines.
pub record IsWritable (c : AppConfig) : Type 0 where
  pub redis_host : FitsLine c.redis_host
  pub redis_password : FitsLine c.redis_password
  pub mysql_host : FitsLine c.mysql_host
  pub mysql_user : FitsLine c.mysql_user
  pub mysql_password : FitsLine c.mysql_password
  pub mysql_database : FitsLine c.mysql_database
  pub stock_key_prefix : FitsLine c.stock_key_prefix
  pub log_file_name : FitsLine c.log_file_name
  pub log_level : FitsLine c.log_level

config-AllTrimmed : (c : AppConfig) → IsWritable c → AllTrimmed (config_ini c)
config-AllTrimmed c w = (
  (int-FitsLine c.server_port, (int-FitsLine c.thread_pool_size, tt)),
  (
    (
      w.redis_host,
      (
        int-FitsLine c.redis_port,
        (
          w.redis_password,
          (
            int-FitsLine c.redis_db,
            (int-FitsLine c.redis_connect_timeout, (int-FitsLine c.redis_socket_timeout, tt)),
          ),
        ),
      ),
    ),
    (
      (
        int-FitsLine c.redis_min_size,
        (
          int-FitsLine c.redis_max_size,
          (int-FitsLine c.redis_max_idle_time, (int-FitsLine c.redis_op_num, tt)),
        ),
      ),
      (
        (
          w.mysql_host,
          (
            int-FitsLine c.mysql_port,
            (
              w.mysql_user,
              (
                w.mysql_password,
                (
                  w.mysql_database,
                  (
                    int-FitsLine c.mysql_min_size,
                    (
                      int-FitsLine c.mysql_max_size,
                      (int-FitsLine c.mysql_max_idle_time, (int-FitsLine c.mysql_op_num, tt)),
                    ),
                  ),
                ),
              ),
            ),
          ),
        ),
        (
          (w.stock_key_prefix, (int-FitsLine c.default_timeout, (int-FitsLine c.retry_times, tt))),
          (
            (
              w.log_file_name,
              (w.log_level, (bool-FitsLine c.log_console, (int-FitsLine c.log_max_lines, tt))),
            ),
            tt,
          ),
        ),
      ),
    ),
  ),
)

int_read : (z : ℤ) → to_int (record { val = to_string z }) ≡ z
unfolding to_int to_string from_int
int_read z = (value-back true z []).1

bool_read : (b : Bool) → to_bool (record { val = bool_text b }) ≡ b
unfolding from_bool
bool_read b = (value-back b (pos 0) []).0

read-config_ini :
    (c : AppConfig)
    → sections (config_ini c)
      ≡ some (record c { redis_timeout = pos 5000; mysql_timeout = pos 10000 })
unfolding sections get_section find read_config to_text
read-config_ini c = cc (
  int_read c.server_port,
  int_read c.thread_pool_size,
  int_read c.redis_port,
  int_read c.redis_db,
  int_read c.redis_connect_timeout,
  int_read c.redis_socket_timeout,
  int_read c.redis_min_size,
  int_read c.redis_max_size,
  int_read c.redis_max_idle_time,
  int_read c.redis_op_num,
  int_read c.mysql_port,
  int_read c.mysql_min_size,
  int_read c.mysql_max_size,
  int_read c.mysql_max_idle_time,
  int_read c.mysql_op_num,
  int_read c.default_timeout,
  int_read c.retry_times,
  bool_read c.log_console,
  int_read c.log_max_lines,
)

-- A configuration whose texts have no newline and no blanks at their ends, written in the standard form, is what
-- `load_config` reads, whatever was loaded before; the two timeouts of the pools are constants.
pub load_config-render :
    (c d : AppConfig) (old : Ini)
    → IsWritable c
    → (load_config (some (write (render (config_ini c)))) old d).0
      ≡ (true, record c { redis_timeout = pos 5000; mysql_timeout = pos 10000 })
unfolding load_config
load_config-render c d old w =
    let read =
      load-render (config_ini c) old
        (fit-AreSections [] (config_ini c) refl (config-AllTrimmed c w)) in
    cc (read, read-config_ini c)
