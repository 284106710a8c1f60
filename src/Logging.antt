-- ===== src/Logging.antt =====
-- log4cpp/src (work/src/log4cpp and work/src/log are copies, but for the path of the configuration):
-- `LogUtil`, a wrapper of the logging library, with the macros of log.h and the program that logs.
pub mod Current
use Prim.Native.String.{String, ◌++◌}
use rabbitmq_work.Base.{ℕ, pos, List, [], ◌∷◌, Option, none, some, not, if◌then◌else◌}
use rabbitmq_work.Amqp.{log_configure, log_root, log_category}
use rabbitmq_work.Session.{
  M, Arg, int, num, text, Priority, debug, info, warn, error, fatal, logged, pure, call, emit,
  abort, ◌>>=◌, ◌>>◌,
}

-- `LogUtil`; the category is `none` before the first `LogInit`.
pub record LogUtil : Type 0 where
  pub logger : Option ℕ
  pub conf_file_path : String
  pub configure : String

-- `LogInit`; nothing catches what `configure` throws.
unfoldable pub log_init : LogUtil → M LogUtil
log_init u = do
  configured ← call (log_configure u.conf_file_path)
  if not configured then abort else do
    call log_root
    main ← call (log_category u.configure)
    pure (record u { logger = some main })

-- The constructor.
unfoldable pub new_log_util : String → String → M LogUtil
new_log_util file_path configure =
    log_init (record { logger = none; conf_file_path = file_path; configure = configure })

-- `LogUpdate`
unfoldable pub log_update : LogUtil → String → String → M LogUtil
log_update u file_path configure =
    log_init (record u { conf_file_path = file_path; configure = configure })

-- A call through `m_pLogger`; one through a pointer that is not set ends the program.
unfoldable pub log_at : Priority → LogUtil → String → List Arg → M (Unit {0})
log_at priority u format args = elim u.logger [
  | none ↦ abort
  | some category ↦ emit (logged category priority format args)
]

-- The macros; the file, the line and the function of `debug_log` are those of the place of its use.
unfoldable pub debug_log : String → ℕ → String → LogUtil → String → List Arg → M (Unit {0})
debug_log file line function u format args =
    log_at debug u ("%s , %d, %s: " ++ format) (text file ∷ num line ∷ text function ∷ args)

unfoldable pub info_log : LogUtil → String → List Arg → M (Unit {0})
info_log = log_at info

unfoldable pub warn_log : LogUtil → String → List Arg → M (Unit {0})
warn_log = log_at warn

unfoldable pub err_log : LogUtil → String → List Arg → M (Unit {0})
err_log = log_at error

unfoldable pub fatal_log : LogUtil → String → List Arg → M (Unit {0})
fatal_log = log_at fatal

-- `g_cMain`, which is constructed before `main` runs.
unfoldable pub g_main : M LogUtil
g_main = new_log_util "../conf/log4cpp.conf" "MAIN"

-- The program, with `main` of main.cpp.
unfoldable pub log_main : M (Unit {0})
log_main = do g ← g_main; debug_log "main.cpp" 30 "main" g "This is debug:%d" (int (pos 5) ∷ [])
