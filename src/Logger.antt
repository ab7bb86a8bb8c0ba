-- ===== src/Logger.antt =====
-- pkg/logger/logger.go: levels, components and the calls of logrus that the methods make.
pub mod Tagged
use Prim.Native.String.{◌++◌}
use karydia.Common.{
  ℕ, String, Bool, true, false, not, Option, none, some, List, [], ◌∷◌, ◌==◌, if◌then◌else◌, leb,
  length, take,
}
use karydia.Common.Dict.{Dict, insert}
use karydia.Kube.Review.{Bytes}

pub data Level : Type 0 where
  debug_level : Level
  info_level : Level
  warn_level : Level
  error_level : Level
  fatal_level : Level
  panic_level : Level

-- The value of the constant: 2 + iota.
unfoldable pub number : Level → ℕ
number debug_level = 2
number info_level = 3
number warn_level = 4
number error_level = 5
number fatal_level = 6
number panic_level = 7

-- The value of the global variable LogLevel is an argument.
unfoldable pub get_log_level : String → Level
get_log_level log_level =
    if log_level == "debug"
    then debug_level
    else if log_level == "info"
    then info_level
    else if log_level == "warn"
    then warn_level
    else if log_level == "error"
    then error_level
    else if log_level == "fatal"
    then fatal_level
    else if log_level == "panic"
    then panic_level
    else info_level

-- logrus: its six levels, and the test whether a logger at a level writes a message of a level.
pub record Logrus (L : Type 0) : Type 0 where
  pub debug : L
  pub info : L
  pub warn : L
  pub error : L
  pub fatal : L
  pub panic : L
  pub writes : L → L → Bool

-- An argument of a log call, as far as the program looks at it.
pub data LogValue : Type 0 where
  text : String → LogValue
  bytes : Bytes → LogValue
  value : ℕ → LogValue

-- What an entry sends to logrus: the level, and a format with its arguments or the arguments of a line.
pub data Message : Type 0 where
  formatted : String → List LogValue → Message
  line : List LogValue → Message

unfoldable pub level_formats : Level → String
level_formats debug_level = "[DEBUG_INFO]"
level_formats info_level = "[INFO]"
level_formats warn_level = "[WARN]"
level_formats error_level = "[ERROR]"
level_formats fatal_level = "[FATAL]"
level_formats panic_level = "[PANIC]"

unfoldable pub prepend_str_to_format : String → String → String
prepend_str_to_format prefix main = if prefix == "" then main else prefix ++ (" " ++ main)

unfoldable pub prepend_str_to_args : String → List LogValue → List LogValue
prepend_str_to_args prefix main = if prefix == "" then main else text prefix ∷ main

module _ {L : Type 0} (logrus : Logrus L) where
  unfoldable pub base_logger_levels : Level → L
  base_logger_levels debug_level = logrus.debug
  base_logger_levels info_level = logrus.info
  base_logger_levels warn_level = logrus.warn
  base_logger_levels error_level = logrus.error
  base_logger_levels fatal_level = logrus.fatal
  base_logger_levels panic_level = logrus.panic

  -- `entry` holds the fields of logrus' entry; the base logger holds its level.
  pub record Logger : Type 0 where
    pub base_level : L
    pub component : String
    pub entry : Dict String

  -- One call of logrus, with the fields and the level of the logger behind it.
  pub record LogCall : Type 0 where
    pub threshold : L
    pub fields : Dict String
    pub level : L
    pub message : Message

  -- log: the fields of the entry.
  unfoldable pub log_fields : String → Dict String
  log_fields component = if component == "" then [] else ("component", component) ∷ []

  unfoldable pub new_logger : String → Logger
  new_logger log_level = record {
    base_level = base_logger_levels (get_log_level log_level);
    component = "";
    entry = log_fields "";
  }

  unfoldable pub set_component : String → Logger → Logger
  set_component name l = record l { component = name; entry = log_fields name }

  unfoldable pub new_component_logger : String → String → Logger
  new_component_logger log_level name = set_component name (new_logger log_level)

  unfoldable pub get_component : Logger → String
  get_component l = l.component

  unfoldable pub f : Logger → Level → String → List LogValue → LogCall
  f l level format args = record {
    threshold = l.base_level;
    fields = l.entry;
    level = base_logger_levels level;
    message = formatted (prepend_str_to_format (level_formats level) format) args;
  }

  unfoldable pub ln : Logger → Level → List LogValue → LogCall
  ln l level args = record {
    threshold = l.base_level;
    fields = l.entry;
    level = base_logger_levels level;
    message = line (prepend_str_to_args (level_formats level) args);
  }

  -- logWithAdditionalFields, at the one field that the program adds.
  unfoldable pub additional_fields : String → Dict String
  additional_fields component = insert "handleCrash" "autoLog" (log_fields component)

  -- How HandleCrash ends: nothing was recovered; the call of logrus is made, and the panic goes on; or
  -- the slice of the stack trace is out of range.
  pub data CrashEnd : Type 0 where
    calm : CrashEnd
    logged : LogCall → CrashEnd
    out_of_range : CrashEnd

  abbrev pub stack_size : ℕ
  stack_size = 65536

  -- The format and the arguments for what was recovered.
  unfoldable pub crash_message : LogValue → Bytes → String × List LogValue
  crash_message (text r) stacktrace = ("%s\n%s", text r ∷ bytes stacktrace ∷ [])
  crash_message r stacktrace = ("%#v (%v)\n%s", r ∷ r ∷ bytes stacktrace ∷ [])

  -- `recovered` is what recover returns, nil as none; `stack` is runtime.Stack, which fills a buffer of
  -- the given size and returns it with the number of bytes that it wrote.
  unfoldable pub handle_crash : Logger → (ℕ → Bytes × ℕ) → Option LogValue → CrashEnd
  handle_crash l stack none = calm
  handle_crash l stack (some r) =
      let (buffer, written) = stack stack_size in
      if leb written (length buffer)
      then (let (format, args) = crash_message r (take written buffer) in
          logged (f (record l { entry = additional_fields l.component }) panic_level format args))
      else out_of_range

  unfoldable pub debugf : Logger → String → List LogValue → LogCall
  unfolding f
  debugf l format args = f l debug_level format args

  unfoldable pub debugln : Logger → List LogValue → LogCall
  unfolding ln
  debugln l args = ln l debug_level args

  unfoldable pub infof : Logger → String → List LogValue → LogCall
  unfolding f
  infof l format args = f l info_level format args

  unfoldable pub infoln : Logger → List LogValue → LogCall
  unfolding ln
  infoln l args = ln l info_level args

  unfoldable pub warnf : Logger → String → List LogValue → LogCall
  unfolding f
  warnf l format args = f l warn_level format args

  unfoldable pub warnln : Logger → List LogValue → LogCall
  unfolding ln
  warnln l args = ln l warn_level args

  unfoldable pub errorf : Logger → String → List LogValue → LogCall
  unfolding f
  errorf l format args = f l error_level format args

  unfoldable pub errorln : Logger → List LogValue → LogCall
  unfolding ln
  errorln l args = ln l error_level args

  unfoldable pub fatalf : Logger → String → List LogValue → LogCall
  unfolding f
  fatalf l format args = f l fatal_level format args

  unfoldable pub fatalln : Logger → List LogValue → LogCall
  unfolding ln
  fatalln l args = ln l fatal_level args
