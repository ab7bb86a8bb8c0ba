-- ===== src/Logger/Tagged.antt =====
-- What the logger's calls carry, which of them are written, and how it handles a crash.
use Prim.Native.String.{◌++◌}
use karydia.Common.{
  ℕ, ◌+◌, ◌≤◌, String, ◌≡◌, refl, ap, ◌∙◌, true, none, some, List, [], ◌∷◌, arith, ◌==◌, eq_iff,
  leb, length, take, length-take, if◌then◌else◌,
}
use karydia.Common.Dict.{lookup, lookup-insert_self}
use karydia.Kube.Review.{Bytes}
use karydia.Logger.{
  Level, debug_level, info_level, warn_level, error_level, fatal_level, panic_level, number,
  get_log_level, Logrus, LogValue, text, bytes, value, Message, formatted, line, level_formats,
  prepend_str_to_format, prepend_str_to_args, base_logger_levels, Logger, LogCall, log_fields,
  new_logger, set_component, new_component_logger, f, ln, additional_fields, logged, crash_message,
  handle_crash,
}

module _ {L : Type 0} (logrus : Logrus L) where
  -- logrus orders its levels: a rank that falls from debug to panic, and a logger writes a message unless
  -- its rank is above the logger's.
  pub record IsRanked (rank : L → ℕ) : Type 0 where
    pub debug_rank : rank logrus.debug ≡ 5
    pub info_rank : rank logrus.info ≡ 4
    pub warn_rank : rank logrus.warn ≡ 3
    pub error_rank : rank logrus.error ≡ 2
    pub fatal_rank : rank logrus.fatal ≡ 1
    pub panic_rank : rank logrus.panic ≡ 0
    pub writes_lem :
        (threshold level : L) → logrus.writes threshold level ≡ leb (rank level) (rank threshold)

  rank-number :
      (rank : L → ℕ)
      → IsRanked rank
      → (a : Level) → rank (base_logger_levels logrus a) + number a ≡ 7
  unfolding base_logger_levels number
  rank-number rank ranked debug_level = omega (arith, ranked.debug_rank)
  rank-number rank ranked info_level = omega (arith, ranked.info_rank)
  rank-number rank ranked warn_level = omega (arith, ranked.warn_rank)
  rank-number rank ranked error_level = omega (arith, ranked.error_rank)
  rank-number rank ranked fatal_level = omega (arith, ranked.fatal_rank)
  rank-number rank ranked panic_level = omega (arith, ranked.panic_rank)

  -- If logrus orders its levels as documented, a component's logger that is made under the text of a log
  -- level writes a message exactly when the number of the message's level is not below the number of the
  -- level that the text names.
  pub writes-number :
      (rank : L → ℕ)
      → IsRanked rank
      → (log_level name format : String) (level : Level) (args : List LogValue)
      → let call = f logrus (new_component_logger logrus log_level name) level format args in
        logrus.writes call.threshold call.level
        ≡ leb (number (get_log_level log_level)) (number level)
  unfolding f new_component_logger set_component new_logger
  writes-number rank ranked log_level name format level args =
      let own = get_log_level log_level in
      ranked.writes_lem _ _
      ∙ ground (arith, rank-number rank ranked own, rank-number rank ranked level)

  -- The text that every message of a level begins with, and the fields of a logger for a component.
  tagged_format :
      (level : Level) (format : String)
      → prepend_str_to_format (level_formats level) format ≡ level_formats level ++ (" " ++ format)
  unfolding prepend_str_to_format level_formats
  tagged_format debug_level format = refl
  tagged_format info_level format = refl
  tagged_format warn_level format = refl
  tagged_format error_level format = refl
  tagged_format fatal_level format = refl
  tagged_format panic_level format = refl

  tagged_args :
      (level : Level) (args : List LogValue)
      → prepend_str_to_args (level_formats level) args ≡ text (level_formats level) ∷ args
  unfolding prepend_str_to_args level_formats
  tagged_args debug_level args = refl
  tagged_args info_level args = refl
  tagged_args warn_level args = refl
  tagged_args error_level args = refl
  tagged_args fatal_level args = refl
  tagged_args panic_level args = refl

  -- The entry of a logger goes with its component.
  abbrev pub IsCurrent : Logger logrus → Type 0
  IsCurrent l = l.entry ≡ log_fields logrus l.component

  -- Making a logger and naming its component keep the entry current, and then both kinds of calls carry the
  -- component's field, if its name is not empty, and no other, and begin with the tag of their level.
  pub set_component-f :
      (l : Logger logrus) (name format : String) (level : Level) (args : List LogValue)
      → let l' = set_component logrus name l in
        IsCurrent l'
        × (lookup "component" (f logrus l' level format args).fields
            ≡ (if name == "" then none else some name))
        × (lookup "handleCrash" (f logrus l' level format args).fields ≡ none)
        × ((f logrus l' level format args).message
            ≡ formatted (level_formats level ++ (" " ++ format)) args)
        × ((ln logrus l' level args).message ≡ line (text (level_formats level) ∷ args))
  unfolding f ln set_component log_fields lookup
  set_component-f l name format level args = (
    refl,
    ground arith,
    ground (arith, eq_iff "component" "handleCrash"),
    ap (λ t. formatted t args) (tagged_format level format),
    ap line (tagged_args level args),
  )

  -- The bytes of the stack trace that a call carries.
  abbrev pub trace : List LogValue → Bytes
  trace [] = []
  trace (bytes b ∷ rest) = b
  trace (_ ∷ rest) = trace rest

  abbrev pub arguments : Message → List LogValue
  arguments (formatted format args) = args
  arguments (line args) = args

  -- The value that was recovered is not a stack trace.
  abbrev pub IsPlain : LogValue → Type 0
  IsPlain (bytes b) = ⊥
  IsPlain _ = Unit

  message-trace :
      (l : Logger logrus) (r : LogValue) (b : Bytes)
      → IsPlain r
      → trace (
          arguments
            (f logrus l panic_level
              (crash_message logrus r b).0
              (crash_message logrus r b).1).message)
        ≡ b
  unfolding f crash_message
  message-trace l (text s) b h = refl
  message-trace l (bytes c) b h = absurd h
  message-trace l (value v) b h = refl

  marked :
      (component : String)
      → lookup "handleCrash" (additional_fields logrus component) ≡ some "autoLog"
  unfolding additional_fields
  marked component = lookup-insert_self "handleCrash" "autoLog" (log_fields logrus component)

  handle_crash_run :
      (l : Logger logrus) (stack : ℕ → Bytes × ℕ) (r : LogValue)
      → leb (stack 65536).1 (length (stack 65536).0) ≡ true
      → let kept = take (stack 65536).1 (stack 65536).0 in
        handle_crash logrus l stack (some r)
        ≡ logged (
            f logrus
              (record l { entry = additional_fields logrus l.component })
              panic_level
              (crash_message logrus r kept).0
              (crash_message logrus r kept).1)
  unfolding handle_crash
  handle_crash_run l stack r fits = rw fits refl

  panic_call :
      (l : Logger logrus) (format : String) (args : List LogValue)
      → ((f logrus l panic_level format args).level ≡ logrus.panic)
        × ((f logrus l panic_level format args).fields ≡ l.entry)
  unfolding f base_logger_levels
  panic_call l format args = (refl, refl)

  -- If runtime.Stack fills the buffer that it is given and writes no more bytes than its size, then
  -- HandleCrash never slices out of range: after a panic it logs at the panic level, with the marker of a
  -- handled crash, and the trace has as many bytes as were written, at most 65536.
  pub handle_crash_bounds :
      (l : Logger logrus) (stack : ℕ → Bytes × ℕ) (r : LogValue)
      → IsPlain r
      → length (stack 65536).0 ≡ 65536
      → (stack 65536).1 ≤ 65536
      → (call : LogCall logrus) × (handle_crash logrus l stack (some r) ≡ logged call)
        × (call.level ≡ logrus.panic)
        × (lookup "handleCrash" call.fields ≡ some "autoLog")
        × (length (trace (arguments call.message)) ≡ (stack 65536).1)
        × (length (trace (arguments call.message)) ≤ 65536)
  handle_crash_bounds l stack r plain full few =
      let kept : Bytes = take (stack 65536).1 (stack 65536).0 in
      let l' : Logger logrus = record l { entry = additional_fields logrus l.component } in
      let fits : leb (stack 65536).1 (length (stack 65536).0) ≡ true = rw full (ground arith) in
      let size : length kept ≡ (stack 65536).1 =
        length-take (stack 65536).1 (stack 65536).0 (omega (arith, full)) in
      let whole = ap length (message-trace l' r kept plain) ∙ size in
      (
        f logrus l' panic_level (crash_message logrus r kept).0 (crash_message logrus r kept).1,
        handle_crash_run l stack r fits,
        (panic_call l' _ _).0,
        ap (lookup "handleCrash") (panic_call l' _ _).1 ∙ marked l.component,
        whole,
        omega (arith, whole),
      )
