-- ===== src/Tests/Logs.antt =====
-- The logger over levels that are numbers.
use karydia.Common.{ℕ, zero, suc, ◌≤◌, ◌≡◌, refl, arith, some, [], ◌∷◌, leb, length}
use karydia.Common.Dict.{lookup}
use karydia.Kube.Review.{Bytes}
use karydia.Logger.{Logrus, text, LogCall, new_logger, logged, handle_crash}
use karydia.Logger.Tagged.{IsRanked, trace, arguments, handle_crash_bounds}

abbrev ranks : Logrus ℕ
ranks = record {
  debug = 5;
  info = 4;
  warn = 3;
  error = 2;
  fatal = 1;
  panic = 0;
  writes = λ threshold level. leb level threshold;
}

ranks-IsRanked : IsRanked ranks (λ rank. rank)
ranks-IsRanked = record {
  debug_rank = refl;
  info_rank = refl;
  warn_rank = refl;
  error_rank = refl;
  fatal_rank = refl;
  panic_rank = refl;
  writes_lem = λ threshold level. refl;
}

zeros : ℕ → Bytes
zeros zero = []
zeros (suc n) = 0 ∷ zeros n

length-zeros : (n : ℕ) → length (zeros n) ≡ n
unfolding zeros
length-zeros zero = omega arith
length-zeros (suc n) = omega (arith, length-zeros n)

-- A stack trace of 512 bytes.
abbrev short_stack : ℕ → Bytes × ℕ
short_stack size = (zeros size, 512)

handle_crash_bounds_example :
    (call : LogCall ranks) × (handle_crash ranks
        (new_logger ranks "info")
        short_stack
        (some (text "boom"))
      ≡ logged call)
    × (call.level ≡ 0)
    × (lookup "handleCrash" call.fields ≡ some "autoLog")
    × (length (trace ranks (arguments ranks call.message)) ≡ 512)
    × (length (trace ranks (arguments ranks call.message)) ≤ 65536)
handle_crash_bounds_example =
    handle_crash_bounds ranks (new_logger ranks "info") short_stack (text "boom") tt
      (length-zeros 65536) (omega arith)
