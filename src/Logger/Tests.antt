-- ===== src/Logger/Tests.antt =====
-- The log of a program that sets its path twice (src/Logger.cpp).
use traffic_inspector.Base.{◌≡◌, ◌++◌, refl, true, false, List, [], ◌∷◌, some, codes}
use traffic_inspector.Logger.{
  stdout, Call, initializes, logs, calls, call, logger, initialize_logger, open_log, new_logger,
}
use traffic_inspector.Logger.Target.{lines_on, calls-initializes}

abbrev early : List Call
early = logs (codes "a") ∷ []

abbrev behind : List Call
behind = logs (codes "b") ∷ initializes (some (codes "y")) true ∷ logs (codes "c") ∷ []

calls-initializes_example :
    calls (early ++ (initializes (some (codes "x")) true ∷ behind)) new_logger ≡ record {
      log_file = some (open_log (some (codes "x")) true);
      written =
          lines_on stdout early
          ++ lines_on
              (open_log (some (codes "x")) true)
              (initializes (some (codes "x")) true ∷ behind);
    }
calls-initializes_example = calls-initializes early behind (some (codes "x")) true (tt, tt)

-- A path that cannot be opened leaves the standard output.
unopened :
    calls (initializes (some (codes "x")) false ∷ []) new_logger
    ≡ record { log_file = some stdout; written = (stdout, codes "Logger Initialized") ∷ [] }
unfolding calls call initialize_logger logger open_log
unopened = refl
