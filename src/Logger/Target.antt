-- ===== src/Logger/Target.antt =====
-- Where the lines of src/Logger.cpp go.
use traffic_inspector.Base.{
  ◌≡◌, sym, ap, ◌∙◌, Bool, List, [], ◌∷◌, ◌++◌, Option, none, some, map, append_assoc, append-nil,
  Text, codes, All,
}
use traffic_inspector.Logger.{Stream, stdout, new_logger, open_log, Call, initializes, logs, calls}

-- The line that a call writes.
abbrev pub line_of : Call → Text
line_of (initializes path opens) = codes "Logger Initialized"
line_of (logs line) = line

-- The lines of calls, all on one stream.
abbrev pub lines_on : Stream → List Call → List (Stream × Text)
lines_on f cs = map (λ c. (f, line_of c)) cs

abbrev pub OnlyLogs : Call → Type 0
OnlyLogs (initializes path opens) = ⊥
OnlyLogs (logs line) = Unit {0}

-- With a stream that is set, every call writes to it and leaves it set.
calls-set :
    (f : Stream) (cs : List Call) (ws : List (Stream × Text))
    → calls cs (record { log_file = some f; written = ws })
      ≡ record { log_file = some f; written = ws ++ lines_on f cs }
unfolding calls
calls-set f [] ws = ap (λ x. record { log_file = some f; written = x }) (sym (append-nil ws))
calls-set f (initializes path opens ∷ cs) ws =
    calls-set f cs (ws ++ ((f, codes "Logger Initialized") ∷ []))
    ∙ ap (λ x. record { log_file = some f; written = x })
        (append_assoc ws ((f, codes "Logger Initialized") ∷ []) (lines_on f cs))
calls-set f (logs line ∷ cs) ws =
    calls-set f cs (ws ++ ((f, line) ∷ []))
    ∙ ap (λ x. record { log_file = some f; written = x })
        (append_assoc ws ((f, line) ∷ []) (lines_on f cs))

calls-unset :
    (cs ds : List Call) (ws : List (Stream × Text))
    → All OnlyLogs cs
    → calls (cs ++ ds) (record { log_file = none; written = ws })
      ≡ calls ds (record { log_file = none; written = ws ++ lines_on stdout cs })
unfolding calls
calls-unset [] ds ws h =
    ap (λ x. calls ds (record { log_file = none; written = x })) (sym (append-nil ws))
calls-unset (initializes path opens ∷ cs) ds ws h = absurd h.0
calls-unset (logs line ∷ cs) ds ws (_, h) =
    calls-unset cs ds (ws ++ ((stdout, line) ∷ [])) h
    ∙ ap (λ x. calls ds (record { log_file = none; written = x }))
        (append_assoc ws ((stdout, line) ∷ []) (lines_on stdout cs))

-- From the start of the program, lines go to the standard output up to the first call of
-- `initializeLogger`; its line and all later ones, of further calls of it too, go to the stream that
-- this first call chose; and every line is written once, in the order of the calls.
pub calls-initializes :
    (cs ds : List Call) (path : Option Text) (opens : Bool)
    → All OnlyLogs cs
    → let f = open_log path opens in
      calls (cs ++ (initializes path opens ∷ ds)) new_logger ≡ record {
        log_file = some f;
        written = lines_on stdout cs ++ lines_on f (initializes path opens ∷ ds);
      }
unfolding calls
calls-initializes cs ds path opens h =
    let f = open_log path opens in
    calls-unset cs (initializes path opens ∷ ds) [] h
    ∙ calls-set f ds (lines_on stdout cs ++ ((f, codes "Logger Initialized") ∷ []))
    ∙ ap (λ x. record { log_file = some f; written = x })
        (append_assoc (lines_on stdout cs) ((f, codes "Logger Initialized") ∷ []) (lines_on f ds))
