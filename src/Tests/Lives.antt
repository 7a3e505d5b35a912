-- ===== src/Tests/Lives.antt =====
-- The three threads of the server in one order of their steps.
use ip_server.Base.{refl, inl, true, false, arith}
use ip_server.Http.Lifecycle.{
  Life, waiting, returned, listening, done, checking, init, stop, close, binds, grace_over,
  loop_ends, closed, joins, returns, signals, Reach, here, steps, outside,
}
use ip_server.Http.Lifecycle.Results.{IsResult, start_result}
use ip_server.Http.Lifecycle.Shutdown.{Returns, shutdown-Returns}
use ip_server.Http.Lifecycle.Cleaning.{Ends, cleaner-Ends}

-- A server that came up and was shut down by a signal.
abbrev over : Life
over = record {
  phase = returned true;
  listener = done;
  cleaner = checking;
  running = true;
  shutdown = true;
  closing = true;
  stop_requested = true;
  rounds = 0;
}

shut_down : Reach (init true false) over
unfolding init stop close
shut_down =
    steps
      (steps
        (steps
          (steps (outside (steps (steps here (binds refl)) (grace_over refl refl)) signals)
            (loop_ends refl (inl refl)))
          (closed refl refl))
        (joins refl refl))
      (returns true refl)

start_result_example : IsResult true over
start_result_example = start_result true false true shut_down refl

-- The same server when the signal has come.
abbrev asked : Life
asked = record over {
  phase = waiting;
  listener = listening;
  closing = false;
  stop_requested = false;
}

shutdown-Returns_example : Returns 5 asked
shutdown-Returns_example = shutdown-Returns 5 asked (omega arith) (inl refl, tt) refl

cleaner-Ends_example : Ends 3 1 over
cleaner-Ends_example = cleaner-Ends over refl
