-- ===== src/Http/Lifecycle.antt =====
-- http_server.cpp: `start`, `start_server_and_wait`, `stop` and `cleanup_thread_func`, as the steps
-- of three threads and of what is outside. Of the HTTP library: `listen` returns false when it
-- cannot bind or accept, and true after `stop` has closed a server that listens; `stop` does
-- nothing to one that does not listen yet. A wait ends at any time.
pub mod Results
pub mod Shutdown
pub mod Cleaning
use ip_server.Base.{ℕ, suc, ◌≡◌, ◌⊎◌, Bool, true, false, ◌&&◌, Option, none, some, if◌then◌else◌}
use ip_server.Json.{Json}
use ip_server.Http.{Server}

-- The main thread: in the grace period, in the loop, in the join behind it, behind
-- `start_server_and_wait`, and behind `start`.
pub data Phase : Type 0 where
  grace : Phase
  waiting : Phase
  joining : Phase
  finishing : Bool → Phase
  returned : Bool → Phase

-- The server thread.
pub data Listener : Type 0 where
  starting : Listener
  listening : Listener
  done : Listener

-- The clean-up thread: at the head of the loop, asleep, at the second test, in a round.
pub data Cleaner : Type 0 where
  absent : Cleaner
  checking : Cleaner
  sleeping : Cleaner
  woken : Cleaner
  cleaning : Cleaner
  ended : Cleaner

pub record Life : Type 0 where
  pub phase : Phase
  pub listener : Listener
  pub cleaner : Cleaner
  -- `server_running`, `shutdown_requested`, a `stop` that the library has taken, and the stop
  -- token.
  pub running : Bool
  pub shutdown : Bool
  pub closing : Bool
  pub stop_requested : Bool
  -- The clean-up rounds that were made.
  pub rounds : ℕ

unfoldable pub close : Listener → Bool → Bool
close listening closing = true
close starting closing = closing
close done closing = closing

-- `server_.stop()`.
unfoldable pub stop : Life → Life
stop s = record s { closing = close s.listener s.closing }

-- The main and the server thread.
pub data Step (s : Life) : Life → Type 0 where
  bind_fails : s.listener ≡ starting → Step s (record s { listener = done; running = false })
  binds : s.listener ≡ starting → Step s (record s { listener = listening })
  accept_fails : s.listener ≡ listening → Step s (record s { listener = done; running = false })
  closed :
      s.listener ≡ listening
      → s.closing ≡ true
      → Step s (record s { listener = done; running = true })
  fails_early : s.phase ≡ grace → s.running ≡ false → Step s (record s { phase = finishing false })
  grace_over : s.phase ≡ grace → s.running ≡ true → Step s (record s { phase = waiting })
  loop_ends :
      s.phase ≡ waiting
      → (s.shutdown ≡ true) ⊎ (s.running ≡ false)
      → Step s (record (stop s) { phase = joining })
  joins : s.phase ≡ joining → s.listener ≡ done → Step s (record s { phase = finishing s.running })
  returns :
      (b : Bool)
      → s.phase ≡ finishing b
      → Step s (record s { phase = returned b; stop_requested = true })

-- The clean-up thread.
pub data Clean (s : Life) : Life → Type 0 where
  sees_stop :
      s.cleaner ≡ checking → s.stop_requested ≡ true → Clean s (record s { cleaner = ended })
  sleeps :
      s.cleaner ≡ checking → s.stop_requested ≡ false → Clean s (record s { cleaner = sleeping })
  wakes : s.cleaner ≡ sleeping → Clean s (record s { cleaner = woken })
  begins : s.cleaner ≡ woken → s.stop_requested ≡ false → Clean s (record s { cleaner = cleaning })
  cleans : s.cleaner ≡ cleaning → Clean s (record s { cleaner = checking; rounds = suc s.rounds })
  skips : s.cleaner ≡ woken → s.stop_requested ≡ true → Clean s (record s { cleaner = checking })

-- The signal handler of `main`, and a call of `IPGeoHTTPServer::stop` from another thread.
pub data Outside (s : Life) : Life → Type 0 where
  signals : Outside s (record s { shutdown = true })
  stops : Outside s (stop s)

-- `start` behind its test, with the shutdown flag as it is found.
unfoldable pub init : Bool → Bool → Life
init limits shutdown = record {
  phase = grace;
  listener = starting;
  cleaner = if limits then checking else absent;
  running = true;
  shutdown = shutdown;
  closing = false;
  stop_requested = false;
  rounds = 0;
}

unfoldable pub is_set : {A : Type 0} → Option A → Bool
is_set none = false
is_set (some _) = true

-- `start`: nothing runs without a lookup handler, and the result is false.
unfoldable pub start :
    {J : Json} {Services Latency : Type 0} → Server J Services Latency → Bool → Option Life
start s shutdown = elim s.lookup_handler [
  | none ↦ none
  | some _ ↦ some (init (s.enable_rate_limiter && is_set s.rate_limiter) shutdown)
]

pub data Reach (s : Life) : Life → Type 0 where
  here : Reach s s
  steps : {t u : Life} → Reach s t → Step t u → Reach s u
  cleaner_steps : {t u : Life} → Reach s t → Clean t u → Reach s u
  outside : {t u : Life} → Reach s t → Outside t u → Reach s u
