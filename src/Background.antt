-- ===== src/Background.antt =====
-- hcv_background.cc: the todos of the background thread, the handlers of its events and its loop.
-- Times and delays are whole nanoseconds. A todo's function and data pointer are one action `A`, and
-- `call` is what running it does to the state, which includes the todos, as it may postpone more.
pub mod Order
pub mod Served
pub mod Loop
pub mod Control
use mathlib.Core.Option.{none}
use mathlib.Core.List.{[]}
use helpcovid.Outcome.{database, web, ◌>>◌, require, ◌>>=◌, background, ok, fatal, Outcome}
use helpcovid.Prelude.{
  length, leb, ◌+◌, true, some, ◌==◌, ◌∷◌, ltb, false, Option, ◌^◌, if◌then◌else◌, List, Bool, ℕ,
}

-- `hcv_todo_st`
pub record Todo (A : Type 0) : Type 0 where
  pub time : ℕ
  pub action : A

-- The global state: the map of the todos by rising time, the counter of hcv_bg_event_fd, the absolute
-- time to which hcv_bg_timer_fd is set, hcv_should_stop_bg_thread, and whether the web server and the
-- database are open.
pub record Background (A : Type 0) : Type 0 where
  pub todos : List (ℕ × Todo A)
  pub events : ℕ
  pub timer : Option ℕ
  pub should_stop : Bool
  pub web_open : Bool
  pub database_open : Bool

abbrev pub postpone_minimal_delay : ℕ
postpone_minimal_delay = 10 ^ 7

abbrev pub postpone_maximal_delay : ℕ
postpone_maximal_delay = 10 ^ 12

abbrev pub max_todo : ℕ
max_todo = 1024

-- The first assignments of `hcv_do_postpone_background`.
unfoldable pub clamp_delay : ℕ → ℕ
clamp_delay delay =
    if ltb delay postpone_minimal_delay
    then postpone_minimal_delay
    else if ltb postpone_maximal_delay delay
    then postpone_maximal_delay
    else delay

module _ {A : Type 0} where
  -- `hcv_todo_map.insert`, which leaves a key that is there.
  unfoldable pub insert_todo : ℕ → Todo A → List (ℕ × Todo A) → List (ℕ × Todo A)
  insert_todo time todo [] = (time, todo) ∷ []
  insert_todo time todo ((t, other) ∷ more) =
      let rest = insert_todo time todo more in
      if ltb time t
      then (time, todo) ∷ (t, other) ∷ more
      else if time == t
      then (t, other) ∷ more
      else (t, other) ∷ rest

  -- `hcv_do_postpone_background` at the time `now`; `none` is an empty std::function, and `written`
  -- says whether the write to hcv_bg_event_fd succeeds.
  unfoldable pub do_postpone : ℕ → Bool → ℕ → Option A → Background A → Outcome (Background A)
  unfolding clamp_delay insert_todo
  do_postpone now written delay none bg = fatal background 348
  do_postpone now written delay (some action) bg = do
    let todotime = now + clamp_delay delay
    require (leb (length bg.todos) max_todo) background 353
    require written background 358
    ok (record bg {
      todos = insert_todo todotime (record { time = todotime; action = action }) bg.todos;
      events = bg.events + 1;
    })

  -- The end of `hcv_bg_do_event`: the timer is set to the first todo that is left; `set` says whether
  -- `timerfd_settime` succeeds.
  unfoldable pub arm_timer : Bool → Background A → Outcome (Background A)
  arm_timer set bg = elim bg.todos [
    | [] ↦ ok bg
    | next ∷ _ ↦ require set background 334 >> ok (record bg { timer = some next.1.time })
  ]

-- What a file descriptor that poll watches delivers: nothing, a failed read, a read of another size,
-- or a value.
pub data Delivery (V : Type 0) : Type 0 where
  quiet failed short : Delivery V
  got : V → Delivery V

pub data Signal : Type 0 where
  sigterm sighup sigxcpu sigpipe other_signal : Signal

-- What `poll` returns: a timeout, an error, or what the event, signal and timer descriptors deliver.
pub data Polled : Type 0 where
  timed_out poll_failed : Polled
  readable : Delivery ℕ → Delivery Signal → Delivery ℕ → Polled

module _ {A : Type 0} (call : A → Background A → Outcome (Background A)) (set : Bool) where
  -- `hcv_bg_do_event`, which takes no account of the event's number.
  unfoldable pub do_event : Background A → Outcome (Background A)
  unfolding arm_timer
  do_event bg = elim bg.todos [
    | [] ↦ ok bg
    | first ∷ more ↦ call first.1.action (record bg { todos = more }) >>= arm_timer set
  ]

  -- `hcv_process_SIGTERM_signal`: hcv_stop_web and hcv_close_database.
  unfoldable pub process_sigterm : Background A → Outcome (Background A)
  process_sigterm bg = do
    require (bg.web_open) web 130
    require (bg.database_open) database 860
    ok (record bg { web_open = false; database_open = false })

  -- The test of hcv_bg_event_fd, whose counter is 0 again when it has been read; a failed or short read
  -- is only logged.
  unfoldable pub on_event : Delivery ℕ → Background A → Outcome (Background A)
  unfolding do_event
  on_event (got evrk) bg = do_event (record bg { events = 0 })
  on_event _ bg = ok bg

  -- The chain of tests of `ssi_signo`; SIGHUP and SIGXCPU are not implemented.
  unfoldable pub on_signal : Delivery Signal → Background A → Outcome (Background A)
  unfolding do_event process_sigterm
  on_signal quiet bg = ok bg
  on_signal failed bg = fatal background 146
  on_signal short bg = fatal background 150
  on_signal (got sigterm) bg = do
    closed ← process_sigterm bg
    ok (record closed { should_stop = true })
  on_signal (got sighup) bg = fatal background 300
  on_signal (got sigxcpu) bg = fatal background 291
  on_signal (got sigpipe) bg = do_event bg
  on_signal (got other_signal) bg = fatal background 185

  -- The test of hcv_bg_timer_fd: expirations are only logged.
  unfoldable pub on_timer : Delivery ℕ → Background A → Outcome (Background A)
  on_timer failed bg = fatal background 194
  on_timer short bg = fatal background 198
  on_timer _ bg = ok bg

  -- The body of the loop behind `poll`.
  unfoldable pub poll_round : Polled → Background A → Outcome (Background A)
  unfolding on_event on_signal on_timer
  poll_round timed_out bg = ok bg
  poll_round poll_failed bg = fatal background 208
  poll_round (readable event signal timer) bg = do
    b1 ← on_event event bg
    b2 ← on_signal signal b1
    on_timer timer b2

  -- The loop of `hcv_background_thread_body` on the results of `poll`: the state behind it, or behind
  -- the results, and the results that are left.
  unfoldable pub background_loop : List Polled → Background A → Outcome (Background A × List Polled)
  unfolding poll_round
  background_loop [] bg = ok (bg, [])
  background_loop (p ∷ ps) bg =
      let next : Outcome (Background A × List Polled) = poll_round p bg >>= background_loop ps in
      if bg.should_stop then ok (bg, p ∷ ps) else next

-- `hcv_stop_background_thread`; `fd_ok` says whether hcv_bg_event_fd is open.
unfoldable pub stop_background_thread :
    {A : Type 0} → Bool → Bool → Background A → Outcome (Background A)
stop_background_thread fd_ok written bg = do
  require fd_ok background 262
  require written background 266
  ok (record bg { should_stop = true; events = bg.events + 1 })
