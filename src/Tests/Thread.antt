-- ===== src/Tests/Thread.antt =====
-- Runs of the background thread and of the user model, for the results that have hypotheses.
use helpcovid.Background.Served.{background_loop-Served, events_in, Served, postpone_all, Postpones}
use helpcovid.Background.Loop.{background_loop-sigterm}
use helpcovid.Models.Validation.{user_model_validate-refuses}
use helpcovid.Outcome.{◌>>=◌, ok, Outcome}
use helpcovid.Models.{user_model_validate, UserModel}
use helpcovid.Background.Order.{do_event-do_postpone, InOrder}
use helpcovid.Background.{
  arm_timer, quiet, do_event, sigterm, timed_out, got, readable, poll_round, do_postpone,
  background_loop, Polled, Background,
}
use helpcovid.Prelude.{
  ap, ◌++◌, some, none, codes, ◌+◌, true, false, arith, [], List, ◌≡◌, ◌^◌, Bytes, ℕ, zero, suc,
  refl, ◌∷◌,
}

-- An action of the todos is a number, which postpones one more todo when it is not zero.
abbrev run_todo : ℕ → Background ℕ → Outcome (Background ℕ)
run_todo zero bg = ok bg
run_todo (suc n) bg = do_postpone 5 true 0 (some n) bg

abbrev idle : Background ℕ
idle = record {
  todos = [];
  events = 0;
  timer = none;
  should_stop = false;
  web_open = true;
  database_open = true;
}

InOrder-idle : InOrder idle
InOrder-idle = record { rising = tt; small = omega arith }

run_todo-postpones :
    (n : ℕ) (bg after : Background ℕ)
    → run_todo n bg ≡ ok after
    → (posts : List (ℕ × ℕ × ℕ)) × (postpone_all posts bg ≡ ok after)
run_todo-postpones zero bg after e = ([], e)
run_todo-postpones (suc n) bg after e =
    ((5, 0, n) ∷ [], ap (λ (m : Outcome (Background ℕ)). m >>= postpone_all []) e)

run_todo-Postpones : Postpones run_todo
run_todo-Postpones = record { postpones = run_todo-postpones }

abbrev postponed_time : ℕ
postponed_time = 10 ^ 7 + 5

abbrev waiting : Background ℕ
waiting = record idle {
  todos = (postponed_time, record { time = postponed_time; action = 0 }) ∷ [];
  events = 1;
}

background_runs : Unit {0}
unfolding do_postpone background_loop
background_runs = tt

InOrder-waiting : InOrder waiting
InOrder-waiting = record { rising = (omega arith, refl, tt); small = omega arith }

abbrev stopped : Background ℕ
stopped = record idle { should_stop = true; web_open = false; database_open = false }

abbrev last_poll : Polled
last_poll = readable (got 1) (got sigterm) quiet

looped :
    background_loop run_todo true (last_poll ∷ timed_out ∷ []) waiting
    ≡ ok (stopped, timed_out ∷ [])
unfolding background_runs
looped = refl

one_round : poll_round run_todo true last_poll waiting ≡ ok stopped
unfolding background_runs
one_round = refl

background_loop-Served_example :
    ((done : List Polled) × ((last_poll ∷ timed_out ∷ []) ≡ done ++ (timed_out ∷ []))
      × Served run_todo (events_in done) waiting.todos stopped.todos)
    × InOrder stopped
background_loop-Served_example =
    background_loop-Served run_todo true run_todo-Postpones (last_poll ∷ timed_out ∷ []) waiting
      InOrder-waiting looped

background_loop-sigterm_example :
    (background_loop run_todo true (last_poll ∷ timed_out ∷ []) waiting
      ≡ ok (stopped, timed_out ∷ []))
    × (stopped.should_stop ≡ true)
    × (stopped.web_open ≡ false)
    × (stopped.database_open ≡ false)
background_loop-sigterm_example =
    background_loop-sigterm run_todo true (got 1) quiet (timed_out ∷ []) waiting stopped refl
      one_round

do_event-do_postpone_example :
    (do_postpone 5 true 999 (some 0) idle >>= do_event run_todo true)
    ≡ (run_todo 0 (record idle { events = 1 }) >>= arm_timer true)
do_event-do_postpone_example = do_event-do_postpone run_todo true 5 999 0 idle refl

abbrev nobody : UserModel
nobody = record { first_name = []; family_name = codes "B"; email = codes "x"; gender = codes "f" }

abbrev insert_row : Bytes → List Bytes → ℕ → Outcome ℕ
insert_row statement values rows = ok (rows + 1)

user_model_validate-refuses_example : (user_model_validate (λ s. false) nobody nobody).0 ≡ true
user_model_validate-refuses_example = user_model_validate-refuses (λ s. false) nobody nobody
