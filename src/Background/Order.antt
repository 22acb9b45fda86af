-- ===== src/Background/Order.antt =====
-- hcv_background.cc: the todos stand by rising times, each under its own.
use helpcovid.Background.Loop.{process_sigterm-closes}
use mathlib.Core.Option.{none}
use mathlib.Core.List.{[]}
use helpcovid.Outcome.{
  ◌>>=◌, ok-injective, require-eq-ok, background, require, >>=-eq-ok, ok, Outcome,
}
use helpcovid.Background.{
  true, other_signal, sigpipe, sigxcpu, sighup, sigterm, short, poll_failed, failed, timed_out,
  quiet, readable, got, Signal, process_sigterm, Polled, Delivery, poll_round, on_timer, on_signal,
  on_event, background_loop, clamp_delay, background, leb, require, some, ltb, do_event, arm_timer,
  ok, max_todo, ◌∷◌, Option, length, Todo, Outcome, Bool, insert_todo, do_postpone, Background,
}
use helpcovid.Prelude.{
  if-false, ◌∙◌, if-true, sym, ◌⊎◌, ap, leb→le, refl, ◌==◌, leb, inr, ltb→lt, inl, ltb, ◌+◌, arith,
  Bool-cases, ◌≤◌, ◌≡◌, length, List, ℕ,
}

-- Strictly rising keys from `least` on, each the time of its todo.
abbrev pub IsRising : {A : Type 0} → ℕ → List (ℕ × Todo A) → Type 0
IsRising least [] = Unit
IsRising least (first ∷ more) =
    (least ≤ first.0) × (first.1.time ≡ first.0) × IsRising (first.0 + 1) more

-- The map of the todos is in order, and it is not larger than the test of its size allows.
pub record InOrder {A : Type 0} (bg : Background A) : Type 0 where
  pub rising : IsRising 0 bg.todos
  pub small : length bg.todos ≤ max_todo + 1

module _ {A : Type 0} where
  IsRising-weaken :
      (least least' : ℕ) (todos : List (ℕ × Todo A))
      → least' ≤ least
      → IsRising least todos
      → IsRising least' todos
  IsRising-weaken least least' [] h r = tt
  IsRising-weaken least least' (first ∷ more) h (a, b, c) = (omega arith, b, c)

  insert_todo-IsRising :
      (least time : ℕ) (action : A) (todos : List (ℕ × Todo A))
      → least ≤ time
      → IsRising least todos
      → IsRising least (insert_todo time (record { time = time; action = action }) todos)
  unfolding insert_todo
  insert_todo-IsRising least time action [] h r = (h, refl, tt)
  insert_todo-IsRising least time action ((t, other) ∷ more) h (a, b, c) =
      elim (Bool-cases (ltb time t)) [
        | inl x ↦ rw x (h, refl, (omega (arith, ltb→lt time t x), b, c))
        | inr x ↦ elim (Bool-cases (time == t)) [
          | inl y ↦ rw x (rw y (a, b, c))
          | inr y ↦
              let later : t + 1 ≤ time = ground (arith, x, y) in
              rw x (rw y (a, b, insert_todo-IsRising (t + 1) time action more later c))
        ]
      ]

  length-insert_todo :
      (time : ℕ) (todo : Todo A) (todos : List (ℕ × Todo A))
      → length (insert_todo time todo todos) ≤ length todos + 1
  unfolding insert_todo
  length-insert_todo time todo [] = omega arith
  length-insert_todo time todo ((t, other) ∷ more) =
      ground (arith, length-insert_todo time todo more)

  -- A postponed todo keeps the map of the todos in order and within its size, whatever the time, the
  -- delay and the action.
  pub do_postpone-InOrder :
      (now : ℕ) (written : Bool) (delay : ℕ) (action : Option A) (bg : Background A)
      {bg' : Background A}
      → InOrder bg
      → do_postpone now written delay action bg ≡ ok bg'
      → InOrder bg'
  unfolding do_postpone
  do_postpone-InOrder now written delay none bg v e = ground (arith, e)
  do_postpone-InOrder now written delay (some action) bg v e =
      let (_, few, k) = >>=-eq-ok (require (leb (length bg.todos) max_todo) background 353) _ e in
      let (_, _, k') = >>=-eq-ok (require written background 358) _ k in
      let time = now + clamp_delay delay in
      let small = leb→le _ _ (require-eq-ok _ background 353 few) in
      let added : Todo A = record { time = time; action = action } in
      rw (← ok-injective k') (record {
        rising = insert_todo-IsRising 0 time action bg.todos (omega arith) v.rising;
        small = omega (arith, length-insert_todo time added bg.todos);
      })

todos-cases :
    {A : Type 0} (todos : List (ℕ × Todo A))
    → (todos ≡ []) ⊎ ((first : ℕ × Todo A) × (more : List (ℕ × Todo A)) × (todos ≡ first ∷ more))
todos-cases [] = inl refl
todos-cases (first ∷ more) = inr (first, more, refl)

module _ {A : Type 0} where
  InOrder-todos : (bg bg' : Background A) → bg'.todos ≡ bg.todos → InOrder bg → InOrder bg'
  InOrder-todos bg bg' e v = record { rising = rw e v.rising; small = rw e v.small }

  -- Setting the timer leaves the todos.
  pub arm_timer-todos :
      (set : Bool) (bg bg' : Background A) → arm_timer set bg ≡ ok bg' → bg'.todos ≡ bg.todos
  unfolding arm_timer
  arm_timer-todos set bg bg' e = elim (todos-cases bg.todos) [
    | inl x ↦ let e1 = rw (x, arm_timer) at e in ground (arith, e1)
    | inr (next, more, x) ↦
        let e1 = rw (x, arm_timer) at e in
        let (_, _, k) = >>=-eq-ok (require set background 334) _ e1 in
        ap (λ b. b.todos) (sym (ok-injective k))
  ]

  arm_timer-InOrder :
      (set : Bool) (bg bg' : Background A) → InOrder bg → arm_timer set bg ≡ ok bg' → InOrder bg'
  arm_timer-InOrder set bg bg' v e = InOrder-todos bg bg' (arm_timer-todos set bg bg' e) v

module _ {A : Type 0} (call : A → Background A → Outcome (Background A)) (set : Bool)
    (kept : (a : A) (bg bg' : Background A) → InOrder bg → call a bg ≡ ok bg' → InOrder bg') where
  do_event-InOrder :
      (bg bg' : Background A) → InOrder bg → do_event call set bg ≡ ok bg' → InOrder bg'
  unfolding do_event
  do_event-InOrder bg bg' v e = elim (todos-cases bg.todos) [
    | inl x ↦ let e1 = rw (x, do_event) at e in InOrder-todos bg bg' (ground (arith, e1)) v
    | inr (first, more, x) ↦
        let e1 = rw (x, do_event) at e in
        let (b1, called, k) = >>=-eq-ok (call first.1.action (record bg { todos = more })) _ e1 in
        let rising : IsRising 0 (first ∷ more) = rw x at v.rising in
        let size : length (first ∷ more) ≤ max_todo + 1 = rw x at v.small in
        let left : InOrder (record bg { todos = more }) = record {
          rising = IsRising-weaken (first.0 + 1) 0 more (omega arith) rising.2;
          small = omega (arith, size);
        } in
        arm_timer-InOrder set b1 bg' (kept first.1.action _ b1 left called) k
  ]

  on_event-InOrder :
      (event : Delivery ℕ) (bg bg' : Background A)
      → InOrder bg
      → on_event call set event bg ≡ ok bg'
      → InOrder bg'
  unfolding on_event
  on_event-InOrder quiet bg bg' v e = rw (← ok-injective e) v
  on_event-InOrder failed bg bg' v e = rw (← ok-injective e) v
  on_event-InOrder short bg bg' v e = rw (← ok-injective e) v
  on_event-InOrder (got evrk) bg bg' v e =
      do_event-InOrder (record bg { events = 0 }) bg'
        (InOrder-todos bg (record bg { events = 0 }) refl v) e

  on_signal-InOrder :
      (signal : Delivery Signal) (bg bg' : Background A)
      → InOrder bg
      → on_signal call set signal bg ≡ ok bg'
      → InOrder bg'
  unfolding on_signal process_sigterm
  on_signal-InOrder quiet bg bg' v e = rw (← ok-injective e) v
  on_signal-InOrder failed bg bg' v e = ground (arith, e)
  on_signal-InOrder short bg bg' v e = ground (arith, e)
  on_signal-InOrder (got sigterm) bg bg' v e =
      let (closed, run, e1) = >>=-eq-ok (process_sigterm call set bg) _ e in
      let (_, _, same) = process_sigterm-closes call set bg run in
      InOrder-todos bg bg' (sym (ap (λ b. b.todos) (ok-injective e1)) ∙ same) v
  on_signal-InOrder (got sighup) bg bg' v e = ground (arith, e)
  on_signal-InOrder (got sigxcpu) bg bg' v e = ground (arith, e)
  on_signal-InOrder (got sigpipe) bg bg' v e = do_event-InOrder bg bg' v e
  on_signal-InOrder (got other_signal) bg bg' v e = ground (arith, e)

  on_timer-InOrder :
      (timer : Delivery ℕ) (bg bg' : Background A)
      → InOrder bg
      → on_timer call set timer bg ≡ ok bg'
      → InOrder bg'
  unfolding on_timer
  on_timer-InOrder quiet bg bg' v e = rw (← ok-injective e) v
  on_timer-InOrder failed bg bg' v e = ground (arith, e)
  on_timer-InOrder short bg bg' v e = ground (arith, e)
  on_timer-InOrder (got n) bg bg' v e = rw (← ok-injective e) v

  poll_round-InOrder :
      (p : Polled) (bg bg' : Background A)
      → InOrder bg
      → poll_round call set p bg ≡ ok bg'
      → InOrder bg'
  unfolding poll_round
  poll_round-InOrder timed_out bg bg' v e = rw (← ok-injective e) v
  poll_round-InOrder poll_failed bg bg' v e = ground (arith, e)
  poll_round-InOrder (readable event signal timer) bg bg' v e =
      let (b1, first, k) = >>=-eq-ok (on_event call set event bg) _ e in
      let (b2, second, third) = >>=-eq-ok (on_signal call set signal b1) _ k in
      on_timer-InOrder timer b2 bg'
        (on_signal-InOrder signal b1 b2 (on_event-InOrder event bg b1 v first) second) third

  -- The loop keeps the map of the todos in order and within its size if the todos that it runs do.
  pub background_loop-InOrder :
      (ps : List Polled) (bg : Background A) {bg' : Background A} {left : List Polled}
      → InOrder bg
      → background_loop call set ps bg ≡ ok (bg', left)
      → InOrder bg'
  unfolding background_loop
  background_loop-InOrder [] bg v e = rw (← ap (λ r. r.0) (ok-injective e)) v
  background_loop-InOrder (p ∷ ps) bg v e = elim (Bool-cases bg.should_stop) [
    | inl x ↦ rw (← ap (λ r. r.0) (ok-injective (sym (if-true _ _ x) ∙ e))) v
    | inr x ↦
        let e1 = sym (if-false _ _ x) ∙ e in
        let (b1, here, rest) = >>=-eq-ok (poll_round call set p bg) _ e1 in
        background_loop-InOrder ps b1 (poll_round-InOrder p bg b1 v here) rest
  ]

-- If there is no todo, a postponed one is run by the event that postponing it has written, at once and
-- whatever its delay.
pub do_event-do_postpone :
    {A : Type 0} (call : A → Background A → Outcome (Background A)) (set : Bool) (now delay : ℕ)
    (action : A) (bg : Background A)
    → bg.todos ≡ []
    → (do_postpone now true delay (some action) bg >>= do_event call set)
      ≡ (call action (record bg { todos = []; events = bg.events + 1 }) >>= arm_timer set)
unfolding do_postpone do_event insert_todo
do_event-do_postpone call set now delay action bg e = rw (e, do_postpone) refl
