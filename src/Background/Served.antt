-- ===== src/Background/Served.antt =====
-- hcv_background.cc: which todos the loop of the thread runs, and in which order.
use helpcovid.Background.Loop.{process_sigterm-closes, on_timer-same}
use helpcovid.Prelude.{
  if-false, inr, if-true, inl, arith, Bool-cases, ◌++◌, refl, ◌∙◌, sym, some, ap, ◌≡◌,
}
use helpcovid.Background.Order.{
  background_loop-InOrder, arm_timer-todos, do_postpone-InOrder, InOrder,
}
use helpcovid.Outcome.{◌>>=◌, >>=-eq-ok, ok-injective, ok, Outcome}
use helpcovid.Background.{
  other_signal, sigpipe, sigxcpu, sighup, sigterm, short, poll_failed, timed_out, failed, quiet,
  process_sigterm, got, Signal, readable, poll_round, on_signal, on_event, background_loop,
  Delivery, some, true, do_postpone, do_event, ◌∷◌, ok, Todo, Bool, ℕ, Outcome, Polled, Background,
}
use mathlib.Core.List.{List, []}

-- What makes `hcv_bg_do_event` run: hcv_bg_event_fd has been read, or SIGPIPE.
pub data Event : Type 0 where
  event_read sigpipe_received : Event

-- The events that poll delivers, in the order in which they are handled: one for hcv_bg_event_fd, however
-- often it has been written.
abbrev pub of_event : Delivery ℕ → List Event
of_event (got evrk) = event_read ∷ []
of_event _ = []

abbrev pub of_signal : Delivery Signal → List Event
of_signal (got sigpipe) = sigpipe_received ∷ []
of_signal _ = []

abbrev pub events_of : Polled → List Event
events_of (readable event signal timer) = of_event event ++ of_signal signal
events_of _ = []

abbrev pub events_in : List Polled → List Event
events_in [] = []
events_in (p ∷ ps) = events_of p ++ events_in ps

-- Events, from the todos of one state to those of another: each one takes the first todo off the map,
-- and runs it on a state that has the other ones; without a todo it does nothing.
abbrev pub Served :
    {A : Type 0}
    → (A → Background A → Outcome (Background A))
    → List Event
    → List (ℕ × Todo A)
    → List (ℕ × Todo A)
    → Type 0
Served call [] todos last = last ≡ todos
Served call (event ∷ events) [] last = Served call events [] last
Served {A} call (event ∷ events) (first ∷ more) last =
    (bg : Background A) × (after : Background A) × (bg.todos ≡ more)
    × (call first.1.action bg ≡ ok after)
    × Served call events after.todos last

-- `hcv_do_postpone_background` for each of these times, delays and actions.
abbrev pub postpone_all : {A : Type 0} → List (ℕ × ℕ × A) → Background A → Outcome (Background A)
postpone_all [] bg = ok bg
postpone_all ((now, delay, action) ∷ rest) bg =
    do_postpone now true delay (some action) bg >>= postpone_all rest

-- The functions of the todos change the thread's state by postponing todos only.
pub record Postpones {A : Type 0} (call : A → Background A → Outcome (Background A)) : Type 0 where
  pub postpones :
      (action : A) (bg after : Background A)
      → call action bg ≡ ok after
      → (posts : List (ℕ × ℕ × A)) × (postpone_all posts bg ≡ ok after)

postpone_all-InOrder :
    {A : Type 0} (posts : List (ℕ × ℕ × A)) (bg : Background A) {after : Background A}
    → InOrder bg
    → postpone_all posts bg ≡ ok after
    → InOrder after
postpone_all-InOrder [] bg v e = rw (← ok-injective e) v
postpone_all-InOrder ((now, delay, action) ∷ rest) bg v e =
    let (b1, first, later) = >>=-eq-ok (do_postpone now true delay (some action) bg) _ e in
    postpone_all-InOrder rest b1 (do_postpone-InOrder now true delay (some action) bg v first) later

module _ {A : Type 0} (call : A → Background A → Outcome (Background A)) (set : Bool) where
  Served-append :
      (events more_events : List Event) (todos mid last : List (ℕ × Todo A))
      → Served call events todos mid
      → Served call more_events mid last
      → Served call (events ++ more_events) todos last
  Served-append [] later todos mid last s t = rw s at t
  Served-append (event ∷ events) later [] mid last s t = Served-append events later [] mid last s t
  Served-append (event ∷ events) later (first ∷ more) mid last (bg, after, others, ran, s) t =
      (bg, after, others, ran, Served-append events later after.todos mid last s t)

  do_event-Served :
      (event : Event) (todos : List (ℕ × Todo A)) (bg bg' : Background A)
      → bg.todos ≡ todos
      → do_event call set bg ≡ ok bg'
      → Served call (event ∷ []) todos bg'.todos
  unfolding do_event
  do_event-Served event [] bg bg' x e =
      let e1 = rw (x, do_event) at e in ap (λ b. b.todos) (sym (ok-injective e1)) ∙ x
  do_event-Served event (first ∷ more) bg bg' x e =
      let e1 = rw (x, do_event) at e in
      let (b1, ran, k) = >>=-eq-ok (call first.1.action (record bg { todos = more })) _ e1 in
      (record bg { todos = more }, b1, refl, ran, arm_timer-todos set b1 bg' k)

  on_event-Served :
      (event : Delivery ℕ) (bg bg' : Background A)
      → on_event call set event bg ≡ ok bg'
      → Served call (of_event event) bg.todos bg'.todos
  unfolding on_event
  on_event-Served quiet bg bg' e = ap (λ b. b.todos) (sym (ok-injective e))
  on_event-Served failed bg bg' e = ap (λ b. b.todos) (sym (ok-injective e))
  on_event-Served short bg bg' e = ap (λ b. b.todos) (sym (ok-injective e))
  on_event-Served (got evrk) bg bg' e =
      do_event-Served event_read bg.todos (record bg { events = 0 }) bg' refl e

  on_signal-Served :
      (signal : Delivery Signal) (bg bg' : Background A)
      → on_signal call set signal bg ≡ ok bg'
      → Served call (of_signal signal) bg.todos bg'.todos
  unfolding on_signal
  on_signal-Served quiet bg bg' e = ap (λ b. b.todos) (sym (ok-injective e))
  on_signal-Served failed bg bg' e = ground (arith, e)
  on_signal-Served short bg bg' e = ground (arith, e)
  on_signal-Served (got sigterm) bg bg' e =
      let (closed, run, e1) = >>=-eq-ok (process_sigterm call set bg) _ e in
      let (_, _, same) = process_sigterm-closes call set bg run in
      sym (ap (λ b. b.todos) (ok-injective e1)) ∙ same
  on_signal-Served (got sighup) bg bg' e = ground (arith, e)
  on_signal-Served (got sigxcpu) bg bg' e = ground (arith, e)
  on_signal-Served (got sigpipe) bg bg' e = do_event-Served sigpipe_received bg.todos bg bg' refl e
  on_signal-Served (got other_signal) bg bg' e = ground (arith, e)

  poll_round-Served :
      (p : Polled) (bg bg' : Background A)
      → poll_round call set p bg ≡ ok bg'
      → Served call (events_of p) bg.todos bg'.todos
  unfolding poll_round
  poll_round-Served timed_out bg bg' e = ap (λ b. b.todos) (sym (ok-injective e))
  poll_round-Served poll_failed bg bg' e = ground (arith, e)
  poll_round-Served (readable event signal timer) bg bg' e =
      let (b1, first, k) = >>=-eq-ok (on_event call set event bg) _ e in
      let (b2, second, third) = >>=-eq-ok (on_signal call set signal b1) _ k in
      let same = ap (λ b. b.todos) (on_timer-same call set timer b2 third) in
      rw same (
        Served-append (of_event event) (of_signal signal) bg.todos b1.todos b2.todos
          (on_event-Served event bg b1 first) (on_signal-Served signal b1 b2 second))

  loop-Served :
      (ps : List Polled) (bg : Background A) {bg' : Background A} {left : List Polled}
      → background_loop call set ps bg ≡ ok (bg', left)
      → (done : List Polled) × (ps ≡ done ++ left) × Served call (events_in done) bg.todos bg'.todos
  unfolding background_loop
  loop-Served [] bg e =
      ([], ap (λ r. r.1) (ok-injective e), ap (λ r. r.0.todos) (sym (ok-injective e)))
  loop-Served (p ∷ ps) bg {bg'} {left} e = elim (Bool-cases bg.should_stop) [
    | inl x ↦
        let same = ok-injective (sym (if-true _ _ x) ∙ e) in
        ([], ap (λ r. r.1) same, ap (λ r. r.0.todos) (sym same))
    | inr x ↦
        let (b1, here, rest) = >>=-eq-ok (poll_round call set p bg) _ (sym (if-false _ _ x) ∙ e) in
        let (done, split, served) = loop-Served ps b1 rest in
        (
          p ∷ done,
          ap (λ qs. p ∷ qs) split,
          Served-append (events_of p) (events_in done) bg.todos b1.todos bg'.todos
              (poll_round-Served p bg b1 here) served,
        )
  ]

-- When the loop of the thread returns, it has handled the first results of poll and left the others; the
-- events among those that it has handled have run the todos one after the other, each time the first one
-- in the order of time, which is taken off the map before it runs (`Served`); and the map is still in
-- order and within its size. The todos' functions change the thread's state by postponing todos only.
pub background_loop-Served :
    {A : Type 0} (call : A → Background A → Outcome (Background A)) (set : Bool)
    (law : Postpones call) (ps : List Polled) (bg : Background A) {bg' : Background A}
    {left : List Polled}
    → InOrder bg
    → background_loop call set ps bg ≡ ok (bg', left)
    → ((done : List Polled) × (ps ≡ done ++ left) × Served call (events_in done) bg.todos bg'.todos)
      × InOrder bg'
background_loop-Served call set law ps bg v e = (
  loop-Served call set ps bg e,
  background_loop-InOrder call set
      (λ action b after kept ran.
        let (posts, posted) = law.postpones action b after ran in
        postpone_all-InOrder posts b kept posted)
      ps bg v e,
)
