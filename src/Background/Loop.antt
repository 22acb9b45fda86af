-- ===== src/Background/Loop.antt =====
-- hcv_background.cc: how the loop of the thread ends.
use mathlib.Core.List.{[]}
use helpcovid.Outcome.{database, web, require, ◌>>=◌, >>=-eq-ok, ok-injective, ok, Outcome}
use helpcovid.Background.{
  database, web, require, short, failed, quiet, on_event, sigterm, got, readable, false, [], ◌∷◌,
  Delivery, true, process_sigterm, ok, on_timer, on_signal, Polled, poll_round, List,
  background_loop, Bool, Outcome, Background,
}
use helpcovid.Prelude.{
  ◌∙◌, if-false, if-true, arith, inl, Bool-cases, ap, sym, refl, inr, ◌⊎◌, ◌≡◌, ℕ,
}

module _ {A : Type 0} (call : A → Background A → Outcome (Background A)) (set : Bool) where
  -- When the loop returns, whatever poll delivered, the thread has been told to stop or none of the
  -- results of poll are left.
  pub background_loop-stops :
      (ps : List Polled) (bg : Background A) {bg' : Background A} {left : List Polled}
      → background_loop call set ps bg ≡ ok (bg', left)
      → (bg'.should_stop ≡ true) ⊎ (left ≡ [])
  unfolding background_loop
  background_loop-stops [] bg e = inr (sym (ap (λ r. r.1) (ok-injective e)))
  background_loop-stops (p ∷ ps) bg e = elim (Bool-cases bg.should_stop) [
    | inl x ↦ inl (rw (← ap (λ r. r.0) (ok-injective (sym (if-true _ _ x) ∙ e))) x)
    | inr x ↦
        let e1 = sym (if-false _ _ x) ∙ e in
        let (b1, here, rest) = >>=-eq-ok (poll_round call set p bg) _ e1 in
        background_loop-stops ps b1 rest
  ]

  stopped_loop :
      (ps : List Polled) (bg : Background A)
      → bg.should_stop ≡ true
      → background_loop call set ps bg ≡ ok (bg, ps)
  unfolding background_loop
  stopped_loop [] bg h = refl
  stopped_loop (p ∷ ps) bg h = if-true _ _ h

  -- The timer changes nothing.
  pub on_timer-same :
      (timer : Delivery ℕ) (bg : Background A) {b : Background A}
      → on_timer call set timer bg ≡ ok b
      → b ≡ bg
  unfolding on_timer
  on_timer-same quiet bg e = sym (ok-injective e)
  on_timer-same failed bg e = ground (arith, e)
  on_timer-same short bg e = ground (arith, e)
  on_timer-same (got n) bg e = sym (ok-injective e)

  -- A SIGTERM that is processed has closed both, which were open, and leaves the todos.
  pub process_sigterm-closes :
      (bg : Background A) {closed : Background A}
      → process_sigterm call set bg ≡ ok closed
      → (closed.web_open ≡ false) × (closed.database_open ≡ false) × (closed.todos ≡ bg.todos)
  unfolding process_sigterm
  process_sigterm-closes bg e =
      let (_, _, e1) = >>=-eq-ok (require (bg.web_open) web 130) _ e in
      let (_, _, e2) = >>=-eq-ok (require (bg.database_open) database 860) _ e1 in
      let same = sym (ok-injective e2) in
      (ap (λ b. b.web_open) same, ap (λ b. b.database_open) same, ap (λ b. b.todos) same)

  -- If SIGTERM is delivered in a round that returns, while the thread is not told to stop, then the
  -- loop ends with that round: the web server and the database are closed, and what poll delivers
  -- later is left.
  pub background_loop-sigterm :
      (event timer : Delivery ℕ) (ps : List Polled) (bg : Background A) (b : Background A)
      → bg.should_stop ≡ false
      → poll_round call set (readable event (got sigterm) timer) bg ≡ ok b
      → (background_loop call set (readable event (got sigterm) timer ∷ ps) bg ≡ ok (b, ps))
        × (b.should_stop ≡ true)
        × (b.web_open ≡ false)
        × (b.database_open ≡ false)
  unfolding background_loop poll_round on_signal on_timer
  background_loop-sigterm event timer ps bg b h e =
      let (b1, first, k) = >>=-eq-ok (on_event call set event bg) _ e in
      let (b2, second, k1) = >>=-eq-ok (on_signal call set (got sigterm) b1) _ k in
      let (closed, run, stopping) = >>=-eq-ok (process_sigterm call set b1) _ second in
      let (web_closed, database_closed, _) = process_sigterm-closes b1 run in
      let state : b ≡ record closed { should_stop = true } =
        on_timer-same timer b2 k1 ∙ sym (ok-injective stopping) in
      let stop : b.should_stop ≡ true = ap (λ b. b.should_stop) state in
      let again : background_loop call set ps b ≡ ok (b, ps) = stopped_loop ps b stop in
      (
        if-false _ _ h ∙ (ap (λ m. m >>= background_loop call set ps) e ∙ again),
        stop,
        ap (λ b. b.web_open) state ∙ web_closed,
        ap (λ b. b.database_open) state ∙ database_closed,
      )
