-- ===== src/Background/Control.antt =====
-- `hcv_start_background_thread` and `hcv_stop_background_thread` (hcv_background.cc).
use helpcovid.Prelude.{◌+◌, none, ltb}
use helpcovid.Outcome.{ok, require, background, ◌>>◌, require_some, ◌>>=◌, Outcome}
use helpcovid.Background.{
  true, none, ok, ltb, require, background, Bool, ℕ, Outcome, Option, Background,
}

-- The file descriptors that the system gives, none for a negative one, and the success of sigprocmask.
pub record Descriptors : Type 0 where
  pub event_fd : Option ℕ
  pub blocks_signals : Bool
  pub signal_fd : Option ℕ
  pub timer_fd : Option ℕ

module _ {A : Type 0} where
  -- The state when the thread starts: a new event counter and a new timer.
  unfoldable pub start_background_thread : Descriptors → Background A → Outcome (Background A)
  start_background_thread fds bg = do
    event ← require_some (fds.event_fd) background 221
    require (fds.blocks_signals) background 236
    signal ← require_some (fds.signal_fd) background 240
    clock ← require_some (fds.timer_fd) background 246
    ok (record bg { events = 0; timer = none })

  -- `written` says whether the write to hcv_bg_event_fd succeeds; the thread is told to stop before it.
  unfoldable pub stop_background_thread : ℕ → Bool → Background A → Outcome (Background A)
  stop_background_thread event_fd written bg = do
    require (ltb 0 event_fd) background 262
    require written background 266
    ok (record bg { should_stop = true; events = bg.events + 1 })
