-- ===== src/Process/Life.antt =====
-- The daemon's process step by step, from the end of start-up to the return of run: the goroutine that serves,
-- the streams that clients hold open, and the stop, which waits for them.
use envorca.Prelude.{ℕ, suc, ◌≡◌, Bool, true, false, Option, none, some}
use envorca.Text.{Text}
use envorca.Process.{Process, Wake, reason, announce, begin_stop, end_stop}

-- `open_streams` counts the StreamEvents calls that have not returned; `stopping` is the reason that
-- was given to stop; `returned` says that run has returned, its deferred calls included.
pub record Life : Type 0 where
  pub process : Process
  pub announced : Bool
  pub open_streams : ℕ
  pub stopping : Option Text
  pub returned : Bool

abbrev pub born : Process → Life
born p = record {
  process = p;
  announced = false;
  open_streams = 0;
  stopping = none;
  returned = false;
}

-- The deferred calls of run.
abbrev pub leave : Process → Process
leave p = record p { db_open = false; pid_file = false }

module _ (clock : ℕ → ℕ) (endpoint : Text) where
  pub data Step (l : Life) : Life → Type 0 where
    -- the goroutine publishes, before it serves
    announces :
        l.announced ≡ false
        → l.returned ≡ false
        → Step l (record l { announced = true; process = announce clock endpoint l.process })
    -- a client opens a stream
    opens : l.stopping ≡ none → Step l (record l { open_streams = suc l.open_streams })
    -- a client's stream ends: it disconnects, or a Send to it fails
    closes : {n : ℕ} → l.open_streams ≡ suc n → Step l (record l { open_streams = n })
    -- select takes a reason to stop
    begins :
        (wake : Wake)
        → l.stopping ≡ none
        → Step l (record l {
          stopping = some (reason wake);
          process = begin_stop clock (reason wake) l.process;
        })
    -- GracefulStop returns, when no call is left
    ends :
        {why : Text}
        → l.stopping ≡ some why
        → l.open_streams ≡ 0
        → l.process.stopped ≡ false
        → Step l (record l { process = end_stop clock why l.process })
    -- run returns
    returns :
        l.process.stopped ≡ true
        → l.returned ≡ false
        → Step l (record l { returned = true; process = leave l.process })

  pub data Reach (l : Life) : Life → Type 0 where
    begun : Reach l l
    then_step : {m n : Life} → Reach l m → Step m n → Reach l n
