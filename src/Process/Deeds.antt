-- ===== src/Process/Deeds.antt =====
-- What goroutines of the process do while run waits and stops, and what they leave of it.
use mathlib.Core.List.{map-append}
use envorca.Prelude.{
  ℕ, ◌≡◌, refl, ap, ◌∙◌, false, List, [], ◌∷◌, ◌++◌, map, append-nil, append_assoc, if◌then◌else◌,
}
use envorca.Text.{Text, bytes}
use envorca.Events.{Event, Bus, publish, stamp}
use envorca.Events.Replay.{Run, published}
use envorca.Process.{
  Process, Wake, serve_failed, signalled, asked, Deed, announcing, handling, Meanwhile, say,
  begin_stop, end_stop, announce, perform, perform_all, stop_now, stop, woken,
}

-- The names of the events of some deeds, and of the one before a stop that a client asked for.
abbrev pub deed_name : Deed → Text
deed_name announcing = bytes "listening"
deed_name (handling ev) = ev.name

abbrev pub wake_names : Wake → List Text
wake_names (serve_failed e) = []
wake_names signalled = []
wake_names asked = bytes "shutdown_requested" ∷ []

-- The names of all events of a process whose start-up succeeded, oldest first.
abbrev pub life : Wake → Meanwhile → List Text
life wake others =
    (((((((bytes "starting" ∷ []) ++ map deed_name others.waiting) ++ wake_names wake)
            ++ map deed_name others.before_stop)
          ++ bytes "stopping" ∷ [])
        ++ map deed_name others.draining)
      ++ bytes "stopped" ∷ [])
    ++ map deed_name others.after_stop

-- A bus with the names of all the events that were published on it.
pub record Logged (b : Bus) (names : List Text) : Type 0 where
  pub log : List Event
  pub run_so_far : Run 256 b log
  pub named : map (λ e. e.name) log ≡ names

stamp-name : (t n : ℕ) (ev : Event) → (stamp t n ev).name ≡ ev.name
unfolding stamp
stamp-name t n ev = refl

-- Two processes that differ in the bus alone.
pub record SameBut (p q : Process) : Type 0 where
  pub same_db : q.db_open ≡ p.db_open
  pub same_endpoint : q.endpoint_open ≡ p.endpoint_open
  pub same_socket : q.socket_file ≡ p.socket_file
  pub same_serving : q.serving ≡ p.serving
  pub same_stopped : q.stopped ≡ p.stopped

with_bus-SameBut : (b : Bus) (p : Process) → SameBut p (record p { bus = b })
with_bus-SameBut b p = record {
  same_db = refl;
  same_endpoint = refl;
  same_socket = refl;
  same_serving = refl;
  same_stopped = refl;
}

pub SameBut-after : {p q r : Process} → SameBut p q → SameBut q r → SameBut p r
SameBut-after h k = record {
  same_db = k.same_db ∙ h.same_db;
  same_endpoint = k.same_endpoint ∙ h.same_endpoint;
  same_socket = k.same_socket ∙ h.same_socket;
  same_serving = k.same_serving ∙ h.same_serving;
  same_stopped = k.same_stopped ∙ h.same_stopped;
}

module _ (clock : ℕ → ℕ) where
  stop_first :
      (endpoint : Text) (draining : List Deed) (why : Text) (p : Process)
      → p.stopped ≡ false
      → stop clock endpoint draining why p ≡ stop_now clock endpoint draining why p
  unfolding stop
  stop_first endpoint draining why p h =
      ap (λ b. if b then p else stop_now clock endpoint draining why p) h

  pub publish-Logged :
      (ev : Event) (p : Process) {names : List Text}
      → Logged p.bus names
      → Logged (publish (clock p.bus.seq) ev p.bus) (names ++ ev.name ∷ [])
  publish-Logged ev p {names} h = record {
    log = h.log ++ stamp (clock p.bus.seq) p.bus.seq ev ∷ [];
    run_so_far = published (clock p.bus.seq) ev h.run_so_far;
    named =
        map-append (λ e. e.name) h.log _
        ∙ (λ i. h.named i ++ stamp-name (clock p.bus.seq) p.bus.seq ev i ∷ []);
  }

  perform-Logged :
      (endpoint : Text) (d : Deed) (p : Process) {names : List Text}
      → Logged p.bus names
      → Logged (perform clock endpoint d p).bus (names ++ deed_name d ∷ [])
  unfolding announce say
  perform-Logged endpoint announcing p h = publish-Logged _ p h
  perform-Logged endpoint (handling ev) p h = publish-Logged ev p h

  perform-SameBut :
      (endpoint : Text) (d : Deed) (p : Process) → SameBut p (perform clock endpoint d p)
  unfolding announce say
  perform-SameBut endpoint announcing p = with_bus-SameBut _ p
  perform-SameBut endpoint (handling ev) p = with_bus-SameBut _ p

  pub perform_all-Logged :
      (endpoint : Text) (ds : List Deed) (p : Process) {names : List Text}
      → Logged p.bus names
      → Logged (perform_all clock endpoint ds p).bus (names ++ map deed_name ds)
  unfolding perform_all
  perform_all-Logged endpoint [] p {names} h = rw (append-nil names) h
  perform_all-Logged endpoint (d ∷ ds) p {names} h =
      rw (← append_assoc names (deed_name d ∷ []) (map deed_name ds)) (
        perform_all-Logged endpoint ds (perform clock endpoint d p) (perform-Logged endpoint d p h))

  pub perform_all-SameBut :
      (endpoint : Text) (ds : List Deed) (p : Process) → SameBut p (perform_all clock endpoint ds p)
  unfolding perform_all
  perform_all-SameBut endpoint [] p = with_bus-SameBut p.bus p
  perform_all-SameBut endpoint (d ∷ ds) p =
      SameBut-after (perform-SameBut endpoint d p) (perform_all-SameBut endpoint ds _)

  pub woken-Logged :
      (wake : Wake) (p : Process) {names : List Text}
      → Logged p.bus names
      → Logged (woken clock wake p).bus (names ++ wake_names wake)
  unfolding say
  woken-Logged (serve_failed e) p {names} h = rw (append-nil names) h
  woken-Logged signalled p {names} h = rw (append-nil names) h
  woken-Logged asked p h = publish-Logged _ p h

  pub woken-SameBut : (wake : Wake) (p : Process) → SameBut p (woken clock wake p)
  unfolding say
  woken-SameBut (serve_failed e) p = with_bus-SameBut p.bus p
  woken-SameBut signalled p = with_bus-SameBut p.bus p
  woken-SameBut asked p = with_bus-SameBut _ p

  -- A process at the end of a stop.
  pub record IsStopped (p : Process) (names : List Text) : Type 0 where
    pub not_serving : p.serving ≡ false
    pub not_open : p.endpoint_open ≡ false
    pub no_socket : p.socket_file ≡ false
    pub told : Logged p.bus names

  stop_now-IsStopped :
      (endpoint : Text) (draining : List Deed) (why : Text) (p : Process) {names : List Text}
      → Logged p.bus names
      → IsStopped
          (stop_now clock endpoint draining why p)
          (((names ++ bytes "stopping" ∷ []) ++ map deed_name draining) ++ bytes "stopped" ∷ [])
  unfolding stop_now begin_stop end_stop say
  stop_now-IsStopped endpoint draining why p h =
      let stopping = begin_stop clock why p in
      let same = perform_all-SameBut endpoint draining stopping in
      let drained = perform_all-Logged endpoint draining stopping (publish-Logged _ p h) in
      record {
        not_serving = same.same_serving;
        not_open = same.same_endpoint;
        no_socket = refl;
        told = publish-Logged _ (perform_all clock endpoint draining stopping) drained;
      }

  pub stop-IsStopped :
      (endpoint : Text) (draining : List Deed) (why : Text) (p : Process) {names : List Text}
      → p.stopped ≡ false
      → Logged p.bus names
      → IsStopped
          (stop clock endpoint draining why p)
          (((names ++ bytes "stopping" ∷ []) ++ map deed_name draining) ++ bytes "stopped" ∷ [])
  stop-IsStopped endpoint draining why p first h =
      rw (stop_first endpoint draining why p first) (stop_now-IsStopped endpoint draining why p h)
