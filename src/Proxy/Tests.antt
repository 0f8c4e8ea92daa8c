-- ===== src/Proxy/Tests.antt =====
-- Tests of the model of electron/proxy-controller.js, and the theorems at concrete inputs.
use usshtc.Prelude.{◌+◌, ◌≤◌, ◌≡◌, refl, List, [], ◌∷◌, ◌++◌, map, none, false}
use usshtc.Prelude.Text.{codes}
use usshtc.Proxy.State.{
  Config, SessionKey, user_stop, proxy_start_failed, Effect, replied, Reply, done, cancelled,
  rejected, World, initial,
}
use usshtc.Connection.Recovery.Context.{Scope}
use usshtc.Proxy.Tasks.{server_made, started_well, start_threw, stopped_well}
use usshtc.Proxy.Reports.{reports_started, reports_open}
use usshtc.Proxy.Controller.{Event, start, stop_call, turn, resumes, reports, run, stop, step}
use usshtc.Proxy.Balance.{
  created_count, removed_count, registered_count, finalized_count, open_in, open_sessions, count,
}
use usshtc.Proxy.Balance.Runs.{run-single, run-settled}
use usshtc.Proxy.Overtaken.Runs.{stop-overtakes}
use usshtc.Proxy.Released.{is_stop_success}

abbrev world : World
world = record { now = 1000; wall = 2000; sessions = [] }

abbrev config : Config
config = record { port = 0; others = [] }

abbrev scope : Scope
scope = record { profile_id = codes "default"; epoch = 0 }

abbrev at : List Event → List (World × Event)
at events = map (λ e. (world, e)) events

abbrev opens : List (World × Event)
opens = at (
    start config scope
    ∷ turn
    ∷ resumes server_made
    ∷ reports (reports_started 2222)
    ∷ resumes started_well
    ∷ reports (reports_open (record { id = codes "a"; bytes_sent = 1; bytes_received = 2 }))
    ∷ [])

abbrev session_a : SessionKey
session_a = record { instance_id = 0; session = codes "a" }

abbrev closes : List (World × Event)
closes = opens ++ at (stop_call user_stop ∷ turn ∷ resumes stopped_well ∷ [])

one_open : open_in session_a (open_sessions (run opens initial).current) ≡ 1
unfolding run
one_open = refl

all_closed :
    let s = run closes initial in
    (s.current ≡ none)
    × (registered_count session_a s.effects ≡ 1)
    × (finalized_count session_a s.effects ≡ 1)
    × (removed_count s.effects ≡ 1)
unfolding run
all_closed = (refl, refl, refl, refl)

abbrev replies : List Effect → List Reply
replies [] = []
replies (replied r ∷ effects) = r ∷ replies effects
replies (_ ∷ effects) = replies effects

-- A stop while the keys are read: the start is cancelled, and no server is created.
stopped_early :
    let s =
      run
        (at (start config scope ∷ turn ∷ stop_call user_stop ∷ resumes server_made ∷ turn ∷ []))
        initial in
    (replies s.effects ≡ done ∷ cancelled ∷ []) × (created_count s.effects ≡ 0)
unfolding run
stopped_early = (refl, refl)

-- A server that cannot listen is stopped and released.
cannot_listen :
    let s =
      run
        (at (
          start config scope
          ∷ turn
          ∷ resumes server_made
          ∷ resumes start_threw
          ∷ resumes stopped_well
          ∷ []))
        initial in
    (replies s.effects ≡ rejected proxy_start_failed ∷ []) × (removed_count s.effects ≡ 1)
unfolding run
cannot_listen = (refl, refl)

run-single_example :
    let s = run closes initial in
    (created_count s.effects ≡ removed_count s.effects + count s.current)
    × (count s.current ≤ 1)
    × ((w : World) (e : Event)
        → is_stop_success e ≡ false
        → removed_count (step w e s).effects ≡ removed_count s.effects)
run-single_example = run-single closes

run-settled_example :
    let s = run opens initial in
    (registered_count session_a s.effects
      ≡ finalized_count session_a s.effects + open_in session_a (open_sessions s.current))
    × (open_in session_a (open_sessions s.current) ≤ 1)
    × (s.current ≡ none
        → registered_count session_a s.effects ≡ finalized_count session_a s.effects)
run-settled_example = run-settled opens session_a

abbrev waiting : List (World × Event)
waiting = at (start config scope ∷ turn ∷ start config scope ∷ [])

stop-overtakes_example :
    let s = run waiting initial in
    created_count
      (run
        (at (resumes server_made ∷ turn ∷ resumes server_made ∷ turn ∷ []))
        (stop user_stop s)).effects
    ≡ created_count s.effects
stop-overtakes_example =
    stop-overtakes waiting (at (resumes server_made ∷ turn ∷ resumes server_made ∷ turn ∷ []))
      user_stop (refl, (refl, (refl, (refl, tt))))
