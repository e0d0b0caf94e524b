-- ===== src/Tests/EngineRuns.antt =====
-- The engine's parts on small inputs: the reliable outboxes, the connection state, the shelving
-- passes, the clocks and the updater's policy.
use my_own_mesh.Base.{◌≡◌, refl, ◌+◌, ℕ, true, false, List, [], ◌∷◌, ◌++◌, none, some, arith}
use my_own_mesh.Base.Text.{Text, bytes, text_ordered}
use my_own_mesh.Connection.{PeerState, active, reliable_channels}
use my_own_mesh.Reliable.{State, Event, enqueues, flushes, ack_arrives, session_rebuilt, ticks, run}
use my_own_mesh.Reliable.Outboxes.{AllValid, run-AllValid}
use my_own_mesh.Reliable.Callers.{accounted}
use my_own_mesh.Reliable.Accounts.{issued_by, run-accounted}
use my_own_mesh.Reliable.Receiver.{Arrival}
use my_own_mesh.Replay.{ReplayWindow, accept}
use my_own_mesh.Replay.Fence.{accept_all, accepted-refused_again, ahead-accepted}
use my_own_mesh.Clock.{pos, negsuc, new_watch}
use my_own_mesh.Clock.Skew.{Tick, verdicts, Alternates, verdicts-Alternates}
use my_own_mesh.MediaQueue.{Queue, new_queue, try_send, recv}
use my_own_mesh.MediaQueue.Limits.{IsValid, queue_ops-IsValid, new_queue-IsValid}
use my_own_mesh.Policy.{patch, minor, every, policy_allows}
use my_own_mesh.Policy.Downgrades.{no_way_back}

abbrev erin : Text
erin = bytes "erin"

abbrev greeting : Text
greeting = bytes "hello"

abbrev up : PeerState
up = record {
  status = active;
  authenticated = true;
  features = reliable_channels ∷ [];
  local_shelved = false;
  remote_shelved = false;
  data_channel_open = true;
  local_gather_candidates = record {
    host = 2;
    server_reflexive = 0;
    peer_reflexive = 0;
    relay = 0;
    unknown = 0;
  };
  local_gather_in_progress = false;
  local_candidates = record {
    host = 2;
    server_reflexive = 0;
    peer_reflexive = 0;
    relay = 0;
    unknown = 0;
  };
}

abbrev quiet : State
quiet = record {
  peers = (erin, up) ∷ [];
  reliable_out = [];
  reliable_in = [];
  wire = [];
  answers = [];
  router = [];
}

abbrev conversation : List Event
conversation =
    enqueues 7 0 (λ seq. false) erin greeting greeting none 1
    ∷ enqueues 7 5 (λ seq. true) erin greeting greeting (some 10) 2
    ∷ session_rebuilt erin
    ∷ flushes (λ seq. true) erin
    ∷ ack_arrives erin 7 1
    ∷ ticks 100 (λ seq. true)
    ∷ []

run-accounted_example :
    accounted 1 (run conversation quiet) ≡ issued_by 1 conversation + accounted 1 quiet
run-accounted_example = run-accounted 1 conversation quiet tt

run-AllValid_example : AllValid (run conversation quiet)
run-AllValid_example = run-AllValid conversation quiet tt

abbrev numbered : ℕ → Arrival
numbered n = record { seq = n; channel = greeting; payload = greeting }

abbrev stream_of_three : List Arrival
stream_of_three = numbered 1 ∷ numbered 2 ∷ numbered 2 ∷ numbered 3 ∷ []

abbrev at_wrap : ReplayWindow
at_wrap = record { latest = some 65_530; bits = λ slot. false; size = 8_192 }

accepted-refused_again_example :
    (accept 65_535 (accept_all (3 ∷ 2 ∷ []) (accept 65_535 at_wrap).0)).1 ≡ false
unfolding accept
accepted-refused_again_example =
    accepted-refused_again at_wrap 65_535 (3 ∷ 2 ∷ []) (refl, omega arith) (omega arith) refl
      (omega arith, omega arith, (omega arith, omega arith, tt))

ahead-accepted_example : (accept 3 at_wrap).1 ≡ true
ahead-accepted_example = ahead-accepted at_wrap 65_530 3 (refl, omega arith) (omega arith) refl refl

abbrev skewed : List Tick
skewed = (some (pos 20_000), 2) ∷ (some (negsuc 10_500), 2) ∷ []

verdicts-Alternates_example :
    Alternates false
      (verdicts (skewed ++ (some (pos 12_000), 2) ∷ (some (pos 0), 2) ∷ []) new_watch)
verdicts-Alternates_example =
    verdicts-Alternates (skewed ++ (some (pos 12_000), 2) ∷ (some (pos 0), 2) ∷ []) new_watch

abbrev v1 : Text
v1 = bytes "1.2.3-rc1"

abbrev v2 : Text
v2 = bytes "1.2.3"

abbrev v3 : Text
v3 = bytes "1.3.0"

no_way_back_example : policy_allows every v3 v1 ≡ false
unfolding policy_allows
no_way_back_example = no_way_back patch every v1 v2 ((minor, v3) ∷ []) (refl, (refl, tt))

-- A video sample of a peer named by no bytes.
abbrev sample : Text
sample = 0 ∷ 0 ∷ 1 ∷ 9 ∷ 0 ∷ 0 ∷ 0 ∷ 0 ∷ 0 ∷ 77 ∷ []

abbrev one_sample : Queue
one_sample = (try_send sample (new_queue 8 8 64)).0

queue_ops-IsValid_example : IsValid (try_send sample one_sample).0 × IsValid (recv one_sample).0
queue_ops-IsValid_example =
    queue_ops-IsValid sample one_sample
      (queue_ops-IsValid sample (new_queue 8 8 64) (new_queue-IsValid 8 8 64)).0
