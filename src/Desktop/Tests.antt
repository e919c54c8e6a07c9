-- ===== src/Desktop/Tests.antt =====
-- A queue of small frames, the usual sample rate, one controller that holds a button, and a worker
-- whose core is its joypad's state.
use pockiva.Prelude.{
  ℕ, ◌+◌, ◌≡◌, refl, true, false, none, some, List, [], ◌∷◌, inl, inr, length, take, get_or, ltb,
  leb, arith,
}
use pockiva.Contracts.{Frame, not_loaded}
use pockiva.Joypad.{press}
use pockiva.Network.{button_down, connected, message}
use pockiva.Network
use pockiva.Desktop.FrameQueue.{default_queue, offer, acknowledge}
use pockiva.Desktop.Delivery.{Call, offered, acknowledges, OffersFrom, GrowsFrom, sent, sent_grows}
use pockiva.Desktop.Pacing.{
  AudioHealth, marks, pacing_decision, WaitsWithin, runs_core, presses_back, pacing_decision_lem,
}
use pockiva.Desktop.Packet.{
  encode_frame_packet, from_le_bytes, frame_packet_byte_length, frame_header_byte_length,
  encode_frame_packet_lem,
}
use pockiva.Desktop.Lifecycle.{ok, remote_input_source}
use pockiva.Desktop.Controllers.{InputOperations, snapshot_of}
use pockiva.Desktop.Retained.{submit, send, receive, apply, Move, run, drained, fresh}
use pockiva.Desktop.Released.{InputLaws}
use pockiva.Desktop.Worker.{
  CoreOperations, ObserverOperations, AudioOperations, start_command, pause_command,
}
use pockiva.Desktop.Answers.{ticks, handles, turns, started, turns-IsConsistent}
use pockiva.Desktop.Phases.{IsConsistent}

abbrev frame : ℕ → Frame
frame n = record { sequence = n; rgba = λ i. i }

abbrev calls : List Call
calls = offered (frame 1) ∷ offered (frame 2) ∷ offered (frame 3) ∷ acknowledges 1 ∷ []

calls-OffersFrom : OffersFrom 0 calls
unfolding OffersFrom
calls-OffersFrom = (omega arith, (omega arith, (omega arith, tt)))

-- The second frame is overtaken.
calls-sent : sent calls default_queue ≡ frame 1 ∷ frame 3 ∷ []
unfolding sent offer acknowledge
calls-sent = refl

sent_grows_example : GrowsFrom 0 (sent calls default_queue)
sent_grows_example = sent_grows calls 0 calls-OffersFrom

abbrev health : AudioHealth
health = record {
  queued_stereo_frames = 4000;
  flush_pending = false;
  underruns = 0;
  dropped_stereo_frames = 0;
  stream_errors = 0;
  usable = true;
}

pacing_decision_lem_example :
    WaitsWithin 5000000 (pacing_decision health (marks 48000))
    × (runs_core (pacing_decision health (marks 48000)) ≡ leb 4000 (marks 48000).target)
    × (presses_back (pacing_decision health (marks 48000)) ≡ ltb (marks 48000).high 4000)
pacing_decision_lem_example = pacing_decision_lem health 48000 (omega arith) refl

encode_frame_packet_lem_example :
    (length (encode_frame_packet (frame 7)) ≡ frame_packet_byte_length)
    × (from_le_bytes (take 8 (encode_frame_packet (frame 7))) ≡ 7)
    × (get_or (encode_frame_packet (frame 7)) (frame_header_byte_length + 5) 0 ≡ 5)
encode_frame_packet_lem_example = encode_frame_packet_lem (frame 7) 5 (omega arith) (omega arith)

-- A core that is the state of its joypad.
abbrev held : InputOperations ℕ
held = record { set_input = λ core source state. state; clear_input_source = λ core source. 0 }

abbrev moves : List Move
moves =
    submit (connected (1 ∷ []) 2)
    ∷ send
    ∷ receive
    ∷ apply
    ∷ submit (message (1 ∷ []) 2 (button_down Network.Button.a 1))
    ∷ send
    ∷ receive
    ∷ apply
    ∷ []

abbrev held_laws : InputLaws held
held_laws = record {
  held = λ core source. core;
  held-set_input = λ core source state. refl;
  held-clear_input_source = λ core source. refl;
}

kept :
    snapshot_of
      (drained held (run held (fresh (some 0)) moves)).remote.snapshots
      remote_input_source
    ≡ some (record { generation = 1; state = 16 })
unfolding run drained snapshot_of press
kept = refl

abbrev small_core : CoreOperations ℕ ℕ
small_core = record {
  create = 0;
  load_rom = λ core bytes. (core, inr not_loaded);
  reset = λ core. (core, inl tt);
  run_cycles = λ core budget. (core, inl false);
  drain_audio = λ core. (core, 0);
  take_frame = λ core. (core, none);
  inputs = held;
}

abbrev small_observer : ObserverOperations ℕ
small_observer = record {
  publish_control = λ observer s. (observer + 1, ok tt);
  publish_frame = λ observer packet. (observer + 1, ok tt);
}

abbrev small_audio : AudioOperations ℕ ℕ ℕ ℕ
small_audio = record {
  shutdown_output = λ audio. 0;
  shutdown_all = λ audio. 0;
  pause = λ audio. audio;
  set_gain = λ audio gain. (gain, ok tt);
  prepare_candidate = λ audio. (audio, 1);
  shutdown_candidate = λ audio output. audio;
  activate = λ audio output. output;
  enqueue = λ audio batch. audio;
}

turns-IsConsistent_example : IsConsistent (
    turns small_core small_observer small_audio
      (started 0)
      (handles start_command ∷ ticks ∷ handles pause_command ∷ []))
turns-IsConsistent_example =
    turns-IsConsistent small_core small_observer small_audio 0
      (handles start_command ∷ ticks ∷ handles pause_command ∷ [])
