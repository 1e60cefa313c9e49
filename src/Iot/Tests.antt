-- ===== src/Iot/Tests.antt =====
-- src/IoTManager.c: its theorems on concrete frames, requests and devices.
use i_dcu_io_t.Common.{
  ℕ, ◌+◌, ◌≤◌, ◌≡◌, ◌↔◌, refl, arith, false, List, [], ◌∷◌, ◌++◌, Run, ok, ◌>>=◌, Returns, length,
  drop, replicate, length-replicate,
}
use i_dcu_io_t.Iot.Serial.{buffer_size, uart_get_check_sum, accept, Link, turn}
use i_dcu_io_t.Iot.Serial.Sum.{uart_get_check_sum-eq-sum}
use i_dcu_io_t.Iot.Serial.Safe.{Handles, IsValid, turn-IsValid}
use i_dcu_io_t.Iot.Serial.Frames.{frame, check_of}
use i_dcu_io_t.Iot.Serial.Reads.{HasRoom, Holds}
use i_dcu_io_t.Iot.Serial.Partial.{turn-turn}
use i_dcu_io_t.Iot.Serial.Stream.{Sending, run, meaning, run-eq-meaning}
use i_dcu_io_t.Iot.Serial.Offset.{accept_offset}
use i_dcu_io_t.Iot.Event.{Device, update, create_sync, receive_event, sync_frame, changed}
use i_dcu_io_t.Iot.Event.Blocks.{Port}
use i_dcu_io_t.Iot.Event.Reports.{Ends}
use i_dcu_io_t.Iot.Event.Arrival.{report_payload, turn_report, receive_event_sync}
use i_dcu_io_t.Iot.Event.Handling.{IsWhole, changed_iff, receive_event-IsWhole}
use i_dcu_io_t.Iot.Event.Sync.{sync_frame-same}

-- `setBuffer`, `receiveBuffer` and `remainder` with nothing in them.
abbrev pub zeros : List ℕ
zeros = replicate 2048 0

pub length-zeros : length zeros ≡ buffer_size
length-zeros = length-replicate {A = ℕ} 2048 0

abbrev pub idle : Device
idle = record {
  node = replicate 8 0;
  past = replicate 8 0;
  io = 1 ∷ 1 ∷ 0 ∷ 0 ∷ 0 ∷ 0 ∷ 0 ∷ 1 ∷ [];
  effects = [];
  calls = 0;
}

idle-IsWhole : IsWhole idle
idle-IsWhole = record { past = refl; io = refl }

abbrev pub quiet : Link Device
quiet = record { receive_buffer = zeros; receive_size = 0; remainder = zeros; device = idle }

pub quiet-HasRoom : HasRoom quiet
quiet-HasRoom = record { buffer = length-zeros; rest = length-zeros }

pub quiet-Holds : Holds quiet []
quiet-Holds = record { held = refl; front = refl }

-- A table that takes every statement.
abbrev willing : ℕ → ℕ
willing k = 0

willing-Ends : Ends willing 1
unfolding i_dcu_io_t.Storage.transaction
willing-Ends calls = (0, omega arith, refl)

abbrev willing-Handles : Handles (receive_event willing 1) IsWhole
willing-Handles = receive_event-IsWhole willing 1 willing-Ends

abbrev handler : List ℕ → ℕ → Device → Run Device
handler = receive_event willing 1

-- A request of the counters.
abbrev ask : List ℕ
ask = 1 ∷ 3 ∷ 1 ∷ []

ask_handled : (rest : List ℕ) → handler (frame ask 9 ++ rest) 7 idle ≡ ok (create_sync 1 idle)
ask_handled rest = receive_event_sync willing 1 0xfe 4 3 1 7 (9 ∷ 0xff ∷ rest) idle

turn-turn_example :
    Returns
      (turn handler (0xfe ∷ 4 ∷ 1 ∷ []) zeros quiet >>= turn handler (3 ∷ 1 ∷ 9 ∷ 0xff ∷ []) zeros)
      (λ l'. (l'.device ≡ create_sync 1 idle) × HasRoom l' × Holds l' [])
turn-turn_example =
    turn-turn handler ask (0xfe ∷ 4 ∷ 1 ∷ []) (3 ∷ 1 ∷ 9 ∷ 0xff ∷ []) zeros zeros 9 quiet
      (create_sync 1 idle) refl (omega arith) (omega arith) (omega arith, (omega arith, tt))
      (omega arith) quiet-HasRoom quiet-Holds length-zeros (ask_handled (drop 7 zeros))

-- The request cut in two, and then one with a wrong check sum in one read.
abbrev asked_twice : List Sending
asked_twice =
    record {
      payload = ask;
      check = 9;
      early = 0xfe ∷ 4 ∷ 1 ∷ [];
      late = 3 ∷ 1 ∷ 9 ∷ 0xff ∷ [];
      stack = zeros;
      stack' = zeros;
      split = refl;
      some = omega arith;
      quiet = (omega arith, (omega arith, tt));
      short = omega arith;
      whole = length-zeros;
    }
    ∷ record {
      payload = ask;
      check = 8;
      early = [];
      late = frame ask 8;
      stack = zeros;
      stack' = zeros;
      split = refl;
      some = omega arith;
      quiet = tt;
      short = omega arith;
      whole = length-zeros;
    }
    ∷ []

run-eq-meaning_example : Returns (run handler asked_twice quiet) (λ l'.
    (meaning handler asked_twice idle ≡ ok l'.device)
    × IsWhole l'.device
    × HasRoom l'
    × Holds l' [])
run-eq-meaning_example =
    run-eq-meaning handler IsWhole asked_twice quiet willing-Handles quiet-HasRoom quiet-Holds
      idle-IsWhole

abbrev ports : ℕ → List Port
ports n = replicate 8 (record { value = n; next = 0; last = 0 })

turn_report_example :
    Returns
      (turn handler
        (frame
          (report_payload 2 72 (ports 5) (ports 1))
          (check_of (report_payload 2 72 (ports 5) (ports 1))))
        zeros
        quiet)
      (λ l'.
        (l'.device.past ≡ replicate 8 5)
        × (l'.device.io ≡ replicate 8 1)
        × (l'.device.effects ≡ update (replicate 8 5) ∷ [])
        × HasRoom l'
        × Holds l' [])
unfolding i_dcu_io_t.Storage.transaction changed
turn_report_example =
    turn_report 2 72 (ports 5) (ports 1) refl refl willing 1 willing-Ends zeros quiet (omega arith)
      (
        omega arith,
        (
          omega arith,
          (
            omega arith,
            (omega arith, (omega arith, (omega arith, (omega arith, (omega arith, tt))))),
          ),
        ),
      )
      quiet-HasRoom quiet-Holds length-zeros

quiet-IsValid : IsValid willing-Handles quiet
quiet-IsValid = record { buffer = length-zeros; rest = length-zeros; device = idle-IsWhole }

turn-IsValid_example :
    Returns
      (turn handler (0xfe ∷ 0xfe ∷ 0xff ∷ []) zeros quiet)
      (λ l'. IsValid willing-Handles l' × (l'.receive_size ≤ 0 + 3))
turn-IsValid_example =
    turn-IsValid willing-Handles (0xfe ∷ 0xfe ∷ 0xff ∷ []) zeros quiet quiet-IsValid length-zeros
      (omega arith)

receive_event-IsWhole_example : Returns (receive_event willing 1 zeros 80 idle) IsWhole
receive_event-IsWhole_example =
    receive_event-IsWhole willing 1 willing-Ends zeros 80 idle length-zeros (omega arith)
      idle-IsWhole

abbrev held_counts : List ℕ
held_counts = 1 ∷ 2 ∷ []

abbrev new_counts : List ℕ
new_counts = 1 ∷ 3 ∷ []

changed_iff_example : (changed held_counts new_counts ≡ false) ↔ (held_counts ≡ new_counts)
changed_iff_example = changed_iff held_counts new_counts refl

-- Two bytes of noise and then a request of the counters: it is not handled.
accept_offset_example :
    accept handler
      (7 ∷ 7 ∷ frame ask 9)
      2
      4
      (record { set_buffer = zeros; remain_size = 0; device = idle })
    ≡ ok
        (8, record { set_buffer = frame ask 9 ++ replicate 2041 0; remain_size = 9; device = idle })
accept_offset_example =
    accept_offset handler (7 ∷ 7 ∷ frame ask 9) 2 4
      (record { set_buffer = zeros; remain_size = 0; device = idle }) (omega arith) (omega arith)
      (omega (arith, length-zeros))

uart_get_check_sum-eq-sum_example : uart_get_check_sum (frame ask 9) 7 ≡ ok 9
uart_get_check_sum-eq-sum_example =
    uart_get_check_sum-eq-sum (frame ask 9) 7 (omega arith) (omega arith)

sync_frame-same_example :
    sync_frame (1 ∷ 2 ∷ 3 ∷ 4 ∷ 5 ∷ 6 ∷ 7 ∷ 8 ∷ [])
    ≡ sync_frame (1 ∷ 2 ∷ 3 ∷ 4 ∷ 5 ∷ 6 ∷ 7 ∷ 0x1000008 ∷ [])
sync_frame-same_example = sync_frame-same 1 2 3 4 5 6 7 8 0x1000008 refl
