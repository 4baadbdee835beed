-- ===== src/Multiplexer/MultiplexerTests.antt =====
-- A multiplexer with one manager, which answers to a read event by registering for writing.
use incubator.Prelude.{ℕ, suc, ◌≡◌, refl, arith, true, false, []}
use incubator.Net.Operation.{no_operation, read, write}
use incubator.Multiplexer.{
  Reported, Multiplexer, to_bitmask, register_reading, register_writing, manager_register_writing,
  Managers, scan_entry,
}
use incubator.Multiplexer.Registering.{IsConsistent, registering_keeps_consistency}
use incubator.Multiplexer.Scanning.{polling, write_registration_lost}

abbrev idle : Multiplexer
idle = record { pollset = []; masks = λ i. no_operation; shutting_down = false; pipe_open = true }

idle-IsConsistent : IsConsistent idle
idle-IsConsistent = record {
  masks_lt = λ i. omega arith;
  agrees = tt;
  distinct = tt;
  polled = λ i h. absurd (h refl);
  idle = λ i h. absurd (ground arith);
}

registering_keeps_consistency_example :
    IsConsistent (register_reading 7 idle) × IsConsistent (register_writing 7 idle)
registering_keeps_consistency_example = registering_keeps_consistency idle 7 idle-IsConsistent

abbrev answering : Managers ℕ
answering = record {
  read_event = λ mgr u m. (false, suc u, manager_register_writing mgr m);
  write_event = λ mgr u m. (true, u, m);
  error_event = λ mgr code u m. (u, m);
}

abbrev reported : Reported
reported = record {
  readable = true;
  writable = false;
  error = false;
  invalid = false;
  hangup = false;
}

write_registration_lost_example :
    (m : Multiplexer) × (scan_entry answering 0
        (record { manager = 7; events = to_bitmask read; revents = reported })
        0
        (polling [] [] reported (λ i. read) 7 read)
      ≡ (0, 1, m))
    × (m.pollset ≡ [])
    × (m.masks 7 ≡ write)
    × (manager_register_writing 7 m ≡ m)
write_registration_lost_example =
    write_registration_lost answering [] [] (λ i. read) 7 0 1 reported refl refl refl refl refl
