-- ===== src/Tests/Fdc.antt =====
-- Runs of the theorems on src/fdc/fdc.c.
use fdc_sds_pio.Prelude.{
  [], arith, codes, false, none, refl, replicate, some, true, ◌++◌, ◌+◌, ◌∷◌, ◌≡◌,
}
use fdc_sds_pio.Disk.Worker.{no_memory}
use fdc_sds_pio.Fdc.State.{Fdc, no_op, tcp_connected, tcp_off, xport_tcp, xport_uart}
use fdc_sds_pio.Fdc.Attach.{fdc_tcp_attach, fdc_tcp_detach, tcp_service}
use fdc_sds_pio.Fdc.Attach.Detach.{IsReleased, service-detach-IsReleased}
use fdc_sds_pio.Fdc.Attach.Ownership.{IsLinked, attached, idle}
use fdc_sds_pio.Fdc.Attach.Turn.{Reach, Reach-IsLinked, attach, here, then_step, turn}
use fdc_sds_pio.Fdc.Handlers.{drive_of, handle_writ, len_of, track_of}
use fdc_sds_pio.Fdc.Handlers.Counters.{HasRoom, counted, serve_command-IsCountedOnce}
use fdc_sds_pio.Fdc.Handlers.Verified.{IsGuarded, after_reply, WireKeeps, handle_writ-IsGuarded}
use fdc_sds_pio.Fdc.Task.{fdc_task_turn, run_loopback, serve_command}
use fdc_sds_pio.Fdc.Task.SelfTest.{IsReport, loopback_input, run_loopback-IsReport}
use fdc_sds_pio.Tests.World.{World, table, world, world_io, world_wire}

-- The engine at its start, with a WRIT of four bytes to track 1 of drive 0 in the command buffer.
abbrev engine : Fdc
engine = record {
  stats = record {
    stat = 0;
    read = 0;
    writ = 0;
    not_ready = 0;
    cmd_csum = 0;
    data_csum = 0;
    cmd_timeout = 0;
    data_timeout = 0;
    fifo_ovf = 0;
    frame_err = 0;
    unknown = 0;
    tcp_connects = 0;
    tcp_disconnects = 0;
    tcp_refused = 0;
    last_op = no_op;
    transport = xport_uart;
    tcp_state = tcp_off;
    tcp_port = 0;
    tcp_peer = [];
  };
  status_led = false;
  status_timer = false;
  led = λ i. false;
  drive_timer = false;
  cmd = codes "WRIT" ++ (1 ∷ 0 ∷ 4 ∷ 0 ∷ 75 ∷ 1 ∷ []);
  resp = replicate 10 0;
  payload = replicate 8 0;
  baud = 403200;
  pending_baud = 0;
  lb_req = false;
  lb_result = record { ran = false; sent = 0; received = 0; mismatches = 0; first_bad = 0 };
  tcp_fd = none;
  tcp_pending = none;
  tcp_pending_peer = [];
  tcp_active = false;
  tcp_kick = false;
  tcp_dead = false;
}

abbrev line : World
line = record world { inbox = 1 ∷ 2 ∷ 3 ∷ 4 ∷ 10 ∷ 0 ∷ [] }

room : HasRoom engine.stats
room = record {
  stat = omega arith;
  read = omega arith;
  writ = omega arith;
  not_ready = omega arith;
  cmd_csum = omega arith;
  data_csum = omega arith;
  data_timeout = omega arith;
  unknown = omega arith;
}

serve_command-IsCountedOnce_example :
    counted (((serve_command world_wire world_io no_memory engine table line).0).stats)
    ≡ counted engine.stats + 1
serve_command-IsCountedOnce_example =
    serve_command-IsCountedOnce world_wire world_io no_memory engine table line room

keeps : WireKeeps world_wire (λ e. e.file)
keeps = record {
  uart_recv = λ need ms e. refl;
  uart_send = λ bytes e. refl;
  uart_flush = λ e. refl;
  tcp_recv = λ fd dead need ms e. refl;
  tcp_send = λ fd dead bytes e. refl;
  tcp_flush = λ fd dead e. refl;
}

handle_writ-IsGuarded_example :
    IsGuarded world_wire
      (λ e. e.file)
      keeps
      world_io
      no_memory
      (drive_of engine)
      (track_of engine)
      (len_of engine)
      (after_reply world_wire engine line).0
      (after_reply world_wire engine line).1
      table
      line
      (handle_writ world_io world_wire no_memory engine table line)
handle_writ-IsGuarded_example =
    handle_writ-IsGuarded world_wire (λ e. e.file) keeps world_io no_memory engine table line

-- A client attaches, and the task adopts it.
run :
    Reach world_wire world_io no_memory
      (engine, table, line)
      (fdc_task_turn world_wire world_io no_memory [] ((fdc_tcp_attach 5 none engine).1) table line)
run =
    then_step (then_step (here (engine, table, line)) (attach 5 none engine table line))
      (turn [] ((fdc_tcp_attach 5 none engine).1) table line)

Reach-IsLinked_example : IsLinked (
    (fdc_task_turn world_wire world_io no_memory []
      ((fdc_tcp_attach 5 none engine).1)
      table
      line).0)
Reach-IsLinked_example = Reach-IsLinked world_wire world_io no_memory run idle

run_loopback-IsReport_example :
    IsReport (((run_loopback world_wire engine line).0).lb_result) (loopback_input world_wire line)
run_loopback-IsReport_example = run_loopback-IsReport world_wire engine line (omega arith)

abbrev client : Fdc
client = record engine {
  tcp_fd = some 5;
  tcp_active = true;
  stats = record engine.stats { transport = xport_tcp; tcp_state = tcp_connected };
}

service-detach-IsReleased_example :
    IsReleased world_wire 5 line (tcp_service world_wire (fdc_tcp_detach client) line)
service-detach-IsReleased_example =
    service-detach-IsReleased world_wire 5 client line (attached 5) refl
