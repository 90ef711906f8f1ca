-- ===== src/Lib.antt =====
-- Equipment control: an equipment server (services/equipmentd) between clients and the controllers
-- of the process modules (nodes/pmc) and of the transfer module (nodes/tmc); simulated devices
-- (nodes/deviced/sim) stand behind the process controller. All of them speak a protocol of text
-- lines (common). The code is C; this library translates the parts below and proves how they
-- behave.
--
-- Prelude: lists, Boolean tests, C strings and 32-bit conversions that the parts share.
-- Protocol: common/src/protocol. Session is session.c: `session_feed` and `session_pop_line`, with
--   the loop of their callers (`deliver`). Message is message.h. Codec is line_codec.c:
--   `line_parse` and `line_format` with their helpers. Double lists what the code uses of `double`,
--   which is given.
-- Equipmentd: services/equipmentd/src. Devices is device_manager.c, Registry is module_registry.c,
--   Tracker is request_tracker.c, Connections is connection_table.c, Scheduler is scheduler.c and
--   Router is router.c. Server is `handle_one_line` of main.c, which parses a line, relays a
--   response, or asks the router and forwards a command to its controller. Clients is
--   `handle_client_event`. Rounds is the loop of `main` with `handle_accept_event`, over all
--   clients; its Main is `main` as a whole, with `make_server` and the calls that prepare epoll.
--   Ticker is what the loop of main.c does at the end of each round: `run_scheduler` and the sweep
--   of the requests.
-- Sim: nodes/deviced/sim/src: fsm.c, telemetry.c and `sim_handle_message` of main.c. Process is
--   process_model.c, over given arithmetic; Loop is the loop of main.c.
-- Pmc: nodes/pmc/src. Pmc itself is pmc_connection.c, interlock.c, sequence_manager.c and
--   alarm_manager.c. Serial is serial_transport.c and Pico is pico_device.c: the auxiliary device
--   and its line. io_manager.c is Auxiliary (the session of the device, with reconnection and
--   retries), Apply (what a command asks of it), Snapshot (its readings) and Messages (what is sent
--   to the peers); Lifetime runs its calls one after the other. Routing is pmc_router.c. Peer is
--   main.c: `handle_connected_peer`, `connect_to_eqd` and the connection that is accepted.
--   Loop is its `main`: the settings from the environment and the loop over all peers.
-- Tmc: nodes/tmc/src/main.c: the states of the transfer controller, `handle_req_message` and
--   `tick_state_machine`. Loop is its start and the loop of `main`.
-- System: the equipment server and the process controller together: a command on its way to the
--   controller (System.antt) and an answer on its way back to the client (Answer).
-- Tests: runs on concrete inputs.
--
-- State is passed explicitly: an operation returns the state that it leaves with its result. A
-- record of the model has the fields of the C structure that the operations use; a pair `x`,
-- `has_x` of a message stays a pair. Arrays are lists of the same length, pointers into them
-- indices, and a file descriptor is an Option with `none` for -1. What the clock returns during a
-- call is an argument, and so is which writes of the kernel succeed; the bytes written are
-- collected with their descriptors. A write is taken to write all of its bytes or to fail. Log
-- lines are left out.
--
-- What the serial line does is a script in the state: the opens and writes that succeed, and what
-- each turn of the reading loop meets; a script that has ended is a refusal and silence. What
-- `read` gives on a socket is a list as well, which ends where the kernel says to try again.
--
-- Fuel: `pop_lines` and the loops over lines of Clients, Peer, Sim.Loop and Tmc.Loop take one unit
-- for each line popped; they are given one more than the bytes in the buffer, which
-- `pop_lines_total` shows to be enough. `print_unsigned` has room for 20 digits, as many as a
-- 64-bit number has. The scan of the connections takes one unit for each entry. The loops of the
-- serial line recurse on the room in the buffer and the script, the tries of a reply on their
-- number.
--
-- Not modelled: in the controllers and the devices, the making of sockets and the calls that
-- prepare epoll; the arguments of the processes; the settings of the terminal but its speed, and
-- the sleeps. They wait for a kernel.
-- Several connections are served one event after the other, so their interleavings are sequences of
-- events.
pub mod Prelude
pub mod Protocol
pub mod Equipmentd
pub mod Sim
pub mod Pmc
pub mod Tmc
pub mod System
pub mod Tests
