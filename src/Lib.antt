-- ===== src/Lib.antt =====
-- DevBridge: a print bridge between a server and the machines of its stores, and the device jobs
-- (fiscal receipts, card payments) that a store's machine runs for Odoo.
--
-- The parts and how they interact. A document enters the server's queue, which stores it and routes
-- it: to the channel of the client that its virtual printer is paired with, or to the default queue.
-- The dispatch service streams a job to a connected client, hears its status and its end, and
-- requeues a failure; a reaper requeues what is stuck. On the client, a device job is journaled before
-- anything runs, a worker marks it as executing before it calls the device, and the journal owes Odoo
-- the ack of what came of it; a job whose outcome is unknown is asked about, and never run again. A card
-- payment has a row of its own from the moment before its terminal is asked; its session on the
-- terminal holds the authorisation until a settle job decides it, or time does. A fiscal receipt is
-- registered with Portos after it was looked up there, and only the lookup reconciles it. The client
-- also polls Odoo for labels: a ledger records the lines before the spooler sees them.
--
-- Which file models which code:
--   Common: lists, integers, results, Table, a database table under a primary key with the
--     statements that the program issues, and Json, the values of the serde_json library.
--   Device/Entry, Device/Journal: crates/devbridge-client/src/device_jobs/journal.rs and
--     journal_lan.rs. `Journal` is the two tables; Store has the choice of the table by the sign of
--     the id, Operations one function for each method that writes one row, Sweeps the methods over all
--     rows, Lan the LAN jobs. Trace makes one sequence of all of them.
--   Device/Tasks, Device/Backoff: tasks.rs there; `execute_job` and `reconcile_job` take the device as
--     an argument, and with its answer the operations that other tasks made on the journal meanwhile. Device/Intake: accept_job of mod.rs and validate of executor.rs.
--     Device/Pending: pending_pass there, and the delays of the control loop.
--   Device/Card: journal_card.rs there, over the journal of Device/Journal; Device/Card/Balance:
--     journal_card_balance.rs there. Trace makes one sequence of the operations on jobs and on payments.
--   Device/Tim: tim/purchase.rs, card.rs and jobs.rs there. Terminal is the data, Rules the decisions on
--     what a terminal answers. Purchase is one session (Hold and Run the code, Money what its calls did
--     to the money): the terminal, the journal and the settle queue are an `Environment` that answers
--     every call from the calls made so far. Jobs has the settle jobs and what an end makes of a job,
--     Reconcile the question to the terminal after a restart. Session is with_session and one_session of
--     tim/ops.rs, Reversal its reversal.
--   Device/Portos: portos/outcome.rs, payload.rs and mod.rs there. Payload is the check of the payloads,
--     Reply, Register and Control the reading of answers, Executor a registration and its reconciliation.
--     Portos is a state, what a POST makes of it and what it answers. Documented reads the meaning of an
--     answer from docs/device-jobs-fiscal.md; one theorem takes as a hypothesis that Portos registers
--     nothing where its answer is such a refusal. Posted makes one sequence of the workers that register
--     receipts, the operations of the journal, and what others do to Portos.
--   Odoo: crates/devbridge-client/src/odoo_source. Ledger is ledger.rs, Size label_size.rs, Batch and
--     Poll the methods of OdooSource in mod.rs over the data of rpc.rs; the loops of handle_batch are
--     folds over the `Progress` made so far. Odoo's answers and the spooler's are arguments. In Trace a
--     process may also die while its document prints.
--   Client/Ipp: ipp_codec.rs of crates/devbridge-client/src. Parse reads the bytes that are left where
--     the code has a position; Utf8 is the library's std::str::from_utf8.
--   Client/InFlight: inflight.rs there; the one async function is its start, its timeout and its end, as
--     steps that tasks of any jobs interleave.
--   Client/Download: download_payload of receiver.rs there, with the digest and the answer of the server as
--     arguments; a connection may break after any chunk. Client/Report: PrintReport and
--     print_timeout_error of print_backend.rs, and the completions that receiver.rs makes of them.
--   Server/Job: crates/devbridge-core/src/job.rs and job_event.rs, and the state texts of
--     crates/devbridge-server/src/storage.rs.
--   Server/Storage: storage.rs there. `Storage` is the tables of jobs and events; States reads it as a
--     map from ids to states. Server/Clients: the tables of clients and virtual printers.
--   Server/Queue: queue.rs there. A channel is the id of its connection, and what waits in it.
--   Server/Dispatch: dispatch.rs there; the messages are those of proto/devbridge.proto. The delivery
--     loop is one function for each place where it takes a job (`poll`, `wake`), so that a sequence of
--     steps can interleave any connections. The requeues that complete_job spawns are a list of the
--     service's state; Trace lets a requeue of any job fire at any time. The reaper's round is that of
--     crates/devbridge-service/src/runtime.rs.
--
-- Time and randomness (the current moment, new ids) are arguments; moments are numbers, and texts
-- of moments sort as they do. Fuel is used for the chunks of a download and for the loop of the IPP
-- parser, where every pass moves on by at least one byte, so that the number of bytes is enough;
-- and for the two waits of a payment, where every pass takes a millisecond at least, so that more
-- than the milliseconds of the deadline is enough. The 64-bit wrap-around of the count of connected
-- clients and the saturation of the retry delay are written out.
--
-- Not modelled: errors of SQLite itself, the reading of rows and the migrations; the text of JSON
-- (an argument reads an event, and the payload of a job); logs and wake-ups; the day closings, the
-- shifts and the reports of a terminal; the backends, the network, the user interfaces, the
-- configuration, certificates; floating point numbers and the images of labels (arguments); a death
-- of the label source between two writes other than that while its document prints.
pub mod Common
pub mod Device
pub mod Server
pub mod Odoo
pub mod Client
