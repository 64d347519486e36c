-- ===== src/Lib.antt =====
-- OpenMux, a console server: it shares serial and network ports among clients, of which a limited
-- number may write to a port at a time while the others watch.
--
-- The core that is modelled decides who may write. A request of a client (attach, detach, promote,
-- demote, take the write slot) goes to the console manager. It asks the authentication manager for
-- the role and the groups of the user, walks the access ladder, and changes the client list of the
-- port through the port manager, which counts the writers against the capacity of the port. The
-- answer is an access decision, which every listener words in the same way. A terminal session turns
-- what is typed into writes to its port and into such requests. Servers share their ports by a link of
-- one or more connections, over which numbered frames carry the data.
--
-- The modules and the code that they model:
--   Capacity (Integer, Laws): openmux/server/access_control.py, the setting `max_read_write_users`
--     (`parse_write_mode`), its number of writers (`write_capacity`), and its form between servers
--     (`wire_to_mode`, `capacity_to_wire`, `capacity_from_wire`).
--   Decision (Codes, Rows, Wording, Laws): openmux/server/access_decision.py, and
--     `render_terminal_text` of openmux/common/access_wire.py. `Codes.Code` has the codes, `Rows`
--     the table `_ROWS`, `Wording` the sentences, the terminal bytes and the frame.
--   Ports (Records, Slots, Effects, Gate): openmux/server/port_manager.py, the list
--     `connected_clients` of a port, and in Gate `write_to_port`. An operation on one port returns
--     `none` where the code refuses, and `update_port` applies it to the port of a name.
--   Delivery: openmux/server/port_manager.py, the output of a port: Queues (`asyncio.Queue` of 100
--     chunks), Ring (the scrollback), and in Delivery itself `UnifiedPortWrapper` with
--     `handle_incoming_port_data`, `get_port_data`, `get_scrollback`, the federation holds and the
--     queues of `_attach_client_record`; Pump is `_pump_local_port_to_remote` with
--     `_seed_federation_stream` of openmux/server/adapters/muxcon.py. Events has the sequences of
--     events on one port; Bounded, Lossless, History, Relayed and Repeats are about them.
--   Console: openmux/server/console_manager.py. World has the state and its actions, Ladder the
--     access ladder, Ask the requests to promote and demote, Attach attach and detach, Takeover the
--     takeover of the slot. Invariant, Requests and History are about the number of
--     writers under any sequence of requests; Access, Admission, Quiet, Targets, Transfer, Take and
--     Mistold about single requests; Exclusive about writing after requests.
--   Auth (Roles, Lockout, Challenge): openmux/server/auth_manager.py, the permission and the groups
--     of an identity, the tracker of failed logins, and the login by an HMAC of the password hash.
--   Listener: openmux/server/listener_session.py. Escape is the escape parser, Input (Gate,
--     Forwarded) `_process_input_chunk` with the payload, the escape sequence and the commands of the
--     control menu; a session keeps a trace of what it did, in place of the calls.
--   Muxcon: the link between two servers that share ports. Numbered is a dict keyed by numbers. Frame
--     (Decimals, RoundTrip): openmux/server/muxcon_protocol.py, the frames that are built and
--     the header parser, and `_read_frame_raw` of openmux/server/adapters/muxcon.py. All else is of
--     that adapter: Receive (Rounds, Order, Settled, Handled, Rising, Once, Twice, Run) is
--     `_handle_inbound_data` with `_maybe_resync_peer_generation` and `_flush_stuck_gap`; Send is
--     `_send_data_mpath` after its choice of a path, `_next_peer_seq`, `_retx_scan_peer`,
--     `_rl_handle_ack` and `_rl_handle_data`; Channel (Growing, Heard, Faithful,
--     Fifo) joins both ends by a network that loses, repeats and reorders; Paths (Rekey, Sweep, Grouped, Ranked, Best, Selected, Kept,
--     Swept, Changes) is the multipath groups (`_register_mpath_connection`,
--     `_rekey_mpath_connection`, `_unregister_mpath_connection`, `_select_mpath_connection`,
--     `_mfl_sweep_once`); Filters (Tells, Allowed) is `_get_filters_for_conn`, `_allow_advertise_port`
--     and its two variants.
--   Policy: openmux/server/security_policy.py, security.yaml after YAML. Yaml has the values and
--     their `str` and `bool`, Policy itself `SecurityPolicy.from_mapping` and the queries, Lockout
--     `_apply_security_policy` of openmux/server/auth_manager.py; Allowed is about the lists of a
--     block, Accepted about whole files.
--   Action: openmux/server/actions/session.py, `ActionSession`. Action itself has `expect`,
--     `read_buffer` and `send`, Utf8 (RoundTrip) Python's codec, Prompts the questions to the
--     operator (with openmux/server/actions/choices.py), Power the power calls, Refs the names of
--     outlets (`split_remote_ref` of openmux/server/adapters/pdu.py, whose `_power_blocked_ports` is
--     in Power); Expected, Consumed, Targets, Blocked, Switched and Closed are about them.
--   Protocol: openmux/server/adapters/protocols. Protocol itself has what every transform of bytes
--     shares; Conserver and Handshake are conserver.py, its escapes and its two handshakes, Telnet is
--     `TelnetIacStripper` of plain.py; Stripped is about the stripper, Logins about the handshakes.
--   Gaps (Unique, Reported): openmux/server/config_gaps.py, from the summary of a reload to its gaps.
--   Results: what a function that may raise gives.
--   Base, Dict: shared names, texts, lists and dicts.
--   Tests and the modules Tests below the others: runs on concrete data.
--
-- How code becomes a model. A Python object with state is a record, and an operation returns the
-- state afterwards. An action of the console manager takes the state and returns its result with
-- the state; a result `none` is an exception. What the console manager takes from elsewhere is the
-- record `Console.World.Outside`: roles and groups, the access default of the policy, the address
-- and the channel user of a client, the clock, the answers of the origin server of a federated port,
-- and `meanwhile`, the change that other tasks make while a request waits at an `await` on the
-- network. A port object is known by its name; a client in a list is a record of id, user name, mode
-- and time. Texts are lists of code points, and case and space are those of ASCII. A group set is a
-- list. A time is a whole number of seconds, and a clock does not run backwards.
--
-- The handler of DATA frames is split where it waits: `arrive` is what it does up to the first wait,
-- `resume` what it does from one wait to the next, so that two handlers may interleave, and
-- `handle_inbound_data` is a run without a break. The state of a peer that is not there yet is the
-- fresh state; a resync during a wait does not replace the buffer; an exception that is only logged is
-- not modelled; numbers of frames are not negative; times in Muxcon are milliseconds. A DATA frame is
-- recorded for retransmission in the same step that writes it. In Channel both processes live on, no
-- gap is given up, the connections name the one peer process or no process, and fewer than 2 ^ 63 frames are sent, which is where the counter starts again.
-- The key of a connection, its preference, what is frozen and `fnmatchcase` are parameters. A terminal
-- session takes from its record `Outside` whether there is a console manager, what a write
-- answers or that it raises, the mode after a request and what else is read, each as a function of the trace.
--
-- In Delivery a client is known by its id, an operation on one wrapper is lifted to the port of a
-- name, and a read that would wait finds a chunk or none. A negative scrollback size acts as 0.
-- The loop of a pump relays the chunks whose send succeeds, and whether one does is a parameter.
--
-- In Policy a set is a list, the keys of a mapping are texts, and `repr` of a float or a collection is
-- a parameter. In Action `regex.search` is a parameter that gives the end of a match and its text, the
-- chunks and answers that come before a deadline are a list, each prompt has a timeout, and the
-- power control is the record `Action.Power.Pdu`: the outlets that each console declares and the state of
-- the console manager, which stand still during a call, and the answer to a switch, which may depend on
-- the calls before. Whether the check of the consoles raises does not depend on the outlet. In
-- Protocol the lines that a server sends during a handshake are a list, and a stream that ends gives
-- an empty line.
--
-- Functions recur on lists or on digits, but for three that have fuel: the seed of a pump goes out in
-- frames of a byte at least, and its fuel is its length; a handler of DATA frames goes
-- through as many rounds as its buffer is long and one more, of which each but the last takes an item
-- from the buffer; the digits of a number are fewer than its value and one.
--
-- Not modelled: logging and audit, presence and holder broadcasts, the tasks that forward data,
-- cryptography, the external authentication process, the streams, the port lists and the control channel of federation, the web console, the device
-- adapters, configuration files, the text of
-- the warning about gaps, the runner of actions and the client programs.
pub mod Base
pub mod Dict
pub mod Results
pub mod Policy
pub mod Capacity
pub mod Decision
pub mod Delivery
pub mod Ports
pub mod Console
pub mod Auth
pub mod Listener
pub mod Muxcon
pub mod Action
pub mod Protocol
pub mod Gaps
pub mod Tests
