-- ===== src/Lib.antt =====
-- Liquidity Arena is a simulated exchange: a matching engine in C++ (engine/) and a simulator in
-- Python (simulation/) whose agents trade on it over a binary TCP protocol. This library models
-- the Python side: the protocol client, the agents, the metrics, the latencies, the prices and the
-- simulator with its loop over the events.
--
-- The parts and their files:
-- - Wire: the client of simulation/market/tcp_client.py. Wire/Struct models what it uses of
--   Python's `struct` (little-endian formats over B, I, Q, i and q), Wire/Messages its message
--   classes, Wire/Client the class TcpClient: connect, disconnect, send_new_order, send_cancel and
--   poll, with the receive buffer and the bytes that the socket has taken. What the operating
--   system does (whether a connection is accepted, how much `sendall` takes, what `recv` gives) is
--   an argument. A callback is recorded as called with its message.
-- - Agents/Base: simulation/agents/base_agent.py, the order ids, the dictionary of active orders and
--   the statistics that every agent keeps. A method takes and returns the agent's record.
-- - Agents/Human, Noise, Informed, LatencyArb, Momentum and MarketMaker: the files
--   human_agent.py, noise_trader.py, informed_trader.py, latency_arb.py, momentum_trader.py and
--   market_maker.py of simulation/agents. Each `on_book_update` gives the orders to send and the
--   agent afterwards, or no value if an exception is raised.
-- - Metrics: simulation/metrics.py. Metrics has the records and the methods that record,
--   Metrics/Ratios the averages and ratios, Metrics/Pnl `pnl_decomposition` and `compute_report`.
--   Metrics/Log is the log of the calls of an engine, beside which Metrics/History sets the engine.
-- - Simulator: simulation/simulator.py. Simulator/Traders has the agents that it holds and their
--   latencies, Simulator/Events the events, Simulator/State the attributes of the class.
--   Simulator/Exchange is `_submit_orders` and `_submit_cancels`, which connect the agents with the
--   client and the metrics: orders and cancels go out (Simulator/Sends), and fills and books come
--   back (Simulator/Messages). Simulator/Frontend is `_process_incoming_ws_messages` (set beside an
--   independent account, Simulator/Steering, in Simulator/Scenarios). Simulator/Loop is `_schedule_initial_events`,
--   `_process_event` and the loop of `run`, Simulator/Config the entries of the configuration,
--   Simulator/Setup `__init__`, `_create_price_process` and `_create_agents`, and Simulator/Run the
--   whole of `run`. What an exception ends is an Option; `Progress` says how a loop stands.
--   The other modules hold proofs: Members about the agents that are made and how they are
--   configured, Frame, Extends, Effect and Round about one event, Rounds with
--   the relation of the rounds of the loop, Ending about its end, Schedule and Started about the
--   queue as it begins, Clock about the order of time, Completed about a whole run, and Standalone
--   about a run without an engine.
-- - Bridge: simulation/market/ws_bridge.py, the two queues between the simulator's thread and the
--   browsers, and the set of connected clients. What the threads and the browsers do is a sequence
--   of steps in any order. Bridge/Fifo is about the queues, Bridge/Reach about the clients; a
--   message that is taken while no client is connected is sent to nobody.
-- - Latency: simulation/market/latency_model.py, the delays of the agents' actions.
-- - Price: simulation/market/price_process.py. Price/Diffusion has GBMProcess and OUProcess,
--   Price/Regimes RegimeSwitchingProcess, Price/Hawkes HawkesProcess; Price/Arrays is numpy's array
--   of int64 that `generate` fills. Price/Switching sets the regimes beside a step relation.
-- - Numeric: what the program uses of Python's floats and of numpy, as records of operations that
--   the models take as instance arguments. The only laws asked for are those that numpy documents
--   of its generator's draws, that a division of integers raises for zero only, and that `<` on
--   floats is irreflexive and asymmetric, and that operations on floats round monotonically.
-- - Prelude: Boolean tests, lists, dictionaries and integers over the native numbers.
-- The simulator gives the agents the last book and hands what they return to the client as orders
-- and cancels; the client's fills go to every agent and to the metrics.
--
-- Python's `heapq` is a record of two functions (Simulator/Events), and Simulator/Queue states what
-- its documentation says of lists that only it has changed: a push adds the item, a pop takes one
-- out, and where the items are ordered the least. The rounds of the loop take what the outside does
-- (the frontend's messages, the socket, a call of `stop`) as an argument for each round; a call of
-- `stop` shows at the next test of the loop. numpy's `default_rng` is an argument too.
--
-- Bounds: `drain`, the loop of `poll`, runs for as many rounds as the buffer has bytes. That is
-- enough since every round takes a header of five bytes at least. The loop of `run` gets a number
-- of rounds. Some number is enough for each configuration, since every round takes an event from
-- the queue, only price moves add events (finitely many), and price moves are scheduled at the start
-- only. All other loops are recursions on lists, or on a number of rounds that the code computes.
-- Python's integers are unbounded integers; the ranges of the wire formats are checked where the
-- code packs them.
--
-- Not modelled: the C++ engine and the browser's side; the threads and the HTTP and WebSocket
-- servers that the bridge starts, which are libraries'; the entry points, which parse arguments; the
-- parsing of YAML and JSON; and what is only logged or printed.
pub mod Prelude
pub mod Wire
pub mod Numeric
pub mod Agents
pub mod Metrics
pub mod Simulator
pub mod Latency
pub mod Price
pub mod Bridge
