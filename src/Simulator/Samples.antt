-- ===== src/Simulator/Samples.antt =====
-- A simulator over whole numbers, for tests.
use liquidity_arena.Prelude.{ℕ, true, none, some, List, [], ◌∷◌}
use liquidity_arena.Prelude.Int.{ℤ, pos}
use liquidity_arena.Numeric.Whole.{whole}
use liquidity_arena.Wire.Client.{Client, Socket, new_client}
use liquidity_arena.Agents.Samples
use liquidity_arena.Metrics.{MetricsEngine, new_engine}
use liquidity_arena.Price.Process.{ou}
use liquidity_arena.Price.Diffusion.{new_ou}
use liquidity_arena.Simulator.Traders.{
  AgentId, Trader, Delay, maker, noise_trader, player, zero_latency,
}
use liquidity_arena.Simulator.State.{Simulator}

abbrev pub socket : Socket
socket = record { connected = true; sent = [] }

abbrev pub client : Client
client = record new_client { sock = some socket }

abbrev pub engine : MetricsEngine ℤ
engine = new_engine (pos 100)

abbrev traders : List (AgentId × Trader ℤ ℕ)
traders =
    (AgentId.mm, maker Samples.maker)
    ∷ (AgentId.noise 0, noise_trader Samples.noise)
    ∷ (AgentId.human, player Samples.human)
    ∷ []

abbrev delays : List (AgentId × Delay ℤ ℕ)
delays =
    (AgentId.mm, zero_latency)
    ∷ (AgentId.noise 0, zero_latency)
    ∷ (AgentId.human, zero_latency)
    ∷ []

abbrev pub simulator : Simulator ℤ ℕ
simulator = record {
  dt = pos 1;
  running = true;
  current_time = pos 0;
  event_queue = [];
  tcp_client = some client;
  ws_bridge = none;
  price_process = ou (new_ou (pos 9990) (pos 1) (pos 9990) (pos 1) (pos 1) 0);
  hawkes = none;
  metrics = engine;
  agents = traders;
  agent_latencies = delays;
  current_mid = pos 9990;
  last_book_update = some Samples.book;
  step_count = 0;
  total_steps = 2;
}
