-- ===== src/Lib.antt =====
-- A verification of zcastor-agent, an agent that receives trading signals, judges them with a stack
-- of gates, trades or arms or declines, and anchors a record of each decision on a chain.
--
-- Prices, distances and balances are integers in hundredths of a point or of a dollar, and times are
-- natural numbers in milliseconds, where the program has floats and seconds; a fraction of the
-- policy is a numerator over a denominator, and a comparison of a quotient is multiplied out. What
-- the program rounds for a report is left as it is. The `detail` of a decision, log messages and
-- locks are left out: a component's operations run one after another.
--
-- The parts, and the files that model them:
--   Base        shared names and lemmas: integers, texts, lists, and `Dict`, a Python dict as a list
--               of pairs in the order of insertion.
--   Gates       zcastor/gates. Gates/Verdict is base.py: a decision, a result, and the trace with its
--               views. Gates/Pipeline is pipeline.py: `run` takes a stack of gates over any context,
--               with an exception in a gate, and an answer that breaks its contract, as outcomes.
--               Gates/Context is `GateContext`, and Payload (direction.py, confidence.py,
--               session.py), Cost (spread.py, range.py, deadman.py), Structure (zone.py,
--               coherence.py, regime.py, _regime.py, cooldown.py), Feed (feed.py, targets.py) and
--               Exposure (stack.py, viability.py, ledger.py, exhaustion.py, london.py, the advisory
--               gate of coherence.py) are its gates: `evaluate` of the class `XGate` is `evaluate_x`,
--               and what an adapter answers is a field of `Adapters`. Gates/Stack is the list that
--               `_gates` of app/server.py wires.
--   Anchor      zcastor/anchor. Anchor/Record is base.py, where a backend is a parameter that may
--               answer anything and change the world in any way, and Anchor/Null its
--               `NullBackend`. Anchor/Outbox is outbox.py: the outbox in memory beside the lines of
--               its file; `_append`, `_replay`, `_load`, `_complete`, `_backoff` and `_park` lose the
--               underscore (`write` for `_append`). A
--               sequence of `enqueue`, `drain` and `requeue_parked` is a `history`. Anchor/Index is
--               index.py, whose rows are dicts of texts and numbers, beside the lines of its file.
--               Anchor/Nvnm is nvnm.py: `NvnmBackend` over any transport (`chain_record` is
--               `add_record`, `chain_status` `update_status`, `create_registry` `add_registry`), and
--               the reading of a receipt's words.
--   Entry       zcastor/entry. Entry/Pending is pending.py: the state machine of an armed entry.
--               Entry/Zones is zones.py: its level and its stop.
--               Entry/Watcher is watcher.py: `_viable`, `_target`, `_fire` and `_sweep` lose the
--               underscore, and the broker, the orders, the clocks and the hooks are a `Desk`, which
--               may answer anything.
--   Risk        zcastor/risk. Risk/Zones is zones.py: the entries in each zone and what they
--               block. Risk/Coherence is coherence.py: the recent calls and outcomes.
--   Resolve     zcastor/resolve. Resolve/Classify is classify.py: the outcome of a trade from the
--               bars after it. Resolve/Resolver is resolver.py: what waits for its outcome, beside
--               what was last written to its two files.
--   Market      zcastor/market. Market/Levels is levels.py, Market/Session session.py
--               and Market/Snapshot snapshot.py. Market/Port is what mt5.py and binance.py share: the
--               reads of one decision, cached. Market/Mt5 is `MarketData` over any terminal, and
--               Market/Binance `BinanceMarketData` over any exchange.
--   Targets     zcastor/targets/optimizer.py: the stop and the target of a trade, over any numbers
--               that meet the interface of Targets/Floats.
--   Record      zcastor/record. Record/DecisionLog is decision_log.py, Record/Dossier is
--               dgml.py, and Record/Rollover is rollover.py over any publisher (`close_log` and
--               `tick_day` are `close` and `tick`). Record/Publisher is publisher.py over any kind of
--               document. Record/Canonical is canonical.py on a tree of JSON values, Record/Proof is
--               proof.py, and Record/Disclosure is disclosure.py.
--   Execution   zcastor/execution. Execution/Orders is orders.py over any terminal, Execution/Spot is
--               binance_orders.py over any exchange, Execution/Booking is booking.py over any broker
--               and the journal of Execution/Journal, and Execution/Engine is engine.py: `_route`
--               and `_execute` are `act_route` and `act_execute`, `_record` is `record_decision`, and
--               what the engine calls outside the modelled parts is a field of `Ports`, which may
--               answer anything. Which calls the terminal executes is a parameter too, and what
--               its documentation says of two of its codes a hypothesis.
--   Tests       runs on concrete data, and the theorems below at concrete arguments.
--
-- The engine runs the pipeline on a signal: an allowed one becomes an order, a routed one is armed
-- and waits for its level, and each that is not rejected is registered for measurement and logged.
-- What happened is classified from the bars; every record goes through the outbox to the chain, and
-- its status moves when the outcome is known.
--
-- The loops are over lists, which are finite. Only Base/Text's `show` runs on fuel, n + 1 steps for
-- the digits of n, which are fewer.
--
-- The sources round to floats; where the rounding decides nothing the model has none: prices are
-- integers in a fixed unit, and the optimizer is stated over an order and three laws that rounding
-- keeps.
--
-- Not modelled: the routes and timers of the server, the notifier, the clients that sign and submit
-- (Web3Transport, BinanceClient, the bridge to MT5), the hashes, the XML export, and the
-- operations scripts. The trade journal and the edge ledger are imported from a package zcastor/data
-- that is not in the repository: they are parameters, the journal with the laws that booking.py
-- states of it.
pub mod Anchor
pub mod Base
pub mod Entry
pub mod Execution
pub mod Gates
pub mod Market
pub mod Record
pub mod Resolve
pub mod Risk
pub mod Targets
pub mod Tests
