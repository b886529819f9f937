-- ===== src/Execution/Engine/Watched.antt =====
-- zcastor/execution/engine.py: `on_watcher_fill`, what follows from a fill at a zone.
use Prim.Native.String.{◌++◌ as append}
use zcastor_agent.Base.{String, Bool, false, Option, none, some, if◌then◌else◌, opt_or}
use zcastor_agent.Base.Int.{ℤ, pos}
use zcastor_agent.Base.Text.{upper, lower}
use zcastor_agent.Entry.Pending.{PendingEntry, stop_pts}
use zcastor_agent.Gates.Context.{Signal}
use zcastor_agent.Gates.Feed.{round_signed}
use zcastor_agent.Execution.Orders.{Filled}
use zcastor_agent.Execution.Journal.{Trade}
use zcastor_agent.Record.Dossier.{ProofSet}
use zcastor_agent.Execution.Engine.{Ports, Settings, EngineState}
use zcastor_agent.Execution.Engine.Recording.{enqueue_dossier}

-- The dossier of a fill at a zone, without what is the same in each.
pub record ZoneDossier : Type 0 where
  pub signal_id : String
  pub emitted_at : String
  pub proofs : ProofSet
  pub reason : String
  pub direction : String
  pub timeframe : String
  pub zone_price : ℤ
  pub entry_price : ℤ
  pub stop : ℤ
  pub target : Option ℤ
  pub stop_points : ℤ
  pub route_kind : String
  pub execution : Filled
  pub policy_version : String
  pub code_version : String
  pub swept : Bool

abbrev pub zone_dossier : Settings → String → ProofSet → PendingEntry → Filled → ZoneDossier
zone_dossier e at proofs p f = record {
  signal_id = p.signal_id;
  emitted_at = at;
  proofs = proofs;
  reason = append "routed_" p.route_kind;
  direction = upper p.direction;
  timeframe = p.timeframe;
  zone_price = p.zone_price;
  entry_price = f.price;
  stop = f.sl;
  target = f.tp;
  stop_points = round_signed (stop_pts p) 100;
  route_kind = p.route_kind;
  execution = f;
  policy_version = e.policy_version;
  code_version = e.code_version;
  swept = p.swept;
}

-- The row of the journal for a fill of the watcher.
abbrev pub zone_trade : Settings → PendingEntry → Filled → Trade
zone_trade e p f = record {
  ticket = f.ticket;
  signal_id = p.signal_id;
  direction = upper p.direction;
  timeframe = p.timeframe;
  session = p.session;
  route = "watcher";
  entry_price = f.price;
  sl = f.sl;
  tp = opt_or f.tp (pos 0);
  volume = e.volume;
  closed = false;
  pnl = pos 0;
}

module _ {W : Type 0} (q : Ports W) (e : Settings)
    (publish_zone : ZoneDossier → W → Option (String × String) × W) where
  -- What was published is queued; a publisher that raises ends the record.
  unfoldable pub queue_zone : Option (String × String) → String → EngineState W → EngineState W
  queue_zone none id s = s
  queue_zone (some (checksum, uri)) id s = enqueue_dossier q e id checksum uri "route" "execution" s

  -- `_record_watcher_fill` once the hash of the state is there.
  unfoldable pub publish_fill :
      Option String → Signal → String → PendingEntry → Filled → EngineState W → EngineState W
  unfolding queue_zone
  publish_fill none g at p f s = s
  publish_fill (some state) g at p f s =
      let proofs : ProofSet = record {
        origin = q.origin_hash g;
        process = e.process_hash;
        state = state;
      } in
      let (published, w) = publish_zone (zone_dossier e at proofs p f) s.world in
      let queued = queue_zone published p.signal_id (record s { world = w }) in
      if e.has_publisher then queued else s

  -- `_record_watcher_fill`, with the payload that the entry carries along.
  unfoldable pub record_watcher_fill :
      Signal → PendingEntry → Filled → EngineState W → EngineState W
  unfolding publish_fill
  record_watcher_fill g p f s =
      let (at, w) = q.now s.world in
      let (state, w') = q.state_hash p.session w in
      publish_fill state g at p f (record s { world = w' })

  -- `on_watcher_fill`
  unfoldable pub on_watcher_fill : Signal → PendingEntry → Filled → EngineState W → EngineState W
  unfolding record_watcher_fill
  on_watcher_fill g p f s =
      let w = q.open_trade (zone_trade e p f) s.world in
      let w' = q.record_entry p.zone_price (lower p.direction) p.timeframe w in
      record_watcher_fill g p f (record s { world = w' })
