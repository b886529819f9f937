-- ===== src/Tests/Records.antt =====
-- A log of three decisions, and the outcomes that two of them wait for.
use zcastor_agent.Record.Rollover.{Press, SessionRollover}
use zcastor_agent.Record.Rollover.Complete.{
  Printed, ticked, closed, session, accounts, session-accounts,
}
use zcastor_agent.Base.{
  true, false, String-discrete, ℕ, ◌+◌, String, ◌≡◌, refl, none, some, [], ◌∷◌, keep_if, length,
  if◌then◌else◌, Bool-cases, inl, inr, ◌==◌,
}
use zcastor_agent.Base.Int.{pos}
use zcastor_agent.Record.DecisionLog.{LogEntry, DecisionLog}
use zcastor_agent.Resolve.Classify.{Bar}
use zcastor_agent.Resolve.Resolver.{Measured, OutcomeResolver, Feed, is_due, tick}
use zcastor_agent.Resolve.Resolver.Ids.{ids, without, is_old}
use zcastor_agent.Resolve.Resolver.Cycle.{tick-resolves}
use zcastor_agent.Resolve.Resolver.Stalled.{tick-waits}

abbrev line : String → String → String → LogEntry
line id action reason = record {
  signal_id = id;
  at = "2026-01-01T00:00:00Z";
  action = action;
  reason = reason;
  bound_at = none;
  also_objected = [];
  route_kind = none;
  origin = "o";
  process = "p";
  state = "s";
  dossier = none;
}

abbrev log : DecisionLog
log = record {
  session_date = "2026-01-01";
  agent = "execution";
  entries =
      line "s1" "suppress" "max_stack"
      ∷ line "s2" "allow" ""
      ∷ line "s3" "suppress" "deadman_halt"
      ∷ [];
}

abbrev waiting : String → ℕ → Measured
waiting id at = record {
  signal_id = id;
  direction = "UP";
  ref_price = pos 6000000;
  timeframe = "1h";
  session = "London";
  action = "suppress";
  sl_pts = pos 20000;
  tp_pts = pos 40000;
  spread_pts = pos 3000;
  registered_ts = at;
  due_ts = at + 7200000;
  horizon_min = 120;
  attempts = 0;
}

abbrev resolver : OutcomeResolver
resolver = record {
  policy = record {
    horizon_min_by_tf = [];
    horizon_min_default = none;
    default_spread_pts = pos 3000;
    rr_num = 3;
    rr_den = 2;
    give_up = 86400000;
  };
  pending = waiting "s1" 0 ∷ waiting "s3" 9000000 ∷ [];
  pending_file = [];
  outcomes = [];
}

abbrev bar : Bar
bar = record { high = pos 6050000; low = pos 5990000; close = pos 6040000 }

abbrev live_feed : Feed ℕ
live_feed = record {
  get_rates_range = λ from to n. (some (bar ∷ []), n + 1);
  clock = λ n. (8000000, n);
  on_resolved = λ o n. n;
}

tick-resolves_example :
    let due = keep_if (λ r. is_due 8000000 r) resolver.pending in
    let (s', w', t) = tick live_feed resolver 0 in
    (ids s'.pending ≡ without due (ids resolver.pending))
    × (t.resolved + t.abandoned ≡ length due)
    × (t.stalled ≡ 0)
    × (length s'.outcomes ≡ length resolver.outcomes + t.resolved)
tick-resolves_example = tick-resolves live_feed resolver 0 (λ from to v. (bar, [], refl))

abbrev dead : Feed ℕ
dead = record live_feed { get_rates_range = λ from to n. (if n == 0 then none else some [], n) }

tick-waits_example :
    let due = keep_if (λ r. is_due 8000000 r) resolver.pending in
    let (s', w', t) = tick dead resolver 0 in
    (ids s'.pending
      ≡ without
          (keep_if (λ r. is_old resolver.policy.give_up 8000000 r) due)
          (ids resolver.pending))
    × (s'.outcomes ≡ resolver.outcomes)
    × (t.resolved ≡ 0)
tick-waits_example =
    tick-waits dead
      (λ from to v. elim (Bool-cases (v == 0)) [
        | inl first ↦ rw first (inl refl)
        | inr later ↦ rw later (inr refl)
      ])
      resolver 0

-- A publisher that raises at first, and a day that has passed.
abbrev press : Press ℕ
press = record {
  publish_decision_log = λ b n. (
    if n == 0 then none else some (record { uri = "uri"; checksum = "sum"; supersedes = none }),
    n + 1,
  );
  utc_day = λ n. ("2026-01-02", n);
  uuid = λ n. ("id", n + 1);
}

abbrev rollover : SessionRollover (Printed ℕ)
rollover = record {
  policy_version = "1";
  process_hash = "p";
  registry = "afritensor-decisions";
  registry_id = 0;
  agent = "execution";
  day = "2026-01-01";
  log = log;
  outbox = none;
  anchor_index = none;
  world = (0, []);
}

session-accounts_example :
    accounts "s3" (session press (ticked ∷ ticked ∷ closed false ∷ []) rollover) ≡ true
unfolding String-discrete
session-accounts_example =
    session-accounts press "s3" (ticked ∷ ticked ∷ closed false ∷ []) rollover refl
