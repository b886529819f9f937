-- ===== src/Anchor/Outbox/History.antt =====
-- zcastor/anchor/outbox.py: sequences of operations on one outbox.
use zcastor_agent.Base.{ℕ, String, List, [], ◌∷◌}
use zcastor_agent.Anchor.Record.{Chain}
use zcastor_agent.Anchor.Outbox.{Outbox, Work, enqueue, drain}
use zcastor_agent.Anchor.Outbox.Requeue.{requeue_parked}

-- What the application calls: `enqueue` with the id that it draws, `drain` and `requeue_parked`.
pub data Op : Type 0 where
  work : String → Work → Op
  drained : ℕ → Op
  requeued : Op

unfoldable pub perform : {W : Type 0} → Chain W → Op → Outbox → W → Outbox × W
perform b (work id k) s w = ((enqueue id k s).1, w)
perform b (drained limit) s w = let (s', w', t) = drain b limit s w in (s', w')
perform b requeued s w = ((requeue_parked s).0, w)

unfoldable pub history : {W : Type 0} → Chain W → List Op → Outbox → W → Outbox × W
unfolding perform
history b [] s w = (s, w)
history b (o ∷ os) s w = let (s', w') = perform b o s w in history b os s' w'
