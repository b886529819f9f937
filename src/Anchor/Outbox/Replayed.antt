-- ===== src/Anchor/Outbox/Replayed.antt =====
-- zcastor/anchor/outbox.py: what replaying the file gives, after one more line.
use mathlib.Core.Option
use mathlib.Core.Option.{some-injective}
use zcastor_agent.Base.{
  ℕ, String, str_mem, ◌≡◌, refl, ◌∙◌, ap, sym, false, Option, none, some, List, [], ◌∷◌, ◌++◌,
  arith,
}
use zcastor_agent.Base.Dict.{Dict, lookup, insert, erase}
use zcastor_agent.Anchor.Record.{PendingRecord, dedupe_key}
use zcastor_agent.Anchor.Outbox.{
  Line, replay_sent, enqueued, sent, parked, Outbox, add, replay, replay_all, empty,
}

-- What the file keeps of an entry: all but its attempts.
abbrev pub core : PendingRecord → PendingRecord
core e = record e { attempts = 0; next_attempt_at = 0; last_error = "" }

abbrev pub cores : Dict PendingRecord → Dict PendingRecord
cores [] = []
cores ((i, e) ∷ d) = (i, core e) ∷ cores d

pub cores-insert :
    (i : String) (e : PendingRecord) (d : Dict PendingRecord)
    → cores (insert i e d) ≡ insert i (core e) (cores d)
cores-insert i e [] = refl
cores-insert i e ((j, w) ∷ d) = ground (arith, cores-insert i e d)

pub cores-erase : (i : String) (d : Dict PendingRecord) → cores (erase i d) ≡ erase i (cores d)
cores-erase i [] = refl
cores-erase i ((j, w) ∷ d) = ground (arith, cores-erase i d)

pub lookup-cores :
    (i : String) (d : Dict PendingRecord) → lookup i (cores d) ≡ Option.map core (lookup i d)
lookup-cores i [] = refl
lookup-cores i ((j, w) ∷ d) = ground (arith, lookup-cores i d)

-- Writing an entry over itself, but for its attempts, is not seen in the file.
pub insert_same :
    (i : String) (e f : PendingRecord) (d : Dict PendingRecord)
    → lookup i d ≡ some e
    → core f ≡ core e
    → cores (insert i f d) ≡ cores d
insert_same i e f [] h c = cc
insert_same i e f ((j, w) ∷ d) h c = ground (arith, insert_same i e f d)

pub dedupe_key-core : (e : PendingRecord) → dedupe_key (core e) ≡ dedupe_key e
unfolding dedupe_key
dedupe_key-core e = refl

pub mem-add : (k x : String) (done : List String) → str_mem k (add x done) ≡ str_mem k (x ∷ done)
mem-add k x done = ground arith

pub replay_all-snoc :
    (s : Outbox) (ls : List Line) (l : Line)
    → replay_all s (ls ++ l ∷ []) ≡ replay (replay_all s ls) l
unfolding replay_all
replay_all-snoc s [] l = refl
replay_all-snoc s (x ∷ ls) l = replay_all-snoc (replay s x) ls l

-- The outbox that replaying the file of `s` gives, but for the file.
abbrev pub reload : Outbox → Outbox
reload s = replay_all (empty s.max_attempts) s.log

-- Replaying the file gives the queue, in its order, and the set of the keys that have landed.
pub record IsRecoverable (s : Outbox) : Type 0 where
  pub queue : cores (reload s).pending ≡ cores s.pending
  pub landed : (k : String) → str_mem k (reload s).done ≡ str_mem k s.done

-- `lookup` in the replayed queue.
pub replayed-lookup :
    (s : Outbox) (i : String) {e : PendingRecord}
    → IsRecoverable s
    → lookup i s.pending ≡ some e
    → Option.map core (lookup i (reload s).pending) ≡ some (core e)
replayed-lookup s i {e} h p =
    sym (lookup-cores i (reload s).pending)
    ∙ ap (lookup i) h.queue
    ∙ lookup-cores i s.pending
    ∙ ap (Option.map core) p

-- A new line whose replay does to the replayed queue what was done to the queue.
pub recover :
    (s s' : Outbox) (l : Line)
    → s'.log ≡ s.log ++ l ∷ []
    → s'.max_attempts ≡ s.max_attempts
    → cores (replay (reload s) l).pending ≡ cores s'.pending
    → ((k : String) → str_mem k (replay (reload s) l).done ≡ str_mem k s'.done)
    → IsRecoverable s'
recover s s' l el em q d =
    let e : reload s' ≡ replay (reload s) l =
      rw (el, em) (replay_all-snoc (empty s.max_attempts) s.log l) in
    record { queue = rw e q; landed = λ k. rw e (d k) }

pub recover_enqueued :
    (s s' : Outbox) (e : PendingRecord)
    → IsRecoverable s
    → str_mem (dedupe_key e) s.done ≡ false
    → s'.log ≡ s.log ++ enqueued e ∷ []
    → s'.max_attempts ≡ s.max_attempts
    → s'.pending ≡ insert e.id e s.pending
    → s'.done ≡ s.done
    → IsRecoverable s'
unfolding replay
recover_enqueued s s' e h new el em ep ed =
    recover s s' (enqueued e) el em
      (ground (
        arith,
        h.landed (dedupe_key e),
        cores-insert e.id e (reload s).pending,
        cores-insert e.id e s.pending,
        h.queue,
      ))
      (λ k. ground (arith, h.landed (dedupe_key e), h.landed k))

pub key-eq_of_core : (f e : PendingRecord) → core f ≡ core e → dedupe_key f ≡ dedupe_key e
key-eq_of_core f e c = sym (dedupe_key-core f) ∙ ap dedupe_key c ∙ dedupe_key-core e

pub add-landed :
    (k x : String) (xs ys : List String)
    → str_mem k xs ≡ str_mem k ys
    → str_mem k (add x xs) ≡ str_mem k (add x ys)
add-landed k x xs ys h = mem-add k x xs ∙ rw h refl ∙ sym (mem-add k x ys)

pub replay_sent-landed :
    (o : Option PendingRecord) (e : PendingRecord) (dedupe : String) (r : Outbox) (k : String)
    → Option.map core o ≡ some (core e)
    → str_mem k (replay_sent o e.id dedupe r).done ≡ str_mem k (add (dedupe_key e) r.done)
replay_sent-landed none e dedupe r k c = cc
replay_sent-landed (some f) e dedupe r k c = rw (key-eq_of_core f e (some-injective _ _ c))

pub recover_sent :
    (s s' : Outbox) (e : PendingRecord) (dedupe tx : String) (record_id at : ℕ)
    → IsRecoverable s
    → lookup e.id s.pending ≡ some e
    → s'.log ≡ s.log ++ sent e.id dedupe tx record_id at ∷ []
    → s'.max_attempts ≡ s.max_attempts
    → s'.pending ≡ erase e.id s.pending
    → ((k : String) → str_mem k s'.done ≡ str_mem k (add (dedupe_key e) s.done))
    → IsRecoverable s'
unfolding replay
recover_sent s s' e dedupe tx r at h p el em ep ed =
    let found = replayed-lookup s e.id h p in
    recover s s' (sent e.id dedupe tx r at) el em
      (ground
        (arith, found, cores-erase e.id (reload s).pending, cores-erase e.id s.pending, h.queue))
      (λ k.
        replay_sent-landed (lookup e.id (reload s).pending) e dedupe (reload s) k found
        ∙ add-landed k (dedupe_key e) (reload s).done s.done (h.landed k)
        ∙ sym (ed k))

pub recover_parked :
    (s s' : Outbox) (e f : PendingRecord) (error : String) (at : ℕ)
    → IsRecoverable s
    → lookup e.id s.pending ≡ some f
    → s'.log ≡ s.log ++ parked e.id error at ∷ []
    → s'.max_attempts ≡ s.max_attempts
    → s'.pending ≡ erase e.id s.pending
    → s'.done ≡ s.done
    → IsRecoverable s'
unfolding replay
recover_parked s s' e f error at h p el em ep ed =
    let found = replayed-lookup s e.id h p in
    recover s s' (parked e.id error at) el em
      (ground
        (arith, found, cores-erase e.id (reload s).pending, cores-erase e.id s.pending, h.queue))
      (λ k. ground (arith, found, h.landed k))
