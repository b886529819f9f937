-- ===== src/Entry/Watcher/Accounts.antt =====
-- zcastor/entry/watcher.py: what the hooks of the watcher are told, against what `poll` counts.
use zcastor_agent.Base.{
  ℕ, ◌+◌, String, str_eq, ◌≡◌, refl, Bool, true, false, not, none, some, List, [], ◌∷◌, length,
  keep_if, is_some, arith, if◌then◌else◌,
}
use zcastor_agent.Base.Dict.{Dict, lookup, erase, lookup-erase_ne}
use zcastor_agent.Entry.Pending.{PendingEntry}
use zcastor_agent.Entry.Watcher.{Desk, Counts}
use zcastor_agent.Entry.Watcher.Filed.{IsFiled}

-- What a hook is told of an entry that ends: it was filled, or it was closed for a reason.
pub data Ending : Type 0 where
  filled_event : PendingEntry → Ending
  closed_event : PendingEntry → String → Ending

abbrev pub id_of : Ending → String
id_of (filled_event e) = e.signal_id
id_of (closed_event e reason) = e.signal_id

abbrev is_fill : Ending → Bool
is_fill (filled_event e) = true
is_fill (closed_event e reason) = false

abbrev is_expiry : Ending → Bool
is_expiry (filled_event e) = false
is_expiry (closed_event e reason) = str_eq reason "expired"

abbrev is_cancel : Ending → Bool
is_cancel (filled_event e) = false
is_cancel (closed_event e reason) = not (str_eq reason "expired")

abbrev pub fills : List Ending → ℕ
fills xs = length (keep_if is_fill xs)

abbrev pub expiries : List Ending → ℕ
expiries xs = length (keep_if is_expiry xs)

abbrev pub cancels : List Ending → ℕ
cancels xs = length (keep_if is_cancel xs)

-- How often an id has ended, and whether it is pending.
abbrev pub endings_of : String → List Ending → ℕ
endings_of j xs = length (keep_if (λ x. str_eq (id_of x) j) xs)

abbrev pub present : String → Dict PendingEntry → ℕ
present j d = if is_some (lookup j d) then 1 else 0

-- The desk that also keeps what its hooks are told, newest first.
unfoldable pub reporting : {W : Type 0} → Desk W → Desk (W × List Ending)
reporting b = record {
  get_tick = λ w. ((b.get_tick w.0).0, ((b.get_tick w.0).1, w.1));
  get_balance = λ w. ((b.get_balance w.0).0, ((b.get_balance w.0).1, w.1));
  get_free_margin = λ w. ((b.get_free_margin w.0).0, ((b.get_free_margin w.0).1, w.1));
  market_order = λ o w. ((b.market_order o w.0).0, ((b.market_order o w.0).1, w.1));
  clock = λ w. ((b.clock w.0).0, ((b.clock w.0).1, w.1));
  today = λ w. ((b.today w.0).0, ((b.today w.0).1, w.1));
  on_fill = λ e r w. (b.on_fill e r w.0, filled_event e ∷ w.1);
  on_close = λ e reason w. (b.on_close e reason w.0, closed_event e reason ∷ w.1);
}

-- The count of an ending.
abbrev pub closed : String → Counts → Counts
closed reason t =
    if str_eq reason "expired"
    then record t { expired_n = t.expired_n + 1 }
    else record t { cancelled = t.cancelled + 1 }

abbrev pub counted : Ending → Counts → Counts
counted (filled_event e) t = record t { filled = t.filled + 1 }
counted (closed_event e reason) t = closed reason t

-- One more ending, of the id, which is the one that was counted.
abbrev pub Tells : String → List Ending → List Ending → Counts → Counts → Type 0
Tells id before after t t' =
    (x : Ending) × (after ≡ x ∷ before) × (id_of x ≡ id) × (t' ≡ counted x t)

-- The endings since, the counts since, and the entries that are pending, agree.
pub record Accounts (d d' : Dict PendingEntry) (l l' : List Ending) (t t' : Counts) : Type 0 where
  pub filled : fills l' + t.filled ≡ fills l + t'.filled
  pub expired_n : expiries l' + t.expired_n ≡ expiries l + t'.expired_n
  pub cancelled : cancels l' + t.cancelled ≡ cancels l + t'.cancelled
  pub each : (j : String) → present j d' + endings_of j l' ≡ present j d + endings_of j l

pub Accounts-same :
    (d d' : Dict PendingEntry) (l : List Ending) (t : Counts)
    → ((j : String) → present j d' ≡ present j d)
    → Accounts d d' l l t t
Accounts-same d d' l t h = record {
  filled = refl;
  expired_n = refl;
  cancelled = refl;
  each = λ j. omega (arith, h j);
}

pub Accounts-then :
    (d d' d'' : Dict PendingEntry) (l l' l'' : List Ending) (t t' t'' : Counts)
    → Accounts d d' l l' t t'
    → Accounts d' d'' l' l'' t' t''
    → Accounts d d'' l l'' t t''
Accounts-then d d' d'' l l' l'' t t' t'' a b = record {
  filled = omega (arith, a.filled, b.filled);
  expired_n = omega (arith, a.expired_n, b.expired_n);
  cancelled = omega (arith, a.cancelled, b.cancelled);
  each = λ j. omega (arith, a.each j, b.each j);
}

lookup-erase_filed : (k : String) (d : Dict PendingEntry) → IsFiled d → lookup k (erase k d) ≡ none
lookup-erase_filed k [] f = refl
lookup-erase_filed k ((j, e) ∷ d) f = ground (arith, lookup-erase_filed k d f.2)

pub signal_id-lookup :
    (k : String) (d : Dict PendingEntry) (e : PendingEntry)
    → IsFiled d
    → lookup k d ≡ some e
    → e.signal_id ≡ k
signal_id-lookup k [] e f h = cc
signal_id-lookup k ((j, v) ∷ d) e f h = ground (arith, signal_id-lookup k d e f.2)

present-erase :
    (k j : String) (d : Dict PendingEntry)
    → IsFiled d
    → is_some (lookup k d) ≡ true
    → present j (erase k d) + (if str_eq k j then 1 else 0) ≡ present j d
present-erase k j d f h = ground (arith, lookup-erase_filed k d f, lookup-erase_ne k j d)

counted-Accounts :
    (x : Ending) (d d' : Dict PendingEntry) (l : List Ending) (t : Counts)
    → ((j : String) → present j d' + (if str_eq (id_of x) j then 1 else 0) ≡ present j d)
    → Accounts d d' l (x ∷ l) t (counted x t)
counted-Accounts (filled_event e) d d' l t h = record {
  filled = omega arith;
  expired_n = refl;
  cancelled = refl;
  each = λ j. ground (arith, h j);
}
counted-Accounts (closed_event e reason) d d' l t h = record {
  filled = ground arith;
  expired_n = ground arith;
  cancelled = ground arith;
  each = λ j. ground (arith, h j);
}

-- An entry that ends under its id, and of which a hook is told.
pub Tells-Accounts :
    (id : String) (d : Dict PendingEntry) (l l' : List Ending) (t t' : Counts)
    → IsFiled d
    → is_some (lookup id d) ≡ true
    → Tells id l l' t t'
    → Accounts d (erase id d) l l' t t'
Tells-Accounts id d l l' t t' f h (x, after, own, count) =
    rw (after, count)
      (counted-Accounts x d (erase id d) l t (λ j. rw own (present-erase id j d f h)))
