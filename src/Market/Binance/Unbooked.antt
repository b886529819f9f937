-- ===== src/Market/Binance/Unbooked.antt =====
-- zcastor/market/binance.py with zcastor/execution/booking.py: what the close poller finds there.
use zcastor_agent.Base.{ℕ, Bool, true, false, not, Option, none, some, List, [], ◌∷◌, map, any}
use zcastor_agent.Base.{
  All, Bool-cases, inl, inr, keep_if, ◌==◌, ◌≡◌, refl, ap, length, if◌then◌else◌, arith,
}
use zcastor_agent.Execution.Journal.{Trade, Journal}
use zcastor_agent.Execution.Booking.{Broker, Booker, unique, gone, poll, poll_live, book_all}
use zcastor_agent.Market.Binance.{position_of, get_open_positions}

-- The tickets of the positions, as the poller reads them.
abbrev pub live_tickets : {J : Type 0} → Journal J → J → List ℕ
live_tickets j s = map (λ p. p.ticket) (get_open_positions (some j) s)

ticket_kept : (t : ℕ) (o : Option Trade) → (position_of t o).ticket ≡ t
ticket_kept t none = refl
ticket_kept t (some r) = refl

tickets_of_positions :
    (look : ℕ → Option Trade) (ts : List ℕ)
    → map (λ p. p.ticket) (map (λ t. position_of t (look t)) ts) ≡ ts
tickets_of_positions look [] = refl
tickets_of_positions look (t ∷ ts) =
    rw (ticket_kept t (look t)) (ap (λ u. t ∷ u) (tickets_of_positions look ts))

live_tickets-open : {J : Type 0} (j : Journal J) (s : J) → live_tickets j s ≡ j.open_tickets s
unfolding get_open_positions
live_tickets-open j s = tickets_of_positions (λ t. j.get t s) (j.open_tickets s)

abbrev AreIn : List ℕ → List ℕ → Type 0
AreIn zs xs = All (λ x. any (λ y. x == y) zs ≡ true) xs

AreIn-cons : (z : ℕ) (zs xs : List ℕ) → AreIn zs xs → AreIn (z ∷ zs) xs
AreIn-cons z zs [] h = tt
AreIn-cons z zs (x ∷ xs) h = (ground (arith, h.0), AreIn-cons z zs xs h.1)

AreIn-self : (xs : List ℕ) → AreIn xs xs
AreIn-self [] = tt
AreIn-self (x ∷ xs) = (ground arith, AreIn-cons x xs xs (AreIn-self xs))

AreIn-keep_if : (p : ℕ → Bool) (zs xs : List ℕ) → AreIn zs xs → AreIn zs (keep_if p xs)
AreIn-keep_if p zs [] h = tt
AreIn-keep_if p zs (x ∷ xs) h = elim (Bool-cases (p x)) [
  | inl t ↦ rw t (h.0, AreIn-keep_if p zs xs h.1)
  | inr f ↦ rw f (AreIn-keep_if p zs xs h.1)
]

AreIn-unique : (zs xs : List ℕ) → AreIn zs xs → AreIn zs (unique xs)
AreIn-unique zs [] h = tt
AreIn-unique zs (x ∷ xs) h =
    (h.0, AreIn-keep_if (λ y. not (y == x)) zs (unique xs) (AreIn-unique zs xs h.1))

none_outside : (zs xs : List ℕ) → AreIn zs xs → keep_if (λ x. not (any (λ y. x == y) zs)) xs ≡ []
none_outside zs [] h = refl
none_outside zs (x ∷ xs) h = rw h.0 (none_outside zs xs h.1)

-- Every open trade is live, so none is gone.
gone_self : (xs : List ℕ) → gone xs xs ≡ []
gone_self xs = rw (none_outside xs (unique xs) (AreIn-unique xs xs (AreIn-self xs))) refl

poll_live_self :
    {J W : Type 0} (j : Journal J) (b : Broker W) (k : Booker) (s : J) (w : W)
    → poll_live j b k (some (j.open_tickets s)) s w ≡ ([], s, w)
unfolding poll_live book_all
poll_live_self j b k s w = rw (gone_self (j.open_tickets s)) refl

idle : {X : Type 0} {x y : X} (empty : Bool) → y ≡ x → (if empty then x else y) ≡ x
idle true h = refl
idle false h = h

-- With the positions of this port, a poll books nothing, in any state of the journal.
pub poll-Binance :
    {J W : Type 0} (j : Journal J) (b : Broker W) (k : Booker) (s : J) (w : W)
    → b.get_open_positions w ≡ (some (live_tickets j s), w)
    → poll j b k s w ≡ ([], s, w)
unfolding poll
poll-Binance j b k s w h =
    rw h (
      idle (length (j.open_tickets s) == 0) (rw (live_tickets-open j s) (poll_live_self j b k s w)))
