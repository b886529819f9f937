-- ===== src/Execution/Booking/Once.antt =====
-- zcastor/execution/booking.py: no ticket is booked twice.
use zcastor_agent.Base.{
  ℕ, ◌≡◌, refl, ◌∙◌, Bool, true, false, Option, none, some, List, [], ◌∷◌, any, arith, Bool-cases,
  inl, inr, ◌==◌, length,
}
use zcastor_agent.Execution.Journal.{Trade, Deal, Journal, IsJournal, is_closed}
use zcastor_agent.Execution.Booking.{
  Broker, Booker, note_edge, announce, book_deal, book_trade, book, book_all, poll_live, poll, gone,
}

-- The tickets that were announced as booked, newest first, beside the world.
abbrev pub Booked : Type 0 → Type 0
Booked W = W × List ℕ

-- The broker that keeps such a list and is otherwise the given one.
unfoldable pub listing : {W : Type 0} → Broker W → Broker (Booked W)
listing b = record {
  get_closed_deal = λ t w. ((b.get_closed_deal t w.0).0, ((b.get_closed_deal t w.0).1, w.1));
  get_open_positions = λ w. ((b.get_open_positions w.0).0, ((b.get_open_positions w.0).1, w.1));
  record_edge = λ e w. (b.record_edge e w.0, w.1);
  on_closed = λ t w. (b.on_closed t w.0, t.ticket ∷ w.1);
}

abbrev pub mem : ℕ → List ℕ → Bool
mem t ts = any (λ u. t == u) ts

-- No ticket stands twice.
abbrev pub IsDistinct : List ℕ → Type 0
IsDistinct [] = Unit
IsDistinct (t ∷ ts) = (mem t ts ≡ false) × IsDistinct ts

-- What happens between two looks at the journal: a trade is opened, the poller runs a cycle, or a
-- ticket is booked by hand.
pub data Step : Type 0 where
  opened : Trade → Step
  polled : Step
  booked : ℕ → Step

module _ {J W : Type 0} (j : Journal J) (b : Broker W) (k : Booker) where
  unfoldable pub perform : Step → J → W → J × W
  perform (opened t) s w = (j.open_trade t s, w)
  perform polled s w = let (rs, s', w') = poll j b k s w in (s', w')
  perform (booked t) s w = let (r, s', w') = book j b k t s w in (s', w')

  unfoldable pub history : List Step → J → W → J × W
  unfolding perform
  history [] s w = (s, w)
  history (o ∷ os) s w = let (s', w') = perform o s w in history os s' w'

module _ {J W : Type 0} (j : Journal J) (b : Broker W) (k : Booker) (laws : IsJournal j) where
  -- The booked tickets are distinct, and closed in the journal.
  abbrev IsBooked : J → List ℕ → Type 0
  IsBooked s ts = IsDistinct ts × ((t : ℕ) → mem t ts ≡ true → is_closed (j.get t s) ≡ true)

  note_edge-listing : (t : Trade) (w : Booked W) → (note_edge j (listing b) k t w).1 ≡ w.1
  unfolding note_edge listing
  note_edge-listing t w = ground arith

  announce-IsBooked :
      (o : Option Trade) (t : ℕ) (s : J) (w : Booked W) (ts : List ℕ)
      → j.get t s ≡ o
      → w.1 ≡ ts
      → mem t ts ≡ false
      → is_closed o ≡ true
      → IsBooked s ts
      → let (r, s', w') = announce j (listing b) k o s w in IsBooked s' w'.1
  unfolding announce
  announce-IsBooked none t s w ts g e new c h = cc
  announce-IsBooked (some r) t s w ts g e new c h =
      let kept : (note_edge j (listing b) k r w).1 ≡ ts = note_edge-listing r w ∙ e in
      let own : r.ticket ≡ t = laws.ticket_kept t s g in
      let here : is_closed (j.get t s) ≡ true = rw g c in
      unfold listing in
      rw (kept, own)
        (
          (new, h.0),
          λ u m. elim (Bool-cases (u == t)) [
            | inl same ↦ let same' : u ≡ t = ground (arith, same) in rw same' here
            | inr other ↦ h.1 u (ground (arith, other, m))
          ],
        )

  book_deal-IsBooked :
      (o : Option Deal) (t : ℕ) (s : J) (w : Booked W) (ts : List ℕ)
      → w.1 ≡ ts
      → mem t ts ≡ false
      → IsBooked s ts
      → let (r, s', w') = book_deal j (listing b) k o t s w in IsBooked s' w'.1
  unfolding book_deal
  book_deal-IsBooked none t s w ts e new h = rw e h
  book_deal-IsBooked (some d) t s w ts e new h =
      let (taken, s') = j.close_trade t d s in
      let still : IsBooked s' ts = (h.0, λ u m. laws.close_keeps t u d s (h.1 u m)) in
      elim (Bool-cases (j.close_trade t d s).0) [
        | inl yes_taken ↦ rw yes_taken (
            announce-IsBooked (j.get t s') t s' w ts refl e new (laws.closes t d s yes_taken) still)
        | inr refused ↦ rw (refused, e) still
      ]

  book_trade-IsBooked :
      (o : Option Trade) (t : ℕ) (s : J) (w : Booked W)
      → j.get t s ≡ o
      → IsBooked s w.1
      → let (r, s', w') = book_trade j (listing b) k o t s w in IsBooked s' w'.1
  unfolding book_trade listing
  book_trade-IsBooked none t s w g h = h
  book_trade-IsBooked (some r) t s w g h = elim (Bool-cases r.closed) [
    | inl old ↦ rw old h
    | inr running ↦
        let new : mem t w.1 ≡ false = elim (Bool-cases (mem t w.1)) [
          | inl known ↦ absurd (ground (arith, h.1 t known, g, running))
          | inr unknown ↦ unknown
        ] in
        rw running (book_deal-IsBooked (b.get_closed_deal t w.0).0 t s _ w.1 refl new h)
  ]

  book_all-IsBooked :
      (ts : List ℕ) (s : J) (w : Booked W)
      → IsBooked s w.1
      → let (rs, s', w') = book_all j (listing b) k ts s w in IsBooked s' w'.1
  unfolding book_all book
  book_all-IsBooked [] s w h = h
  book_all-IsBooked (t ∷ ts) s w h =
      let here = book_trade-IsBooked (j.get t s) t s w refl h in
      let (r, s', w') = book j (listing b) k t s w in book_all-IsBooked ts s' w' here

  poll_live-IsBooked :
      (o : Option (List ℕ)) (s : J) (w : Booked W)
      → IsBooked s w.1
      → let (rs, s', w') = poll_live j (listing b) k o s w in IsBooked s' w'.1
  unfolding poll_live
  poll_live-IsBooked none s w h = h
  poll_live-IsBooked (some l) s w h = book_all-IsBooked (gone (j.open_tickets s) l) s w h

  poll-IsBooked :
      (s : J) (w : Booked W)
      → IsBooked s w.1
      → let (rs, s', w') = poll j (listing b) k s w in IsBooked s' w'.1
  unfolding poll listing
  poll-IsBooked s w h = elim (Bool-cases (length (j.open_tickets s) == 0)) [
    | inl idle ↦ rw idle h
    | inr busy ↦
        let (live, v) = b.get_open_positions w.0 in rw busy (poll_live-IsBooked live s (v, w.1) h)
  ]

  history-IsBooked :
      (os : List Step) (s : J) (w : Booked W)
      → IsBooked s w.1
      → let (s', w') = history j (listing b) k os s w in IsBooked s' w'.1
  unfolding history perform book
  history-IsBooked [] s w h = h
  history-IsBooked (opened r ∷ os) s w h =
      history-IsBooked os (j.open_trade r s) w (h.0, λ u m. laws.open_keeps r u s (h.1 u m))
  history-IsBooked (polled ∷ os) s w h =
      let (rs, s', w') = poll j (listing b) k s w in history-IsBooked os s' w' (poll-IsBooked s w h)
  history-IsBooked (booked t ∷ os) s w h =
      let (r, s', w') = book j (listing b) k t s w in
      history-IsBooked os s' w' (book_trade-IsBooked (j.get t s) t s w refl h)

  -- With a journal that refuses a second close and keeps closed trades closed, no ticket is announced
  -- as booked twice over any sequence of openings, poller cycles and bookings by hand, whatever the
  -- broker answers, and every ticket that was is closed in the journal.
  pub history-booked_once :
      (os : List Step) (s : J) (w : W)
      → let (s', w') = history j (listing b) k os s (w, []) in
        IsDistinct w'.1 × ((t : ℕ) → mem t w'.1 ≡ true → is_closed (j.get t s') ≡ true)
  history-booked_once os s w = history-IsBooked os s (w, []) (tt, λ t m. cc)
