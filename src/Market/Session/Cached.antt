-- ===== src/Market/Session/Cached.antt =====
-- zcastor/market/session.py: an open, once known, stays for the day.
use mathlib.Core.Path.{subst}
use zcastor_agent.Base.{ℕ, ◌/◌, String, true, ◌≡◌, refl, Option, none}
use zcastor_agent.Base.{some, ◌+◌, List, [], ◌∷◌, if◌then◌else◌, ltb, arith}
use zcastor_agent.Base.{inl, inr, Bool-cases}
use zcastor_agent.Base.Int.{ℤ, pos, leb_ℤ, ltb_ℤ}
use zcastor_agent.Base.Dict.{lookup}
use zcastor_agent.Base.Text.{strip}
use zcastor_agent.Market.Session.{Opens, Closes, cached, store, from_bars, from_cache}
use zcastor_agent.Market.Session.{open_window, open_from, open_price, day_ms, session_start_utc_min}

-- A later call: what the feed would answer, the time, and the session.
pub record Call : Type 0 where
  pub rates : Closes
  pub now : ℕ
  pub session : String

-- The cache after a list of calls.
unfoldable pub after : List Call → Opens → Opens
after [] c = c
after (k ∷ ks) c = after ks (open_price k.rates k.now k.session c).1

cached-store_other :
    (k j : ℕ × String) (v w : ℤ) (c : Opens)
    → cached k c ≡ some v
    → cached j c ≡ none
    → cached k (store j w c) ≡ some v
cached-store_other k j v w [] p q = cc
cached-store_other k j v w ((i, u) ∷ c) p q = ground (arith, cached-store_other k j v w c)

cached-store : (k : ℕ × String) (v : ℤ) (c : Opens) → cached k (store k v c) ≡ some v
cached-store k v [] = ground arith
cached-store k v ((j, w) ∷ c) = ground (arith, cached-store k v c)

-- Whatever is asked, what the cache holds stays.
cached-from_bars :
    (k j : ℕ × String) (v : ℤ) (c : Opens) (bars : Option (List (Option ℤ)))
    → cached k c ≡ some v
    → cached j c ≡ none
    → cached k (from_bars bars j c).1 ≡ some v
cached-from_bars k j v c none p q = p
cached-from_bars k j v c (some []) p q = p
cached-from_bars k j v c (some (none ∷ bars)) p q = p
cached-from_bars k j v c (some (some w ∷ bars)) p q = elim (Bool-cases (leb_ℤ w (pos 0))) [
  | inl bad ↦ rw bad p
  | inr good ↦ rw good (cached-store_other k j v w c p q)
]

cached-from_cache :
    (k j : ℕ × String) (v : ℤ) (c : Opens) (o : Option ℤ) (rates : Closes) (start now : ℕ)
    → cached k c ≡ some v
    → cached j c ≡ o
    → cached k (from_cache o rates start now j c).1 ≡ some v
cached-from_cache k j v c (some w) rates start now p q = p
cached-from_cache k j v c none rates start now p q = elim (Bool-cases (ltb now start)) [
  | inl early ↦ rw early p
  | inr open_now ↦ rw open_now (cached-from_bars k j v c (rates start (start + open_window)) p q)
]

cached-open_from :
    (k : ℕ × String) (v : ℤ) (c : Opens) (o : Option ℕ) (rates : Closes) (now : ℕ) (s : String)
    → cached k c ≡ some v
    → cached k (open_from o rates now s c).1 ≡ some v
cached-open_from k v c none rates now s p = p
cached-open_from k v c (some m) rates now s p =
    cached-from_cache k (now / day_ms, s) v c _ rates _ now p refl

cached-after :
    (k : ℕ × String) (v : ℤ) (ks : List Call) (c : Opens)
    → cached k c ≡ some v
    → cached k (after ks c) ≡ some v
unfolding after open_price
cached-after k v [] c p = p
cached-after k v (x ∷ ks) c p =
    cached-after k v ks _ (cached-open_from k v c _ x.rates x.now x.session p)

-- An answer above zero is in the cache afterwards.
from_bars-cached :
    (k : ℕ × String) (c : Opens) (bars : Option (List (Option ℤ)))
    → ltb_ℤ (pos 0) (from_bars bars k c).0 ≡ true
    → cached k (from_bars bars k c).1 ≡ some (from_bars bars k c).0
from_bars-cached k c none h = ground arith
from_bars-cached k c (some []) h = ground arith
from_bars-cached k c (some (none ∷ bars)) h = ground arith
from_bars-cached k c (some (some w ∷ bars)) h = elim (Bool-cases (leb_ℤ w (pos 0))) [
  | inl bad ↦ ground (arith, bad, h)
  | inr good ↦ rw good (cached-store k w c)
]

from_cache-cached :
    (k : ℕ × String) (c : Opens) (o : Option ℤ) (rates : Closes) (start now : ℕ)
    → cached k c ≡ o
    → ltb_ℤ (pos 0) (from_cache o rates start now k c).0 ≡ true
    → cached k (from_cache o rates start now k c).1 ≡ some (from_cache o rates start now k c).0
from_cache-cached k c (some w) rates start now q h = q
from_cache-cached k c none rates start now q h = elim (Bool-cases (ltb now start)) [
  | inl early ↦ ground (arith, early, h)
  | inr open_now ↦ rw open_now (
      from_bars-cached k c (rates start (start + open_window)) (
        subst
          (λ b.
            ltb_ℤ (pos 0)
              (if b then (pos 0, c) else from_bars (rates start (start + open_window)) k c).0
            ≡ true)
          open_now h))
]

-- One session with a start: the answer is kept for every later call of its day.
open_from-later :
    (o : Option ℕ) (rates rates' : Closes) (now now' : ℕ) (s : String) (c : Opens) (ks : List Call)
    → ltb_ℤ (pos 0) (open_from o rates now s c).0 ≡ true
    → now' / day_ms ≡ now / day_ms
    → let (price, c') = open_from o rates now s c in
      open_from o rates' now' s (after ks c') ≡ (price, after ks c')
open_from-later none rates rates' now now' s c ks h d = ground arith
open_from-later (some m) rates rates' now now' s c ks h d =
    let kept =
      cached-after (now / day_ms, s) _ ks _
        (from_cache-cached (now / day_ms, s) c _ rates _ now refl h) in
    rw d (rw kept refl)

-- Once a session's open is known, every later call of that day answers it, whatever the feed
-- answers then and whatever else has been asked in between.
pub open_price-later :
    (rates rates' : Closes) (now now' : ℕ) (s : String) (c : Opens) (ks : List Call)
    → ltb_ℤ (pos 0) (open_price rates now s c).0 ≡ true
    → now' / day_ms ≡ now / day_ms
    → let (price, c') = open_price rates now s c in
      open_price rates' now' s (after ks c') ≡ (price, after ks c')
unfolding open_price
open_price-later rates rates' now now' s c ks h d =
    open_from-later (lookup (strip s) session_start_utc_min) rates rates' now now' s c ks h d
