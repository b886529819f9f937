-- ===== src/Market/Session.antt =====
-- zcastor/market/session.py: when the sessions start, and `SessionOpens`. The clock is in
-- milliseconds since midnight of 1 January 1970, UTC; the lock is left out.
pub mod Cached
pub mod Current
use zcastor_agent.Base.{ℕ, ◌+◌, ◌*◌, ◌/◌, ◌%◌, String, Bool, true, false, ◌&&◌, Option, none, some}
use zcastor_agent.Base.{List, [], ◌∷◌, ltb, leb, ◌==◌, str_eq, if◌then◌else◌}
use zcastor_agent.Base.Int.{ℤ, pos, leb_ℤ}
use zcastor_agent.Base.Dict.{Dict, lookup}
use zcastor_agent.Base.Text.{strip}

-- `SESSION_START_UTC_MIN`
abbrev pub session_start_utc_min : Dict ℕ
session_start_utc_min =
    ("Asian", 0)
    ∷ ("Pre-London", 450)
    ∷ ("London", 480)
    ∷ ("NY Open", 810)
    ∷ ("NY PM", 960)
    ∷ ("NY Close", 1200)
    ∷ ("Overnight", 1320)
    ∷ []

abbrev pub open_window : ℕ
open_window = 300000

abbrev pub day_ms : ℕ
day_ms = 86400000

-- The cache, under the day and the session: the text `f"{now:%Y-%m-%d}|{session}"` tells the two.
abbrev pub Opens : Type 0
Opens = List ((ℕ × String) × ℤ)

abbrev pub same_key : ℕ × String → ℕ × String → Bool
same_key (d, s) (e, t) = (d == e) && str_eq s t

abbrev pub cached : ℕ × String → Opens → Option ℤ
cached k [] = none
cached k ((j, v) ∷ c) = let rest = cached k c in if same_key k j then some v else rest

abbrev pub store : ℕ × String → ℤ → Opens → Opens
store k v [] = (k, v) ∷ []
store k v ((j, w) ∷ c) =
    let rest = store k v c in if same_key k j then (j, v) ∷ c else (j, w) ∷ rest

-- What `rates_fn` gives for a stretch: none where it raises; a bar is none where its close cannot be
-- read.
abbrev pub Closes : Type 0
Closes = ℕ → ℕ → Option (List (Option ℤ))

-- From the bars on. Zero stands for an open that is not known.
abbrev pub from_bars : Option (List (Option ℤ)) → ℕ × String → Opens → ℤ × Opens
from_bars none k c = (pos 0, c)
from_bars (some []) k c = (pos 0, c)
from_bars (some (none ∷ bars)) k c = (pos 0, c)
from_bars (some (some price ∷ bars)) k c =
    if leb_ℤ price (pos 0) then (pos 0, c) else (price, store k price c)

-- From the cache on: nothing is asked before the session has opened.
abbrev pub from_cache : Option ℤ → Closes → ℕ → ℕ → ℕ × String → Opens → ℤ × Opens
from_cache (some price) rates start now k c = (price, c)
from_cache none rates start now k c =
    if ltb now start then (pos 0, c) else from_bars (rates start (start + open_window)) k c

abbrev pub open_from : Option ℕ → Closes → ℕ → String → Opens → ℤ × Opens
open_from none rates now session c = (pos 0, c)
open_from (some start_min) rates now session c =
    let day = now / day_ms in
    from_cache (cached (day, session) c) rates (day * day_ms + start_min * 60000) now (day, session)
      c

unfoldable pub open_price : Closes → ℕ → String → Opens → ℤ × Opens
open_price rates now session c =
    open_from (lookup (strip session) session_start_utc_min) rates now session c

unfoldable pub clear : Opens → Opens
clear c = []

-- The loop of `current_session`; `next` is the best start and one more, 0 before the first.
abbrev pub latest : ℕ → Dict ℕ → String → ℕ → String
latest minutes [] current next = current
latest minutes ((name, start) ∷ d) current next =
    let moved = latest minutes d name (start + 1) in
    let kept = latest minutes d current next in
    if leb start minutes && leb next start then moved else kept

-- The minutes past midnight.
abbrev pub minutes_of : ℕ → ℕ
minutes_of now = now / 3600000 % 24 * 60 + now / 60000 % 60

unfoldable pub current_session : ℕ → String
current_session now = latest (minutes_of now) session_start_utc_min "Overnight" 0
