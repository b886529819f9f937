-- ===== src/Anchor/Outbox/Backoff.antt =====
-- zcastor/anchor/outbox.py: how long an entry waits, and when it is given up.
use native.Mathlib.Nat.{pow-suc}
use native.Mathlib.Numerals.{towards_suc}
use zcastor_agent.Base.{
  ℕ, zero, suc, ◌+◌, ◌*◌, ◌^◌, ◌-◌, ◌≤◌, ◌≡◌, refl, arith, true, String, some, is_some, ◌||◌,
  Bool-cases, inl, inr,
}
use zcastor_agent.Base.Dict.{lookup, lookup-insert_self}
use zcastor_agent.Anchor.Record.{PendingRecord}
use zcastor_agent.Anchor.Outbox.{Outbox, base_backoff, max_backoff, delay, backoff, tried, gives_up}

two_pow_pos : (n : ℕ) → 1 ≤ 2 ^ n
two_pow_pos zero = omega arith
two_pow_pos (suc n) = omega (arith, pow-suc 2 n, two_pow_pos n)

two_pow_add_eight : (n : ℕ) → 2 ^ (n + 8) ≡ 256 * 2 ^ n
two_pow_add_eight n = simp towards_suc (omega arith)

-- Every failed attempt makes an entry wait at least as long as the one before, at least the base
-- delay and at most the maximal one, and from the ninth attempt on exactly the maximal one.
pub delay_bounds :
    (n : ℕ)
    → (base_backoff ≤ delay (suc n))
      × (delay (suc n) ≤ max_backoff)
      × (delay (suc n) ≤ delay (suc (suc n)))
      × (delay (n + 9) ≡ max_backoff)
unfolding delay
delay_bounds n =
    let one : suc n - 1 ≡ n = omega arith in
    let two : suc (suc n) - 1 ≡ suc n = omega arith in
    let nine : n + 9 - 1 ≡ n + 8 = omega arith in
    (
      rw one (omega (arith, two_pow_pos n)),
      omega arith,
      rw (one, two) (omega (arith, two_pow_pos n, pow-suc 2 n)),
      rw nine (omega (arith, two_pow_pos n, two_pow_add_eight n)),
    )

-- With no limit on the attempts, an entry that met an unavailable chain stays queued under its id,
-- with one attempt more and a later time; with any limit, it is queued or parked, never lost.
pub backoff_keeps :
    (now at : ℕ) (e : PendingRecord) (error : String) (s : Outbox)
    → (s.max_attempts ≡ 0
        → lookup e.id (backoff now at e error s).pending ≡ some (tried now e error))
      × ((is_some (lookup e.id (backoff now at e error s).pending)
            || is_some (lookup e.id (backoff now at e error s).parked_entries))
          ≡ true)
unfolding backoff
backoff_keeps now at e error s = (
  λ forever. ground (arith, lookup-insert_self e.id (tried now e error) s.pending),
  elim (Bool-cases (gives_up e s)) [
    | inl last ↦ rw last (rw lookup-insert_self (ground arith))
    | inr again ↦ rw again (rw lookup-insert_self refl)
  ],
)
