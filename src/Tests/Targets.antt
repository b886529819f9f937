-- ===== src/Tests/Targets.antt =====
-- The stop and the target of one signal, in thousandths.
use zcastor_agent.Base.{suc, ◌*◌, ◌/◌, ◌^◌, true, none, some}
use zcastor_agent.Base.{[], ◌∷◌, ◌≡◌, refl, arith, String-discrete}
use zcastor_agent.Base.Text.{lower, upper, strip}
use zcastor_agent.Base.Int.{ℤ, pos, negsuc, ◌+ℤ◌, ◌-ℤ◌, neg, leb_ℤ}
use zcastor_agent.Targets.{
  missing, number, TargetSignal, TargetPolicy, init, normalise_tf, bounds, level_of,
}
use zcastor_agent.Targets.Floats.{Number, max_of, min_of}
use zcastor_agent.Targets.Stop.{compute_sl, sl_pts, blended_stop, number_or}
use zcastor_agent.Targets.Target.{compute_tp, target_pts, first_target, under_cap}
use zcastor_agent.Targets.Thesis.{targets-IsThesis, IsThesis}

abbrev times : ℤ → ℤ → ℤ
times (pos a) (pos b) = pos (a * b / 1000)
times (pos a) (negsuc b) = neg (pos (a * suc b / 1000))
times (negsuc a) (pos b) = neg (pos (suc a * b / 1000))
times (negsuc a) (negsuc b) = pos (suc a * suc b / 1000)

abbrev over : ℤ → ℤ → ℤ
over (pos a) (pos b) = pos (a * 1000 / b)
over (pos a) (negsuc b) = neg (pos (a * 1000 / suc b))
over (negsuc a) (pos b) = neg (pos (suc a * 1000 / b))
over (negsuc a) (negsuc b) = pos (suc a * 1000 / suc b)

times_sign :
    (a b : ℤ) → leb_ℤ (pos 0) a ≡ true → leb_ℤ (pos 0) b ≡ true → leb_ℤ (pos 0) (times a b) ≡ true
times_sign a b p q = ground arith

instance thousandths : Number ℤ
unfolding ◌+ℤ◌ ◌-ℤ◌
thousandths = record {
  decimal = λ k d. pos (k * 1000 / 10 ^ d);
  of_text = λ s. none;
  round_to = λ d a. a;
  add = ◌+ℤ◌;
  sub = ◌-ℤ◌;
  mul = times;
  div = over;
  leb = leb_ℤ;
  leb_total = λ a b. ground arith;
  leb_trans = λ a b c p q. ground arith;
  leb-add = λ a b p. ground arith;
  leb-sub = λ a b p. ground arith;
  leb-mul = times_sign;
}

abbrev policy : TargetPolicy ℤ
policy = record {
  min_risk_reward = some (pos 1500);
  tf_sl_range_pts = ("15m", (pos 100000, pos 200000)) ∷ [];
  tf_tp_ceiling_pts = ("15m", pos 400000) ∷ [];
  phase_fraction = ("fresh", pos 900) ∷ [];
  session_rr = ("London", pos 2000) ∷ [];
  regime_atr_bias = ("ranging", pos 800) ∷ [];
  regime_rr_cap = ("ranging", pos 1800) ∷ [];
  regime_rr_cap_timeframes = "15m" ∷ [];
  sr_buffer_pts = none;
  phase_blend = none;
  sr_blend = none;
  atr_half_weight = none;
}

abbrev signal : TargetSignal ℤ
signal = record {
  timeframe = some "15";
  zone_phase = some "Fresh";
  regime = some "ranging";
  session = some "London";
  direction = some "up";
  atr = some (pos 300000);
  entry_price = some (pos 60000000);
  nearest_support_pts = number (pos 150000);
  nearest_resistance_pts = missing;
}

usable_signal : compute_sl (init policy) signal none ≡ some (pos 59835900)
unfolding init compute_sl sl_pts blended_stop number_or max_of min_of normalise_tf bounds level_of
    thousandths String-discrete ◌+ℤ◌ ◌-ℤ◌ lower strip upper
usable_signal = refl

usable_target : compute_tp (init policy) signal none ≡ some (pos 60295380)
unfolding init compute_tp target_pts first_target under_cap sl_pts blended_stop number_or max_of
    min_of normalise_tf bounds level_of thousandths String-discrete ◌+ℤ◌ ◌-ℤ◌ lower strip upper
usable_target = refl

targets-IsThesis_example : IsThesis (init policy) signal none
unfolding init bounds normalise_tf String-discrete lower strip thousandths
targets-IsThesis_example = targets-IsThesis (init policy) signal none refl refl refl
