-- ===== src/Witnesses.antt =====
-- The properties at concrete inputs. Doubles are instantiated by whole numbers, and the hash of a
-- state by the list of its numbers.
mod Numbers
mod Engine
mod Parts
mod Text
mod Records
mod Json
mod Codec
mod Route
use showmesh_fpp_plugin.Base.{
  ℕ, ◌+◌, ◌/◌, ◌∷◌, [], List, ℤ, pos, pos_part, neg_part, sub_ℕ, ◌+ℤ◌, ◌-ℤ◌, ◌*ℤ◌, ◌≤ℤ◌, ltb_ℤ,
  Bool, true, false, ◌≡◌, refl, arith,
}
use showmesh_fpp_plugin.Fading.{Double, FadingValue}
use showmesh_fpp_plugin.Ranges.{ChannelRange, RangeConfig}
use showmesh_fpp_plugin.Brightness.State.{BrightnessState, BrightnessEngine, Digest}

-- Division of the absolute values' parts, which rounds to zero.
abbrev pub div_ℤ : ℤ → ℤ → ℤ
div_ℤ a b = sub_ℕ (pos_part a / pos_part b) (neg_part a / pos_part b)

pub lt_irrefl : (a : ℤ) → ltb_ℤ a a ≡ false
lt_irrefl a = ground arith

pub lt_asymm : (a b : ℤ) → ltb_ℤ a b ≡ true → ltb_ℤ b a ≡ false
lt_asymm a b h = ground arith

pub lround_mono :
    (a b : ℤ) → ltb_ℤ a (pos 0) ≡ false → ltb_ℤ b a ≡ false → ltb_ℤ (pos 100) b ≡ false → a ≤ℤ b
lround_mono a b l h r = ground arith

abbrev pub whole : Double
whole = record {
  Num = ℤ;
  lt = ltb_ℤ;
  of_int = λ z. z;
  add = λ a b. a +ℤ b;
  sub = λ a b. a -ℤ b;
  mul = λ a b. a *ℤ b;
  div = div_ℤ;
  lround = λ z. z;
  lt_irrefl = lt_irrefl;
  lt_asymm = lt_asymm;
  lround_mono = lround_mono;
  lround-of_int = λ z p. refl;
  lt-of_int = λ y z p q. refl;
}

abbrev pub listed : Digest ℤ
listed = λ a b c d e f g h.
    pos_part a
    ∷ pos_part b
    ∷ pos_part c
    ∷ pos_part d
    ∷ pos_part e
    ∷ pos_part f
    ∷ pos_part g
    ∷ pos_part h
    ∷ []

-- A running fade from 80 to 20 over one second.
abbrev pub dimming : FadingValue ℤ
dimming = record { start = pos 80; target = pos 20; start_millis = pos 1000; end_millis = pos 2000 }

abbrev pub steady : FadingValue ℤ
steady = record { start = pos 60; target = pos 60; start_millis = pos 0; end_millis = pos 0 }

abbrev pub apply_one : List ChannelRange
apply_one = record { start_channel = 1; channel_count = 4 } ∷ []

abbrev pub exclude_one : List ChannelRange
exclude_one = record { start_channel = 2; channel_count = 1 } ∷ []

abbrev pub four_but_one : RangeConfig
four_but_one = record { apply = apply_one; exclude = exclude_one }

-- An engine with those ranges over eight channels, a closed gate, and a change at the year 2001.
abbrev pub node : BrightnessEngine ℤ
node = record {
  ceiling = steady;
  gain = dimming;
  ranges = four_but_one;
  scaled_spans = [];
  total_channels = 8;
  revision = 4;
  state_changed_at_millis = pos 978307200000;
  ceiling_changed_at_millis = pos 978307200000;
  instance_id = 65 ∷ [];
  last_applied_ceiling = pos 60;
  last_applied_gain = pos 80;
  gate_closed = true;
  gate_revision = 3;
  ordering_instance_id = 65 ∷ [];
  ordering_hash = [];
}

-- What a peer sent a day later.
abbrev pub state : BrightnessState ℤ
state = record {
  schema_version = pos 1;
  revision = 9;
  state_changed_at_millis = pos 978393600000;
  instance_id = 66 ∷ [];
  ceiling_start = pos 40;
  ceiling_target = pos 40;
  ceiling_fade_start_millis = pos 0;
  ceiling_fade_end_millis = pos 0;
  gain_start = pos 100;
  gain_target = pos 90;
  gain_fade_start_millis = pos 978393600000;
  gain_fade_end_millis = pos 978393601000;
  last_applied_ceiling = pos 40;
  last_applied_gain = pos 95;
  persisted_at_millis = pos 978393600500;
  weather_gate_closed = false;
  weather_gate_revision = 3;
  ceiling_changed_at_millis = pos 978393600000;
}

abbrev pub later : ℤ
later = pos 978393700000
