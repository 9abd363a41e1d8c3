-- ===== src/Outage/Streak.antt =====
-- The detector against the history itself: loss is confirmed exactly when the probes since the last
-- answer are enough and span the minimum time.
use showmesh_fpp_plugin.Base.{
  suc, ℤ, pos, leb_ℤ, ◌-ℤ◌, ◌≤ℤ◌, ◌<ℤ◌, Bool, true, false, ◌&&◌, ◌≡◌, refl, ◌∙◌, ap, List, [], ◌∷◌,
  length, arith,
}
use showmesh_fpp_plugin.Outage.{
  OutageDetectorConfig, CoordinatorOutageDetector, new_detector, record_probe, confirmed_lost,
  reachable, replay,
}

-- The times of the failures since the last answer, the newest first.
abbrev pub streak : List (Bool × ℤ) → List ℤ
streak [] = []
streak ((true, now) ∷ probes) = []
streak ((false, now) ∷ probes) = now ∷ streak probes

abbrev pub oldest : ℤ → List ℤ → ℤ
oldest t [] = t
oldest t (u ∷ us) = oldest u us

-- Enough failures over enough time.
abbrev pub is_loss : OutageDetectorConfig → List ℤ → Bool
is_loss config [] = false
is_loss config (t ∷ ts) =
    leb_ℤ config.failed_probes_to_confirm (pos (suc (length ts)))
    && leb_ℤ config.minimum_loss_millis (t -ℤ oldest t ts)

-- The clock does not go back from one probe to the next.
abbrev pub Ordered : List (Bool × ℤ) → Type 0
Ordered [] = Unit
Ordered ((reached, now) ∷ []) = Unit
Ordered ((reached, now) ∷ (r, before) ∷ probes) = (before ≤ℤ now) × Ordered ((r, before) ∷ probes)

abbrev Tracks : CoordinatorOutageDetector → List ℤ → Type 0
Tracks d [] = d.consecutive_failures ≡ 0
Tracks d (t ∷ ts) =
    (d.consecutive_failures ≡ suc (length ts))
    × (d.last_failure_at_millis ≡ t)
    × (d.first_failure_at_millis ≡ oldest t ts)
    × (d.first_failure_at_millis ≤ℤ d.last_failure_at_millis)

record_probe-first :
    (d : CoordinatorOutageDetector) (now : ℤ)
    → Tracks d []
    → Tracks (record_probe d false now) (now ∷ [])
unfolding record_probe
record_probe-first d now h = (ground arith, refl, ground arith, ground arith)

record_probe-next :
    (d : CoordinatorOutageDetector) (now t : ℤ) (ts : List ℤ)
    → t ≤ℤ now
    → Tracks d (t ∷ ts)
    → Tracks (record_probe d false now) (now ∷ t ∷ ts)
unfolding record_probe
record_probe-next d now t ts h k = (ground arith, refl, ground arith, ground arith)

replay-Tracks :
    (config : OutageDetectorConfig) (probes : List (Bool × ℤ))
    → Ordered probes
    → Tracks (replay config probes) (streak probes)
unfolding replay
replay-Tracks config [] o = unfold new_detector in refl
replay-Tracks config ((true, now) ∷ probes) o = unfold record_probe in refl
replay-Tracks config ((false, now) ∷ []) o =
    record_probe-first (replay config []) now (replay-Tracks config [] tt)
replay-Tracks config ((false, now) ∷ (true, before) ∷ probes) o =
    record_probe-first (replay config ((true, before) ∷ probes)) now
      (replay-Tracks config ((true, before) ∷ probes) o.1)
replay-Tracks config ((false, now) ∷ (false, before) ∷ probes) o =
    record_probe-next (replay config ((false, before) ∷ probes)) now before (streak probes) o.0
      (replay-Tracks config ((false, before) ∷ probes) o.1)

config-replay :
    (config : OutageDetectorConfig) (probes : List (Bool × ℤ))
    → (replay config probes).config ≡ config
unfolding replay record_probe new_detector
config-replay config [] = refl
config-replay config ((true, now) ∷ probes) = config-replay config probes
config-replay config ((false, now) ∷ probes) = config-replay config probes

confirmed_lost-Tracks :
    (d : CoordinatorOutageDetector) (ts : List ℤ)
    → pos 0 <ℤ d.config.failed_probes_to_confirm
    → Tracks d ts
    → confirmed_lost d ≡ is_loss d.config ts
unfolding confirmed_lost
confirmed_lost-Tracks d [] h k = ground arith
confirmed_lost-Tracks d (t ∷ ts) h k = rw (k.0, k.1, k.2)

reachable-replay :
    (config : OutageDetectorConfig) (probes : List (Bool × ℤ))
    → reachable (replay config probes) ≡ (elim probes [ [] ↦ false | p ∷ ps ↦ p.0 ])
unfolding reachable replay new_detector record_probe
reachable-replay config [] = refl
reachable-replay config ((true, now) ∷ probes) = refl
reachable-replay config ((false, now) ∷ probes) = ground arith

-- With at least one failed probe required and a clock that does not go back, loss is confirmed
-- exactly when the failures since the last answer reach the required number and span the minimum
-- time; and the coordinator is reachable exactly when the latest probe was answered.
pub confirmed_lost-streak :
    (config : OutageDetectorConfig) (probes : List (Bool × ℤ))
    → pos 0 <ℤ config.failed_probes_to_confirm
    → Ordered probes
    → (confirmed_lost (replay config probes) ≡ is_loss config (streak probes))
      × (reachable (replay config probes) ≡ (elim probes [ [] ↦ false | p ∷ ps ↦ p.0 ]))
confirmed_lost-streak config probes h o = (
  confirmed_lost-Tracks (replay config probes) (streak probes) (rw (config-replay config probes) h)
        (replay-Tracks config probes o)
      ∙ ap (λ c. is_loss c (streak probes)) (config-replay config probes),
  reachable-replay config probes,
)
