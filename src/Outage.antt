-- ===== src/Outage.antt =====
-- native/adapters/shared/fallback_outage_detector.h: when the coordinator counts as lost.
pub mod Streak
use showmesh_fpp_plugin.Base.{
  ℕ, suc, ◌+◌, ◌==◌, ltb, ℤ, pos, ltb_ℤ, leb_ℤ, ◌-ℤ◌, Bool, true, false, ◌&&◌, ◌||◌, if◌then◌else◌,
  List, [], ◌∷◌,
}

-- The two members that decide; the probe interval and timeout only pace the caller.
pub record OutageDetectorConfig : Type 0 where
  pub probe_interval_millis : ℤ
  pub probe_timeout_millis : ℤ
  pub failed_probes_to_confirm : ℤ
  pub minimum_loss_millis : ℤ

abbrev pub default_config : OutageDetectorConfig
default_config = record {
  probe_interval_millis = pos 5000;
  probe_timeout_millis = pos 3000;
  failed_probes_to_confirm = pos 3;
  minimum_loss_millis = pos 15000;
}

-- The failures are counted by a number, which is not bounded here as the source's int is.
pub record CoordinatorOutageDetector : Type 0 where
  pub config : OutageDetectorConfig
  pub probed : Bool
  pub consecutive_failures : ℕ
  pub first_failure_at_millis : ℤ
  pub last_failure_at_millis : ℤ

unfoldable pub new_detector : OutageDetectorConfig → CoordinatorOutageDetector
new_detector config = record {
  config = config;
  probed = false;
  consecutive_failures = 0;
  first_failure_at_millis = pos 0;
  last_failure_at_millis = pos 0;
}

unfoldable pub record_probe : CoordinatorOutageDetector → Bool → ℤ → CoordinatorOutageDetector
record_probe d reached now =
    if reached then record d { probed = true; consecutive_failures = 0 } else record d {
      probed = true;
      first_failure_at_millis =
          if (d.consecutive_failures == 0) || ltb_ℤ now d.first_failure_at_millis
          then now
          else d.first_failure_at_millis;
      consecutive_failures = suc d.consecutive_failures;
      last_failure_at_millis = now;
    }

unfoldable pub confirmed_lost : CoordinatorOutageDetector → Bool
confirmed_lost d =
    leb_ℤ d.config.failed_probes_to_confirm (pos d.consecutive_failures)
    && leb_ℤ d.config.minimum_loss_millis (d.last_failure_at_millis -ℤ d.first_failure_at_millis)

unfoldable pub reachable : CoordinatorOutageDetector → Bool
reachable d = d.probed && (d.consecutive_failures == 0)

unfoldable pub first_failure_at : CoordinatorOutageDetector → ℤ
first_failure_at d = if d.consecutive_failures == 0 then pos 0 else d.first_failure_at_millis

-- A history of probes, the newest first: whether each was answered, and when.
unfoldable pub replay : OutageDetectorConfig → List (Bool × ℤ) → CoordinatorOutageDetector
replay config [] = new_detector config
replay config ((reached, now) ∷ probes) = record_probe (replay config probes) reached now
