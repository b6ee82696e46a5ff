-- ===== src/Config/Timeouts.antt =====
-- The timeouts that `Load` returns: the write timeout against the model timeout.
use ai_gateway_monitor.Common.{
  ℕ, ◌*◌, ◌+◌, ◌<◌, ◌==◌, ltb, if◌then◌else◌, ◌-◌, ◌^◌, ◌≡◌, arith, ℤ, pos, negsuc, ◌+ℤ◌, ◌≤ℤ◌,
  ◌<ℤ◌, wrap64, IsInt64, wrap64_exact, ◌⊎◌,
}
use ai_gateway_monitor.Config.{
  second, Config, write_timeout_headroom, min_write, cover_model_timeout,
}

-- The guard's sum is exact unless the model timeout is within 15 s of the largest duration.
abbrev pub LeavesHeadroom : ℤ → Type 0
LeavesHeadroom t = t <ℤ pos (2 ^ 63 - 15_000_000_000)

min_write_exact :
    (cfg : Config)
    → IsInt64 cfg.model_timeout
    → LeavesHeadroom cfg.model_timeout
    → min_write cfg ≡ cfg.model_timeout +ℤ write_timeout_headroom
min_write_exact cfg range room =
    wrap64_exact (cfg.model_timeout +ℤ write_timeout_headroom)
      (sum-IsInt64 cfg.model_timeout range room)
  where
    sum-IsInt64 : (t : ℤ) → IsInt64 t → LeavesHeadroom t → IsInt64 (t +ℤ write_timeout_headroom)
    sum-IsInt64 (pos n) r h = unfold ◌+ℤ◌ in ground arith
    sum-IsInt64 (negsuc n) r h = unfold ◌+ℤ◌ in ground arith

-- What the guard does to a configuration, stated with the exact sum.
pub record Covers (before after : Config) : Type 0 where
  pub disabled_kept : before.http_write_timeout ≤ℤ pos 0 → after ≡ before
  pub never_lowered : before.http_write_timeout ≤ℤ after.http_write_timeout
  pub covered :
      pos 0 <ℤ after.http_write_timeout
      → before.model_timeout +ℤ write_timeout_headroom ≤ℤ after.http_write_timeout
  pub no_more_than_needed :
      (after ≡ before) ⊎ (after.http_write_timeout ≡ before.model_timeout +ℤ write_timeout_headroom)
  pub others_kept : after ≡ record before { http_write_timeout = after.http_write_timeout }

pub cover-Covers :
    (cfg : Config)
    → IsInt64 cfg.model_timeout
    → LeavesHeadroom cfg.model_timeout
    → Covers cfg (cover_model_timeout cfg).0
unfolding cover_model_timeout
cover-Covers cfg range room = record {
  disabled_kept = λ h. ground (arith, min_write_exact cfg range room);
  never_lowered = ground (arith, min_write_exact cfg range room);
  covered = λ h. ground (arith, min_write_exact cfg range room);
  no_more_than_needed = ground (arith, min_write_exact cfg range room);
  others_kept = ground arith;
}

wraps_negative :
    (t : ℤ)
    → IsInt64 t
    → pos (2 ^ 63 - 15_000_000_000) ≤ℤ t
    → wrap64 (t +ℤ write_timeout_headroom) <ℤ pos 0
unfolding wrap64 ◌+ℤ◌
wraps_negative (pos n) r h = ground arith
wraps_negative (negsuc n) r h = ground arith

-- A sum past the largest int64 comes out negative, so the guard sees nothing to raise.
pub min_write_overflow :
    (cfg : Config)
    → IsInt64 cfg.model_timeout
    → pos (2 ^ 63 - 15_000_000_000) ≤ℤ cfg.model_timeout
    → (cover_model_timeout cfg).0 ≡ cfg
unfolding cover_model_timeout
min_write_overflow cfg range large = ground (arith, wraps_negative cfg.model_timeout range large)

-- The guard on whole seconds.
pub cover-seconds :
    (cfg : Config) (n w : ℕ)
    → (n + 15) * 1_000_000_000 < 2 ^ 63
    → cfg.model_timeout ≡ second n
    → cfg.http_write_timeout ≡ second w
    → ((cover_model_timeout cfg).0.model_timeout ≡ second n)
      × ((cover_model_timeout cfg).0.http_write_timeout
          ≡ (if w == 0 then second 0 else if ltb w (n + 15) then second (n + 15) else second w))
unfolding cover_model_timeout
cover-seconds cfg n w fits model write = ground (arith, exact_sum n fits)
  where
    exact_sum :
        (n : ℕ)
        → (n + 15) * 1_000_000_000 < 2 ^ 63
        → wrap64 (second n +ℤ write_timeout_headroom) ≡ second (n + 15)
    exact_sum n fits = unfold wrap64 ◌+ℤ◌ in ground arith
