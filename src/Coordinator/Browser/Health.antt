-- ===== src/Coordinator/Browser/Health.antt =====
-- The class BrowserWorkerHealthCircuit of src/browser/worker/health-circuit.ts. What the client of
-- the worker answers is an argument; the gauge that is exported is left out.
use crash.Prelude.{ℕ, suc, ◌+◌, Bool, true, false, ltb, leb, if◌then◌else◌}

pub record HealthCircuit : Type 0 where
  pub failures : ℕ
  pub open_until : ℕ
  pub threshold : ℕ
  pub cool_down_ms : ℕ

-- There is no client, or its `health` answers, or throws.
pub data Health : Type 0 where
  no_client healthy unhealthy failed : Health

abbrev pub create : ℕ → ℕ → HealthCircuit
create threshold cool_down_ms = record {
  failures = 0;
  open_until = 0;
  threshold = threshold;
  cool_down_ms = cool_down_ms;
}

unfoldable pub is_open : ℕ → HealthCircuit → Bool
is_open now c = ltb now c.open_until

count_failure : ℕ → HealthCircuit → HealthCircuit
count_failure now c =
    let c' = record c { failures = suc c.failures } in
    if leb c'.threshold c'.failures then record c' { open_until = now + c'.cool_down_ms } else c'

unfoldable pub probe : Health → ℕ → HealthCircuit → HealthCircuit × Bool
unfolding count_failure
probe no_client now c = (c, false)
probe healthy now c = (record c { failures = 0; open_until = 0 }, true)
probe unhealthy now c = (count_failure now c, false)
probe failed now c = (count_failure now c, false)
