-- ===== src/Coordinator/Browser.antt =====
-- The product policy of the browser (src/browser/product-policy.ts) and the health circuit of the
-- remote worker (src/browser/worker/health-circuit.ts). The environment is an argument, with the
-- mode that BROWSER_PRODUCT_MODE names once it is trimmed and put in lower case, if it names one.
pub mod Health
use crash.Prelude.{
  String, Bool, true, false, not, ◌||◌, is_blank, if◌then◌else◌, Option, none, some,
}

pub data ProductMode : Type 0 where
  remote local disabled : ProductMode

pub record Environment : Type 0 where
  pub explicit : Option ProductMode
  pub worker_url : Option String
  pub is_production : Bool

-- `process.env.BROWSER_WORKER_URL?.trim()` as a test.
abbrev pub has_worker : Option String → Bool
has_worker none = false
has_worker (some url) = not (is_blank url)

resolve_implicit : Environment → ProductMode
resolve_implicit e =
    if has_worker e.worker_url then remote else if e.is_production then disabled else local

unfoldable pub resolve_browser_product_mode : Environment → ProductMode
unfolding resolve_implicit
resolve_browser_product_mode e = elim e.explicit [ none ↦ resolve_implicit e | some m ↦ m ]

pub data PolicyError : Type 0 where
  disabled_by_policy worker_url_required : PolicyError

assert_mode : ProductMode → Environment → Option PolicyError
assert_mode disabled e = some disabled_by_policy
assert_mode remote e = if not (has_worker e.worker_url) then some worker_url_required else none
assert_mode local e = none

-- What `assertBrowserPolicyForLive` throws, if anything.
unfoldable pub assert_browser_policy_for_live : Environment → Option PolicyError
unfolding assert_mode
assert_browser_policy_for_live e = assert_mode (resolve_browser_product_mode e) e

abbrev pub is_remote : ProductMode → Bool
is_remote remote = true
is_remote _ = false

abbrev pub is_local : ProductMode → Bool
is_local local = true
is_local _ = false

pub record PolicySnapshot : Type 0 where
  pub mode : ProductMode
  pub worker_url : Option String
  pub live_automation_allowed : Bool

unfoldable pub browser_policy_snapshot : Environment → PolicySnapshot
browser_policy_snapshot e =
    let mode = resolve_browser_product_mode e in
    record {
      mode = mode;
      worker_url = if has_worker e.worker_url then e.worker_url else none;
      live_automation_allowed = is_remote mode || is_local mode;
    }
