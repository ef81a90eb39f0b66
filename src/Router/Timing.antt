-- ===== src/Router/Timing.antt =====
-- The two intervals that `VirtualRouter::new` (src/router.rs) computes in f32.
use failover.Base.{ℕ, ◌+◌, ◌-◌, ◌*◌, ◌/◌, ◌^◌, ◌≤◌, ◌<◌, ◌≡◌, ap, arith}
use mathlib.Core.Path.{ap₂}
use failover.Version.{VrrpVersion, v2, v3}
use failover.Router.{VirtualRouterParams, skew_time_of, new}

-- The skew in 1/256 s: 256 - priority, times the advertisement interval in version 3.
abbrev pub skew : VrrpVersion → ℕ → ℕ → ℕ
skew v2 priority interval = 256 - priority
skew v3 priority interval = (256 - priority) * interval

-- With `d` for 256 - priority: what is scaled by 256 twice and divided by it twice.
scaled : (d i : ℕ) → d * 256 * (i * 256) / 256 * 256 / (256 * 256) ≡ d * i
scaled d i = omega arith

skew_time_lem : (v : VrrpVersion) (p i : ℕ) → skew_time_of v p i ≡ skew v p i
unfolding skew_time_of
skew_time_lem v2 p i = omega arith
skew_time_lem v3 p i =
    let e : 256 * 256 - p * 256 ≡ (256 - p) * 256 = omega arith in rw e (scaled (256 - p) i)

skew-le : (v : VrrpVersion) (p i : ℕ) → i < 256 → skew v p i ≤ 256 * 256
skew-le v2 p i h = omega arith
skew-le v3 p i h = grind arith

-- For an interval below 256 s, a new router's skew time is (256 - priority) / 256 s, times the
-- interval in version 3, its Master_Down_Interval is three intervals and the skew, exactly in
-- units of 1/256 s, and that is below 2 ^ 24 units, so that an f32 holds it exactly.
pub new-intervals :
    (params : VirtualRouterParams)
    → params.advert_interval < 256
    → let s = skew params.version params.priority params.advert_interval in
      ((new params).skew_time ≡ s)
      × ((new params).master_down_interval ≡ 3 * 256 * params.advert_interval + s)
      × ((new params).master_down_interval < 2 ^ 24)
unfolding new
new-intervals params h =
    let e = skew_time_lem params.version params.priority params.advert_interval in
    let l = skew-le params.version params.priority params.advert_interval h in
    (e, omega (arith, e), omega (arith, e, l))

intervals_lem :
    (params : VirtualRouterParams)
    → (new params).master_down_interval
      ≡ 768 * params.advert_interval + skew params.version params.priority params.advert_interval
unfolding new
intervals_lem params =
    omega (arith, skew_time_lem params.version params.priority params.advert_interval)

skew_falls : (v : VrrpVersion) (p q i : ℕ) → 0 < i → p < q → q < 256 → skew v q i < skew v p i
skew_falls v2 p q i positive higher fits = omega arith
skew_falls v3 p q i positive higher fits =
    let e : 256 - p ≡ (256 - q) + (q - p) = omega arith in
    let one : 1 ≤ q - p = omega arith in rw e (grind arith)

-- Of two routers with the same version and interval, not zero, and different priorities below
-- 256, the one of the higher priority has the shorter Master_Down_Interval.
pub higher_priority_first :
    (a b : VirtualRouterParams)
    → a.version ≡ b.version
    → a.advert_interval ≡ b.advert_interval
    → 0 < a.advert_interval
    → a.priority < b.priority
    → b.priority < 256
    → (new b).master_down_interval < (new a).master_down_interval
higher_priority_first a b same_version same_interval positive higher fits = omega (
  arith,
  intervals_lem a,
  intervals_lem b,
  ap (λ (i : ℕ). 768 * i) same_interval,
  skew_falls a.version a.priority b.priority a.advert_interval positive higher fits,
  ap₂ (λ v i. skew v b.priority i) same_version same_interval,
)
