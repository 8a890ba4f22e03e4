-- ===== src/RateLimit.antt =====
-- src/platform/ratelimit.rs: the GCRA rate limiter. Times and durations are whole ticks since the
-- epoch, and `emission_interval` is exact where `rate` divides `per`, as in every quota of the
-- routes. A time before the epoch counts as the epoch, as in `diff_seconds`.
pub mod Admission
pub mod Headers
use klappstuhl_me.Prelude.{
  ℕ, ◌+◌, ◌-◌, ◌*◌, ◌/◌, max, min, Bool, true, false, Option, none, some, List, [], ◌∷◌,
  if◌then◌else◌, ltb, leb, or_else,
}
use klappstuhl_me.Cache.{Cache}

-- `rate` requests per `per` ticks.
pub record Quota : Type 0 where
  pub rate : ℕ
  pub per : ℕ

pub record RateLimitInfo : Type 0 where
  pub limit : ℕ
  pub remaining : ℕ
  pub ratelimited : Bool
  pub reset_time : ℕ
  pub retry_after : ℕ

abbrev banned : RateLimitInfo
banned = record { limit = 0; remaining = 0; ratelimited = true; reset_time = 0; retry_after = 0 }

abbrev pub emission_interval : Quota → ℕ
emission_interval q = q.per / q.rate

abbrev max_u16 : ℕ
max_u16 = 65535

-- `((diff / emission_interval) + 0.5).floor() as u16` with `diff = now - allow_at`: a negative
-- value becomes 0, and one that does not fit becomes the largest.
pub remaining_at : (interval now allow_at : ℕ) → ℕ
remaining_at interval now allow_at =
    if ltb now allow_at then 0 else min max_u16 ((2 * (now - allow_at) + interval) / (2 * interval))

-- The decision for a key whose stored theoretical arrival time is `tat`, and the new one.
pub record Decision : Type 0 where
  pub new_tat : ℕ
  pub info : RateLimitInfo

unfoldable pub decide : Quota → ℕ → ℕ → Decision
unfolding remaining_at
decide q tat now =
    let interval = emission_interval q in
    let new_tat = max tat now + interval in
    let tau = q.per - interval in
    let allow_at = new_tat - q.per in
    let remaining = remaining_at interval now allow_at in
    let retry_after = if ltb remaining 1 then interval + allow_at - now else 0 in
    record {
      new_tat = new_tat;
      info = record {
        limit = q.rate;
        remaining = remaining;
        ratelimited = ltb now (tat - tau);
        reset_time = now + retry_after;
        retry_after = retry_after;
      };
    }

module _ {K : Type 0} (cache : Cache K ℕ) where
  open cache use {Table, get, insert}

  -- `process`: the key is `none` where the extractor finds none.
  unfoldable pub process : Quota → Option K → ℕ → Table → Table × RateLimitInfo
  process q none now t = (t, banned)
  process q (some key) now t =
      let tat = or_else (get key t) now in
      let d = decide q tat now in (if d.info.ratelimited then t else insert key d.new_tat t, d.info)

  -- `call`: the answer 429, or the inner service's, and whether the inner service ran.
  unfoldable pub call {ℓ} :
      {Response : Type ℓ}
      → Quota
      → Option K
      → ℕ
      → (inner : Response) (too_many : RateLimitInfo → Response) → Table
      → Table × Response × Bool
  unfolding process
  call q key now inner too_many t =
      let (t', info) = process q key now t in
      if info.ratelimited then (t', too_many info, false) else (t', inner, true)

  -- The requests of one key at the given times, and how many of them are admitted.
  pub admitted : Quota → K → List ℕ → Table → ℕ × Table
  unfolding process
  admitted q key [] t = (0, t)
  admitted q key (now ∷ later) t =
      let (t', info) = process q (some key) now t in
      let (n, end) = admitted q key later t' in (if info.ratelimited then n else n + 1, end)
