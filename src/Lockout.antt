-- ===== src/Lockout.antt =====
-- src/site/account/lockout.rs: failed logins counted per address. Time is in seconds; the table is
-- the cache that the source keeps in process memory.
pub mod Laws
use klappstuhl_me.Prelude.{
  ℕ, ◌+◌, ◌-◌, ◌*◌, ◌^◌, min, Bool, true, false, ◌&&◌, Option, none, some, if◌then◌else◌, ltb, leb,
  List, [], ◌∷◌,
}
use klappstuhl_me.Cache.{Cache}

abbrev pub threshold : ℕ
threshold = 8

abbrev pub window : ℕ
window = 600

abbrev pub max_u32 : ℕ
max_u32 = 2 ^ 32 - 1

pub record AttemptWindow : Type 0 where
  pub count : ℕ
  pub started : ℕ

-- Inside a live window the count grows, and stays at the largest `u32`; else a window starts.
abbrev pub next_window : ℕ → Option AttemptWindow → AttemptWindow
next_window now none = record { count = 1; started = now }
next_window now (some w) =
    if ltb (now - w.started) window
    then record { count = min (w.count + 1) max_u32; started = w.started }
    else record { count = 1; started = now }

abbrev pub locks : ℕ → Option AttemptWindow → Bool
locks now none = false
locks now (some w) = ltb (now - w.started) window && leb threshold w.count

module _ {K : Type 0} (cache : Cache K AttemptWindow) where
  unfoldable pub register_failure : ℕ → K → cache.Table → cache.Table
  register_failure now ip t = cache.insert ip (next_window now (cache.get ip t)) t

  unfoldable pub is_locked : ℕ → K → cache.Table → Bool
  is_locked now ip t = locks now (cache.get ip t)

  -- Failures of one address at the given times.
  unfoldable pub register_all : K → List ℕ → cache.Table → cache.Table
  register_all ip [] t = t
  register_all ip (now ∷ later) t = register_all ip later (register_failure now ip t)
