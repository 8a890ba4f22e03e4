-- ===== src/Paste/Service/Create/Forks.antt =====
-- The title of a fork.
use klappstuhl_me.Prelude.{
  ◌<◌, ◌≡◌, refl, false, not, ◌&&◌, Option, some, [], ◌∷◌, ◌++◌, ltb, length, arith, lt→ltb,
}
use klappstuhl_me.Text.{Text, codes, trim, is_empty, byte_len}
use klappstuhl_me.Paste.Row.{Paste}
use klappstuhl_me.Paste.External.{External}
use klappstuhl_me.Paste.Error.{title_too_long, err}
use klappstuhl_me.Paste.Access.{Creator, is_anonymous}
use klappstuhl_me.Paste.Validate.{max_title_len, normalize_title}
use klappstuhl_me.Paste.Store.{Db}
use klappstuhl_me.Paste.Service.{PasteConfig, Env}
use klappstuhl_me.Paste.Service.Create.{create, fork, prepare, max_bytes_for}

long_title :
    (s : Text)
    → trim s ≡ s
    → max_title_len < length s
    → normalize_title (some s) ≡ err title_too_long
unfolding normalize_title
long_title s trimmed long = rw (trimmed, filled s long, lt→ltb max_title_len (length s) long)
  where
    filled : (s : Text) → max_title_len < length s → is_empty s ≡ false
    filled [] h = absurd (omega (arith, h))
    filled (c ∷ s) h = refl

-- A paste whose own title has more than 112 characters, and no blank at its end, cannot be forked
-- with a body that is not blank and not too large: the title of the fork is eight characters
-- longer, and is refused.
fork-title_too_long :
    (x : External) (config : PasteConfig) (env : Env) (source : Paste) (title plaintext : Text)
    (creator : Creator) (client_ip : Option Text) (d : Db)
    → source.title ≡ some title
    → 112 < length title
    → trim (codes "Fork of " ++ title) ≡ codes "Fork of " ++ title
    → (is_anonymous creator && not config.anonymous) ≡ false
    → is_empty (trim plaintext) ≡ false
    → ltb (max_bytes_for config (is_anonymous creator)) (byte_len plaintext) ≡ false
    → fork x config env source plaintext creator client_ip d ≡ (d, err title_too_long)
unfolding fork create prepare
fork-title_too_long x config env source title plaintext creator client_ip d titled long trimmed
      allowed filled fits =
    rw (
      titled,
      allowed,
      filled,
      fits,
      long_title (codes "Fork of " ++ title) trimmed (omega (arith, long)),
    )
