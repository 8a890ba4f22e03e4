-- ===== src/Tests/ApiToken.antt =====
-- Examples on a request to the API.
use klappstuhl_me.Prelude.{refl, true, some}
use klappstuhl_me.Text.{codes}
use klappstuhl_me.Scope.{links_write}
use klappstuhl_me.ApiToken.{authorize}
use klappstuhl_me.ApiToken.Laws.{Authorized, authorize-Authorized}
use klappstuhl_me.Tests.Site.{toy_site, dora, quiet, quiet-Coherent}

authorize-Authorized_example :
    Authorized toy_site 120 links_write (some (codes "KEY  d2")) dora quiet.store
unfolding authorize klappstuhl_me.Sessions.is_session_valid klappstuhl_me.Sessions.is_expired
    klappstuhl_me.Sessions.get_account
authorize-Authorized_example =
    authorize-Authorized toy_site true true 120 links_write (some (codes "KEY  d2")) quiet.store
      dora quiet-Coherent refl
