-- ===== src/Tests/Applications.antt =====
-- A member of a team creates an application.
use mathlib.Core.List.Memᴰ.{head}
use apisix_developer_portal.Common.{true, some, [], Memᴰ, ◌⊎◌, ◌≡◌, refl}
use apisix_developer_portal.Common.Texts.{trim}
use apisix_developer_portal.Db.{ApplicationRow}
use apisix_developer_portal.Effects.{Run, ok, pure, try, step, call, ◌>>=◌}
use apisix_developer_portal.Httpx.Respond.{json}
use apisix_developer_portal.Httpx.Guards.{guarded}
use apisix_developer_portal.Subscriptions.Service.{log}
use apisix_developer_portal.Teams.{role}
use apisix_developer_portal.Applications.{
  application, created_view, create_application, default_team, chosen_team, team_of, logged,
  create_in, CreateBody, create_named, create,
}
use apisix_developer_portal.Applications.Housing.{create-IsIn}
use apisix_developer_portal.Applications.Membership.{IsIn}
use apisix_developer_portal.Tests.{opening}

abbrev at_opening : Run
at_opening = record { state = opening; faults = [] }

abbrev body : CreateBody
body = record { name = "till"; description = ""; team_id = 4 }

abbrev till : ApplicationRow
till = record {
  id = 2;
  owner_id = 2;
  name = "till";
  description = "";
  created_at = opening.db.now;
  team_id = 4;
  oidc_client_id = "";
}

answered :
    (create true 2 (some body) at_opening).0 ≡ ok (json 201 (application (created_view till)))
unfolding create create_named team_of role create_in create_application logged log default_team
    chosen_team guarded call step try pure ◌>>=◌ trim
answered = refl

create-IsIn_example :
    Memᴰ till opening.db.applications
    ⊎ IsIn 2 4 (create true 2 (some body) at_opening).1.state.db.members
unfolding create create_named team_of role create_in create_application logged log default_team
    chosen_team guarded call step try pure ◌>>=◌ trim
create-IsIn_example = create-IsIn true 2 (some body) at_opening till (head refl)
