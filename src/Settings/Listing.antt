-- ===== src/Settings/Listing.antt =====
-- internal/settings/handler.go, `list`: what the settings page shows.
use apisix_developer_portal.Common.{
  String, Bool, true, false, none, some, List, [], ◌∷◌, ◌≡◌, refl, ap, Memᴰ, if◌then◌else◌, not,
  str_eq, Bool-cases, inl, inr,
}
use mathlib.Core.List.Memᴰ.{head, tail}
use apisix_developer_portal.Effects.{ok, Run, pure, step, ◌>>=◌}
use apisix_developer_portal.Httpx.Respond.{json}
use apisix_developer_portal.Settings.Snapshot.{Effective, is_set}
use apisix_developer_portal.Settings.Registry.{Def, registry}
use apisix_developer_portal.Settings.Service.{Service, snapshot}
use apisix_developer_portal.Settings.Handler.{GroupView, item_view, add_items, list}

-- Two configurations that differ in the values of secrets at most, which are empty in both or none,
-- and whose values have the same sources.
pub record SamePublic (e e' : Effective) : Type 0 where
  pub open_values :
      (d : Def) → Memᴰ d registry → d.secret ≡ false → e.values d.key ≡ e'.values d.key
  pub set_alike : (d : Def) → Memᴰ d registry → d.secret ≡ true → is_set d.key e ≡ is_set d.key e'
  pub sources : (d : Def) → Memᴰ d registry → e.source d.key ≡ e'.source d.key

pub record SameDefaults (svc svc' : Service) : Type 0 where
  pub open_defaults :
      (d : Def) → Memᴰ d registry → d.secret ≡ false → svc.env d.key ≡ svc'.env d.key

shown-same :
    {x y : String} (hidden : Bool)
    → (hidden ≡ false → x ≡ y)
    → (if hidden then none else some x) ≡ (if hidden then none else some y)
shown-same true eq = refl
shown-same false eq = ap some (eq refl)

module _ (svc svc' : Service) (e e' : Effective) (defaults : SameDefaults svc svc')
    (same : SamePublic e e') where
  set-same : (d : Def) → Memᴰ d registry → is_set d.key e ≡ is_set d.key e'
  set-same d there = elim (Bool-cases d.secret) [
    | inl secret ↦ same.set_alike d there secret
    | inr shown ↦ ap (λ v. not (str_eq v "")) (same.open_values d there shown)
  ]

  item_view-same : (d : Def) → Memᴰ d registry → item_view svc e d ≡ item_view svc' e' d
  unfolding item_view
  item_view-same d there = λ i. record {
    key = d.key;
    field_type = d.field_type;
    editable = d.editable;
    secret = d.secret;
    value = shown-same d.secret (same.open_values d there) i;
    set = set-same d there i;
    source = same.sources d there i;
    env_default = shown-same d.secret (defaults.open_defaults d there) i;
  }

  add_items-same :
      (defs : List Def) (groups : List GroupView)
      → ((d : Def) → Memᴰ d defs → Memᴰ d registry)
      → add_items svc e defs groups ≡ add_items svc' e' defs groups
  unfolding add_items
  add_items-same [] groups known = refl
  add_items-same (d ∷ defs) groups known =
      let item = item_view-same d (known d (head refl)) in
      rw item (add_items-same defs _ (λ x m. known x (tail m)))

-- Whatever calls fail, two portals answer the request for the settings alike if the values and
-- defaults of parameters that are not secret agree, each secret is set in both or in neither, and
-- the value of each parameter, secret or not, has the same source in both.
pub list_hides_secrets :
    (svc svc' : Service) (r r' : Run)
    → SameDefaults svc svc'
    → SamePublic r.state.snapshot r'.state.snapshot
    → (list svc r).0 ≡ (list svc' r').0
unfolding list snapshot step pure ◌>>=◌
list_hides_secrets svc svc' r r' defaults same =
    ap (λ groups. ok (json 200 groups))
      (add_items-same svc svc' r.state.snapshot r'.state.snapshot defaults same registry []
        (λ d m. m))
