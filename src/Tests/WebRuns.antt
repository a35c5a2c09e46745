-- ===== src/Tests/WebRuns.antt =====
-- The properties of the web client on the sample.
use abyte_tex.Base.{
  ℕ, ◌+◌, ◌-◌, ◌==◌, ◌≡◌, refl, true, false, Option, none, some, [], ◌∷◌, ◌&&◌, if◌then◌else◌,
  arith,
}
use abyte_tex.Http.{ok}
use abyte_tex.Rbac
use abyte_tex.Auth.Libraries.{Jwt, JwtAccessPayload}
use abyte_tex.Auth.Strategy.{AuthenticatedUser}
use abyte_tex.Guards
use abyte_tex.Guards.{Route}
use abyte_tex.Database.{Action}
use abyte_tex.Web.{
  Request, Fetch, Page, AuthState, AuthStatus, Reply, payload, reply, set_access_token, api_fetch,
  resource, set_session, initial, can, has_permission,
}
use abyte_tex.Web.Requests.{Ends, api_fetch-Ends}
use abyte_tex.Web.Navigation
use abyte_tex.Web.Navigation.{
  is_visible_lem, permission_gate, is_visible, is_authenticated, is_rendered, guards_pass, view_of,
  Reached,
}
use abyte_tex.Web.Api.{Backend, serve}
use abyte_tex.Web.Api.Renewal.{renewed, api_fetch-renewed}
use abyte_tex.Tests.{list_prisma, list_first}
use abyte_tex.Tests.AccessSamples.{
  plain_crypto, seller, session_token, sign_plain, verify_plain, verify-sign_plain,
}
use abyte_tex.Tests.Samples.{sample}

abbrev verify_later : ℕ → Option JwtAccessPayload
verify_later n = if n == 0 then none else verify_plain (n - 1)

verify-sign_later : (p : JwtAccessPayload) → verify_later (sign_plain p + 1) ≡ some p
verify-sign_later p = ground (arith, verify-sign_plain p)

-- Token 0 has expired.
instance abbrev expiring_jwt : Jwt
expiring_jwt = record {
  sign = λ p. sign_plain p + 1;
  verify = verify_later;
  verify-sign = verify-sign_later;
}

abbrev signed_in : AuthState
signed_in = record { status = AuthStatus.authenticated; access_token = some 0; session = none }

abbrev orders : Request
orders = record { path = resource 5; body = none }

abbrev routes : ℕ → Route
routes p = record {
  is_public = false;
  required = some (Rbac.Resource.sales_order, Rbac.Action.create);
}

abbrev handlers : ℕ → Option AuthenticatedUser → Action ℕ
handlers p user db = (ok p, db)

abbrev to_zero : Option AuthenticatedUser → ℕ
to_zero user = 0

abbrev absent : Fetch → Backend → Reply × Backend
absent f backend = (reply 404 none, backend)

-- A server that answers every fetch with a 401.
abbrev refuse : Fetch → ℕ → Reply × ℕ
refuse f s = (reply 401 none, s + 1)

abbrev refused_page : Page ℕ
refused_page = record { store = signed_in; server = 0; traffic = [] }

api_fetch-Ends_example : Ends refused_page (api_fetch refuse 2 false orders refused_page)
api_fetch-Ends_example = api_fetch-Ends refuse 0 false orders refused_page

-- May view the stock and suppliers, but for an exception on suppliers.
abbrev clerk : AuthenticatedUser
clerk = record {
  user_id = 8;
  tenant_id = some 1;
  is_platform_admin = false;
  role_codes = [];
  allow = (Rbac.Resource.stock, Rbac.Action.view) ∷ (Rbac.Resource.supplier, Rbac.Action.view) ∷ [];
  deny = (Rbac.Resource.supplier, Rbac.Action.view) ∷ [];
  factory_ids = [];
}

-- The page of the stock is rendered, and the item of the suppliers is not in the sidebar.
is_visible_lem_example :
    (true
      ≡ is_authenticated (set_session 0 clerk initial)
        && guards_pass
            (set_session 0 clerk initial)
            (some (Rbac.Resource.stock, Rbac.Action.view))
            false)
    × (is_visible
          (set_session 0 clerk initial)
          (view_of Navigation.suppliers Rbac.Resource.supplier)
        ≡ false)
unfolding Guards.can_activate is_rendered permission_gate can has_permission
is_visible_lem_example =
    is_visible_lem (set_session 0 clerk initial)
      (view_of Navigation.suppliers Rbac.Resource.supplier)
      (some (Rbac.Resource.stock, Rbac.Action.view)) false
      (Reached.session_set 0 clerk Reached.initial_store)

api_fetch-renewed_example :
    let r = api_fetch (serve 100 routes handlers to_zero absent) 2 false orders (record {
      store = set_access_token 0 signed_in;
      server = record { db = sample; cookie = some 33 };
      traffic = [];
    }) in
    (r.0 ≡ some (payload (some 5)))
    × (r.1.store ≡ set_access_token 17 signed_in)
    × (r.1.server ≡ record { db = renewed 100 session_token sample; cookie = some 101 })
unfolding list_first
api_fetch-renewed_example =
    api_fetch-renewed 100 session_token sample 33 refl refl (omega arith) refl routes handlers
      to_zero absent 5 (Rbac.Resource.sales_order, Rbac.Action.create) refl seller refl refl refl 0
      5 0 none signed_in [] (renewed 100 session_token sample) refl refl
