-- ===== src/Tests/AccessRuns.antt =====
-- The properties of users, sessions and permissions on the sample.
use abyte_tex.Base.{ℕ, ◌==◌, ◌≡◌, refl, true, false, some, none, [], ◌∷◌, All, map, arith, flat_map}
use abyte_tex.Http.{ok, err, unauthorized}
use abyte_tex.Rbac
use abyte_tex.Schema.{UserStatus, User, TenantStatus}
use abyte_tex.TenantScope
use abyte_tex.TenantScope.{Args, Fields, all_operations}
use abyte_tex.TenantScope.Isolation.{
  lookup, matches, all_operations-matches, inject_tenant_id-written,
}
use abyte_tex.Auth.Libraries.{TokenType}
use abyte_tex.Auth.Strategy.{authenticated_user}
use abyte_tex.Auth.{
  create_refresh_token, issue_tokens, rotate, refresh, logout, login, reset_password,
}
use abyte_tex.Auth.Replay.{Steps, Step, refresh_twice}
use abyte_tex.Auth.Sessions.{issued_tokens, session, login-refresh}
use abyte_tex.Auth.Passwords.{ended, IsOver, reset_password_lem}
use abyte_tex.Pagination.{build_pagination_meta}
use abyte_tex.Pagination.Pages.{pages, pages-total_pages}
use abyte_tex.Guards.{authorize}
use abyte_tex.Guards.Permissions.{authorize_lem, role_grants}
use abyte_tex.Roles.{on_module_init, seed_tenant_roles, seed_roles, create_many}
use abyte_tex.Roles.Backfill.{has, on_module_init_lem}
use abyte_tex.Users.{
  UpdateUserDto, update_user, check_update, store_user, end_sessions, finish_update, get_user_by_id,
}
use abyte_tex.Users.Deactivation.{update_user-refresh}
use abyte_tex.Database.{for_each}
use abyte_tex.Tenants.{
  CreateTenantDto, create_tenant, store_tenant, provision, set_up, appoint, create_owner,
  create_link, finish,
}
use abyte_tex.Tenants.Provisioning.{create_tenant-role_grants}
use abyte_tex.Tests.{list_prisma, list_first}
use abyte_tex.Tests.AccessSamples.{plain_crypto, plain_jwt, seller, session_token, reset_link}
use abyte_tex.Tests.Samples.{request, sample}

-- The token of user 8, on a route that wants what the role of the user grants.
authorize_lem_example :
    authorize
      (record {
        is_public = false;
        required = some (Rbac.Resource.sales_order, Rbac.Action.create);
      })
      16
      sample
    ≡ (ok (some (authenticated_user seller sample)), sample)
unfolding list_first
authorize_lem_example =
    authorize_lem 16 (record { sub = 8; token_type = TokenType.access })
      (Rbac.Resource.sales_order, Rbac.Action.create) sample seller refl refl

-- Role 60 gets the permission to create customers back.
on_module_init_lem_example :
    ((on_module_init sample).0 ≡ ok tt)
    × (has
          (record { role_id = 60; grants = (Rbac.Resource.customer, Rbac.Action.create) })
          (on_module_init sample).1.access.permissions
        ≡ true)
unfolding Rbac.tenant_role_codes Rbac.default_role_permissions flat_map
on_module_init_lem_example =
    on_module_init_lem
      (record { role_id = 60; grants = (Rbac.Resource.customer, Rbac.Action.create) }) sample

refresh_twice_example :
    refresh 200 33 (logout request 101 (refresh 100 33 sample).1).1
    ≡ (err unauthorized, (logout request 101 (refresh 100 33 sample).1).1)
unfolding refresh rotate issue_tokens create_refresh_token list_first
refresh_twice_example =
    refresh_twice 100 200 33 sample (refresh 100 33 sample).1
      (logout request 101 (refresh 100 33 sample).1).1
      (8, record { access_token = 16; refresh_token = 101; refresh_token_expires_at = 2592000100 })
      (refl, tt) refl (Steps.next (Step.logout_step request 101) Steps.done)

login-refresh_example :
    (login 100 40 70 sample
      ≡ (ok (seller, issued_tokens 100 seller sample 101), session 100 seller sample))
    × (plain_jwt.verify 16 ≡ some (record { sub = 8; token_type = TokenType.access }))
    × ((refresh 200 102 (session 100 seller sample)).0
        ≡ ok (
          8,
          record { access_token = 16; refresh_token = 104; refresh_token_expires_at = 2592000200 },
        ))
unfolding list_first
login-refresh_example =
    login-refresh 100 seller sample refl refl 200 (omega arith) refl 40 70 refl refl refl refl

reset_password_lem_example :
    (reset_password 100 44 71 sample ≡ (ok tt, ended 100 44 71 sample reset_link seller))
    × All
        (IsOver 100 44 71 sample reset_link seller)
        (ended 100 44 71 sample reset_link seller).access.refresh_tokens
    × ((71 == 71) ≡ true)
unfolding list_first
reset_password_lem_example = reset_password_lem 100 44 71 sample reset_link seller refl refl refl

abbrev locking : UpdateUserDto
locking = record { status = some UserStatus.locked; role_ids = none; factory_ids = none }

-- User 8 is locked, and its refresh token is presented.
update_user-refresh_example :
    refresh 200 33 (update_user request 8 locking sample).1
    ≡ (err unauthorized, (update_user request 8 locking sample).1)
unfolding update_user check_update store_user end_sessions finish_update get_user_by_id list_first
update_user-refresh_example =
    update_user-refresh request 8 locking refl 200 33 sample
      (update_user request 8 locking sample).1 (record seller { status = UserStatus.locked })
      (record session_token { revoked_at = some 100 }) refl refl refl

-- A filter that names tenant 2, in a request of tenant 1, on a row of tenant 2 with field 3.
abbrev foreign : Args
foreign = record {
  where_ = some ((0, 2) ∷ (3, 5) ∷ []);
  data_ = TenantScope.no_data;
  create_ = none;
  update_ = none;
}

all_operations-matches_example :
    (sent : Args) × (all_operations TenantScope.Model.stock TenantScope.Operation.find_many foreign
        (some request)
      ≡ ok sent)
    × (matches (TenantScope.or_empty sent.where_) ((0, 2) ∷ (3, 5) ∷ []) ≡ false)
unfolding lookup TenantScope.is_scoped_model TenantScope.scopes_where
all_operations-matches_example =
    all_operations-matches TenantScope.Model.stock TenantScope.Operation.find_many foreign request 1
      ((0, 2) ∷ (3, 5) ∷ []) refl refl refl

inject_tenant_id-written_example :
    map (lookup 0) (
      TenantScope.Isolation.written TenantScope.Operation.create (
        TenantScope.inject_tenant_id TenantScope.Operation.create
          (record foreign { data_ = TenantScope.one ((0, 2) ∷ []) })
          1))
    ≡ some 1 ∷ []
inject_tenant_id-written_example =
    inject_tenant_id-written TenantScope.Operation.create
      (record foreign { data_ = TenantScope.one ((0, 2) ∷ []) }) 1 0

pages-total_pages_example :
    pages {A = ℕ} (build_pagination_meta 3 1 2).total_pages 2 (7 ∷ 8 ∷ 9 ∷ []) ≡ 7 ∷ 8 ∷ 9 ∷ []
pages-total_pages_example = pages-total_pages (7 ∷ 8 ∷ 9 ∷ []) 1 2 (omega arith)

abbrev new_tenant : CreateTenantDto
new_tenant = record { company_name = 5; slug = 6; owner_email = 7 }

abbrev new_owner : User
new_owner = record {
  id = 118;
  tenant_id = some 101;
  email = 7;
  password_hash = 117;
  status = UserStatus.invited;
  is_platform_admin = false;
  last_login_at = none;
  deleted_at = none;
}

-- The owner of tenant 101 may change it.
create_tenant-role_grants_example :
    role_grants
      (create_tenant request new_tenant sample).1
      118
      (Rbac.Resource.tenant, Rbac.Action.update)
    ≡ true
unfolding list_first create_tenant store_tenant provision set_up appoint create_owner create_link
    finish seed_tenant_roles seed_roles create_many for_each Rbac.tenant_role_codes
    Rbac.default_role_permissions flat_map
create_tenant-role_grants_example =
    create_tenant-role_grants request new_tenant sample
      (record { id = 101; name = 5; slug = 6; status = TenantStatus.trial }, new_owner, 120)
      (create_tenant request new_tenant sample).1 (Rbac.Resource.tenant, Rbac.Action.update) refl
