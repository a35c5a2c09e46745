-- ===== src/Notifications.antt =====
-- The notifications of a user (apps/api/src/notifications/notifications.service.ts).
pub mod Reading
use abyte_tex.Base.{ℕ, Bool, true, false, Option, none, some, List, ◌&&◌, ◌==◌, not, if◌then◌else◌}
use abyte_tex.Http.{not_found}
use abyte_tex.Context.{TenantRequestContext}
use abyte_tex.Schema.{Notification, NotificationType, NotificationChannel}
use abyte_tex.Database.{Prisma, Action, ◌>>=◌, ◌>>◌, pure, or_throw, notifications}
use abyte_tex.Database.Raw
use abyte_tex.Pagination.{PaginationQueryDto, PaginationMeta, build_pagination_meta, page_of}

pub record CreateNotificationInput : Type 0 where
  pub user_id : ℕ
  pub type : NotificationType
  pub title : ℕ
  pub message : ℕ
  pub reference_type : Option ℕ
  pub reference_id : Option ℕ

pub record ListNotificationsQueryDto : Type 0 where
  pub pagination : PaginationQueryDto
  -- `query.unreadOnly === 'true'`
  pub unread_only : Bool

pub record NotificationPage : Type 0 where
  pub data_ : List Notification
  pub meta : PaginationMeta

-- `ctx?.tenantId ?? null`
abbrev pub tenant_of : Option TenantRequestContext → Option ℕ
tenant_of none = none
tenant_of (some ctx) = ctx.tenant_id

abbrev pub listed : ℕ → ListNotificationsQueryDto → Notification → Bool
listed user_id query n =
    (n.user_id == user_id) && (if query.unread_only then not n.is_read else true)

abbrev pub is_unread : ℕ → Notification → Bool
is_unread user_id n = (n.user_id == user_id) && not n.is_read

abbrev pub mark : ℕ → Notification → Notification
mark now n = record n { is_read = true; read_at = some now }

module _ ⦃P : Prisma⦄ where
  -- The identifier and the time of a new row are the database's.
  unfoldable pub notify :
      Option TenantRequestContext → ℕ → CreateNotificationInput → Action Notification
  notify ctx now input = Raw.create notifications (λ i. record {
    id = i;
    tenant_id = tenant_of ctx;
    user_id = input.user_id;
    type = input.type;
    channel = NotificationChannel.in_app;
    title = input.title;
    message = input.message;
    is_read = false;
    read_at = none;
    reference_type = input.reference_type;
    reference_id = input.reference_id;
    created_at = now;
  })

  unfoldable pub list_for_user : ℕ → ListNotificationsQueryDto → Action NotificationPage
  list_for_user user_id query = do
    rows ← Raw.find_latest notifications (λ n. n.created_at) (listed user_id query)
    total ← Raw.count notifications (listed user_id query)
    pure (record {
      data_ = page_of query.pagination rows;
      meta = build_pagination_meta total query.pagination.page query.pagination.page_size;
    })

  unfoldable pub mark_read : ℕ → ℕ → ℕ → Action Notification
  mark_read now user_id id = do
    found ← Raw.find_first notifications (λ n. (n.id == id) && (n.user_id == user_id))
    or_throw found not_found
    Raw.update notifications (λ n. n.id == id) (mark now)

  unfoldable pub mark_all_read : ℕ → ℕ → Action (Unit {0})
  mark_all_read now user_id = Raw.update_many notifications (is_unread user_id) (mark now)
