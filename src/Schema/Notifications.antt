-- ===== src/Schema/Notifications.antt =====
-- The notifications (prisma/schema.prisma).
use abyte_tex.Base.{ℕ, Bool, Option}

pub data NotificationType : Type 0 where
  low_stock production_delay machine_breakdown maintenance_due : NotificationType
  quality_rejection pending_approval order_deadline attendance_alert general : NotificationType

pub data NotificationChannel : Type 0 where
  in_app email : NotificationChannel

pub record Notification : Type 0 where
  pub id : ℕ
  pub tenant_id : Option ℕ
  pub user_id : ℕ
  pub type : NotificationType
  pub channel : NotificationChannel
  pub title : ℕ
  pub message : ℕ
  pub is_read : Bool
  pub read_at : Option ℕ
  pub reference_type : Option ℕ
  pub reference_id : Option ℕ
  pub created_at : ℕ
