-- ===== src/Tests/NotificationRuns.antt =====
-- The properties of notifications on the sample.
use abyte_tex.Base.{◌≡◌, refl, true, false, none, some, [], ◌∷◌, filter, not, ◌==◌}
use abyte_tex.Http.{ok}
use abyte_tex.Schema
use abyte_tex.Schema.{Notification}
use abyte_tex.Database.{Db}
use abyte_tex.Notifications.{list_for_user, mark_read, mark_all_read}
use abyte_tex.Pagination.{build_pagination_meta}
use abyte_tex.Notifications.Reading.{mark_all_read_lem, mark_read-others}
use abyte_tex.Tests.{list_prisma}
use abyte_tex.Tests.Samples.{sample, sample_site}

abbrev notice : Notification
notice = record {
  id = 90;
  tenant_id = some 1;
  user_id = 8;
  type = Schema.NotificationType.low_stock;
  channel = Schema.NotificationChannel.in_app;
  title = 1;
  message = 2;
  is_read = false;
  read_at = none;
  reference_type = none;
  reference_id = none;
  created_at = 50;
}

abbrev read : Notification
read = record notice { id = 91; is_read = true; read_at = some 60 }

abbrev another : Notification
another = record notice { id = 92; user_id = 9 }

abbrev before : Db
before = record sample {
  site = record sample_site { notifications = notice ∷ read ∷ another ∷ [] };
}

abbrev after : Db
after = record sample {
  site = record sample_site {
    notifications = record notice { is_read = true; read_at = some 70 } ∷ read ∷ another ∷ [];
  };
}

-- User 8 marks everything as read at 70, and once more at 80.
mark_all_read_lem_example :
    (list_for_user 8
        (record { pagination = record { page = 1; page_size = 25 }; unread_only = true })
        after
      ≡ (
        ok (record {
          data_ = [];
          meta = record { page = 1; page_size = 25; total = 0; total_pages = 1 };
        }),
        after,
      ))
    × (mark_all_read 80 8 after ≡ (ok tt, after))
    × (another ∷ [] ≡ another ∷ [])
unfolding mark_all_read build_pagination_meta
mark_all_read_lem_example = mark_all_read_lem 70 8 before 80 (record { page = 1; page_size = 25 })

-- User 8 asks to mark a notification of user 9.
mark_read-others_example :
    filter (λ n. not (n.user_id == 8)) (mark_read 70 8 92 before).1.site.notifications
    ≡ another ∷ []
mark_read-others_example = mark_read-others 70 8 92 before (refl, (refl, (refl, tt)))
