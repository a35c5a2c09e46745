-- ===== src/Database/SiteTables.antt =====
-- The tables of departments, shifts, locations, product categories and
-- notifications (prisma/schema.prisma).
use abyte_tex.Base.{true, false, none, some, ◌==◌}
use abyte_tex.Schema.{Department, Shift, Location, ProductCategory, Notification}
use abyte_tex.Database.Tables.{Table}

abbrev pub departments : Table Department
departments = record {
  rows = λ db. db.site.departments;
  put = λ l db. record db { site = record db.site { departments = l } };
  owned = λ t r. r.tenant_id == t;
}

abbrev pub shifts : Table Shift
shifts = record {
  rows = λ db. db.site.shifts;
  put = λ l db. record db { site = record db.site { shifts = l } };
  owned = λ t r. r.tenant_id == t;
}

abbrev pub locations : Table Location
locations = record {
  rows = λ db. db.site.locations;
  put = λ l db. record db { site = record db.site { locations = l } };
  owned = λ t r. true;
}

abbrev pub product_categories : Table ProductCategory
product_categories = record {
  rows = λ db. db.site.product_categories;
  put = λ l db. record db { site = record db.site { product_categories = l } };
  owned = λ t r. r.tenant_id == t;
}

abbrev pub notifications : Table Notification
notifications = record {
  rows = λ db. db.site.notifications;
  put = λ l db. record db { site = record db.site { notifications = l } };
  owned = λ t r. elim r.tenant_id [ none ↦ false | some o ↦ o == t ];
}
