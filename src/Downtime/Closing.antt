-- ===== src/Downtime/Closing.antt =====
-- What closing a downtime does, and the duration that it records.
use abyte_tex.Base.{
  ℕ, ◌+◌, ◌*◌, ◌-◌, ◌≤◌, ◌<◌, ◌≡◌, true, some, ◌∷◌, ◌==◌, ◌&&◌, if◌then◌else◌, truthy, arith,
}
use abyte_tex.Http.{ok}
use abyte_tex.Context.{TenantRequestContext, assert_factory_access}
use abyte_tex.Schema.{Machine, Downtime, AuditAction, EntityType}
use abyte_tex.Maintenance.Completion.{is_held, released, release_machine_lem}
use abyte_tex.Downtime.{duration_minutes, closed, get_by_id, store_closed, close}
use abyte_tex.Database.{Prisma, Db}

-- The recorded minutes are the nearest to the time from the start to the end, half a minute
-- counting as a whole one; a downtime that ends before it starts counts as no time.
pub duration_minutes_lem :
    (start_time end_time : ℕ)
    → (60000 * duration_minutes start_time end_time ≤ end_time - start_time + 30000)
      × (end_time - start_time < 60000 * duration_minutes start_time end_time + 30000)
unfolding duration_minutes
duration_minutes_lem start_time end_time = (ground arith, ground arith)

module _ ⦃P : Prisma⦄ (ctx : TenantRequestContext) (t : ℕ) (id end_time : ℕ) (db : Db)
    (existing : Downtime) where
  -- The downtime closed, and the machine running unless a job holds it.
  abbrev pub closed_db : Db
  closed_db = record db {
    plant = record db.plant {
      downtimes =
          P.update (λ d. (d.tenant_id == t) && (d.id == id)) (closed existing.start_time end_time)
            db.plant.downtimes;
      machines =
          if is_held t existing.machine_id (λ j. true) db
          then db.plant.machines
          else released t existing.machine_id db;
    };
  }

  module _ (e : truthy ctx.tenant_id ≡ some t) (machine : Machine)
      (found : P.find_first (λ d. (d.tenant_id == t) && (d.id == id)) db.plant.downtimes
        ≡ some existing)
      (included : P.find_first (λ m. m.id == existing.machine_id) db.plant.machines ≡ some machine)
      (scoped : P.find_first
          (λ m. (m.tenant_id == t) && (m.id == existing.machine_id))
          db.plant.machines
        ≡ some machine)
      (access : assert_factory_access ctx.factory_ids (some machine.factory_id) ≡ ok tt) where
    get_by_id_lem : get_by_id ctx id db ≡ (ok existing, db)
    unfolding get_by_id
    get_by_id_lem = ground arith

    store_closed_lem :
        store_closed ctx id existing end_time db
        ≡ (ok (closed existing.start_time end_time existing), closed_db)
    unfolding store_closed
    store_closed_lem = ground (
      arith,
      release_machine_lem ctx t e existing.machine_id (λ j. true) machine
          (record db {
            plant = record db.plant {
              downtimes =
                  P.update (λ d. (d.tenant_id == t) && (d.id == id))
                    (closed existing.start_time end_time) db.plant.downtimes;
            };
          })
          scoped,
    )

    -- Closing a downtime that is found, of a machine that the user may access, returns: it writes the
    -- end and the duration to that downtime, sets the machine RUNNING unless a job of the machine is
    -- OPEN or IN_PROGRESS, in which case the machine stays as it was, writes one audit entry, and
    -- changes nothing else.
    pub close_lem : close ctx id end_time db ≡ (
      ok (closed existing.start_time end_time existing),
      record closed_db {
        audit_log =
            record {
              tenant_id = ctx.tenant_id;
              user_id = ctx.user_id;
              action = AuditAction.update;
              entity_type = EntityType.downtime;
              entity_id = id;
            }
            ∷ db.audit_log;
      },
    )
    unfolding close
    close_lem = ground (arith, get_by_id_lem, store_closed_lem)
