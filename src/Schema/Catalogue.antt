-- ===== src/Schema/Catalogue.antt =====
-- Master data: the sites of a tenant, its parties and its goods (prisma/schema.prisma). `name` stands
-- for what a form edits; contact and display data are left out.
use abyte_tex.Base.{ℕ, Option}

pub record Factory : Type 0 where
  pub id : ℕ
  pub tenant_id : ℕ
  pub code : ℕ
  pub name : ℕ

pub record Warehouse : Type 0 where
  pub id : ℕ
  pub tenant_id : ℕ
  pub factory_id : ℕ
  pub code : ℕ
  pub name : ℕ

pub record Location : Type 0 where
  pub id : ℕ
  pub warehouse_id : ℕ
  pub code : ℕ

pub record Department : Type 0 where
  pub id : ℕ
  pub tenant_id : ℕ
  pub factory_id : ℕ
  pub code : ℕ
  pub name : ℕ

-- The name of a shift is its key.
pub record Shift : Type 0 where
  pub id : ℕ
  pub tenant_id : ℕ
  pub factory_id : ℕ
  pub name : ℕ
  pub start_time : ℕ

pub record Customer : Type 0 where
  pub id : ℕ
  pub tenant_id : ℕ
  pub name : ℕ

pub record Supplier : Type 0 where
  pub id : ℕ
  pub tenant_id : ℕ
  pub name : ℕ

pub record Material : Type 0 where
  pub id : ℕ
  pub tenant_id : ℕ
  pub code : ℕ
  pub unit : ℕ
  pub reorder_level : Option ℕ

pub record ProductCategory : Type 0 where
  pub id : ℕ
  pub tenant_id : ℕ
  pub name : ℕ
  pub parent_id : Option ℕ

pub record Product : Type 0 where
  pub id : ℕ
  pub tenant_id : ℕ
  pub sku : ℕ
  pub category_id : Option ℕ
  pub unit : ℕ
