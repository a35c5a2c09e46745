-- ===== src/Sales/Rounding.antt =====
-- What rounding the amounts of a sales order to hundredths does to their sums.
use abyte_tex.Base.{
  ℕ, ◌≡◌, refl, ◌+◌, ◌*◌, ◌≤◌, List, [], ◌∷◌, length, ℤ, pos, pos_part, neg_part, ◌+ℤ◌, ◌-ℤ◌,
  int_laws, arith,
}
use abyte_tex.Database.{Prisma}
use abyte_tex.Sales.{
  CreateSalesOrderDto, CreateSalesOrderItemDto, line_total, sum_line_totals, order_total, or_zero,
}

-- The items at their prices in units of 10⁻⁵, and their discounts in hundredths.
abbrev pub gross : List CreateSalesOrderItemDto → ℕ
gross [] = 0
gross (i ∷ is) = i.quantity * i.unit_price + gross is

abbrev pub discounts : List CreateSalesOrderItemDto → ℕ
discounts [] = 0
discounts (i ∷ is) = or_zero i.discount + discounts is

pub sum_line_totals_lem :
    (is : List CreateSalesOrderItemDto)
    → sum_line_totals is ≡ pos (gross is) -ℤ pos (1000 * discounts is)
unfolding sum_line_totals line_total ◌-ℤ◌
sum_line_totals_lem [] = refl
sum_line_totals_lem (i ∷ is) = rw (sum_line_totals_lem is) (omega int_laws)

-- Twice the distance of two integers is at most n.
abbrev pub IsWithin : ℕ → ℤ → ℤ → Type 0
IsWithin n a b =
    (2 * pos_part a + 2 * neg_part b ≤ 2 * pos_part b + 2 * neg_part a + n)
    × (2 * pos_part b + 2 * neg_part a ≤ 2 * pos_part a + 2 * neg_part b + n)

module _ ⦃P : Prisma⦄ where
  -- The sum of the line totals as they are stored.
  unfoldable pub rounded_sum : List CreateSalesOrderItemDto → ℤ
  rounded_sum [] = pos 0
  rounded_sum (i ∷ is) = P.to_cents (line_total i) +ℤ rounded_sum is

  -- Each rounding moves the sum by at most half a hundredth.
  rounded_sum-near :
      (is : List CreateSalesOrderItemDto)
      → (1000 * pos_part (rounded_sum is) + neg_part (sum_line_totals is)
          ≤ pos_part (sum_line_totals is) + 1000 * neg_part (rounded_sum is) + 500 * length is)
        × (pos_part (sum_line_totals is) + 1000 * neg_part (rounded_sum is)
            ≤ 1000 * pos_part (rounded_sum is) + neg_part (sum_line_totals is) + 500 * length is)
  unfolding rounded_sum sum_line_totals
  rounded_sum-near [] = (omega arith, omega arith)
  rounded_sum-near (i ∷ is) =
      let h = rounded_sum-near is in
      let (a, b) = P.to_cents-IsRounded (line_total i) in (omega int_laws, omega int_laws)

  -- What is stored for an order agrees up to the roundings of its items and of the two sums.
  pub agree :
      (dto : CreateSalesOrderDto) (a b : ℤ)
      → a ≡ b +ℤ rounded_sum dto.items
      → IsWithin (length dto.items + 1) a (b +ℤ P.to_cents (sum_line_totals dto.items))
        × IsWithin 2 (P.to_cents (order_total dto)) (
            P.to_cents (sum_line_totals dto.items)
            -ℤ pos (or_zero dto.discount)
            +ℤ pos (or_zero dto.tax))
  unfolding order_total
  agree dto a b h =
      let (n1, n2) = rounded_sum-near dto.items in
      let (s1, s2) = P.to_cents-IsRounded (sum_line_totals dto.items) in
      let (t1, t2) = P.to_cents-IsRounded (order_total dto) in
      rw h ((omega int_laws, omega int_laws), (omega int_laws, omega int_laws))
