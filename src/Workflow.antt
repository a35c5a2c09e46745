-- ===== src/Workflow.antt =====
-- The transition guard that every status change goes through
-- (apps/api/src/common/workflow.util.ts). A transition map is a function from a status to the list
-- of its next states, empty where the source's map has no entry.
use abyte_tex.Base.{Bool, true, false, List, if◌then◌else◌, any, ◌≡◌, ◌↔◌, arith}
use abyte_tex.Http.{Result, ok, err, bad_request}

-- `===` on the string literals of a status type.
pub record Status (S : Type 0) : Type 0 where
  pub same : S → S → Bool
  pub same→≡ : (a b : S) → same a b ≡ true → a ≡ b
  pub same_refl : (a : S) → same a a ≡ true

module _ {S : Type 0} ⦃status : Status S⦄ where
  abbrev pub lists : List S → S → Bool
  lists states next = any (λ s. status.same s next) states

  unfoldable pub assert_valid_transition : (S → List S) → S → S → Result (Unit {0})
  assert_valid_transition allowed current next =
      if status.same current next
      then err bad_request
      else if lists (allowed current) next
      then ok tt
      else err bad_request

  -- The guard passes exactly for a listed next state that is not the current one.
  pub assert_valid_transition_iff :
      (allowed : S → List S) (current next : S)
      → (assert_valid_transition allowed current next ≡ ok tt)
        ↔ ((status.same current next ≡ false) × (lists (allowed current) next ≡ true))
  unfolding assert_valid_transition
  assert_valid_transition_iff allowed current next = (λ h. ground arith, λ h. ground arith)
