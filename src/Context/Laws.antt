-- ===== src/Context/Laws.antt =====
-- Factory access: what the check lets through, and that a list query never leaves it.
use abyte_tex.Base.{
  ℕ, suc, ◌≡◌, refl, ◌≢◌, sym, subst, inl, inr, true, Option, none, some, List, [], ◌∷◌,
  if◌then◌else◌, ==→≡, Bool-cases,
}
use abyte_tex.Http.{ok, err, forbidden}
use abyte_tex.Context.{includes, assert_factory_access, factory_scope_filter, admits}

-- A restricted user passes the check for a named factory exactly when it is on the user's list,
-- and gets a 403 otherwise.
pub assert_factory_access_lem :
    (ids : List ℕ) (f : ℕ)
    → ids ≢ []
    → assert_factory_access ids (some (suc f))
      ≡ (if includes (suc f) ids then ok tt else err forbidden)
unfolding assert_factory_access
assert_factory_access_lem [] f h = absurd (h refl)
assert_factory_access_lem (g ∷ gs) f h = refl

-- For a user with a list of factories, a list query whose requested factory has passed the access
-- check admits rows of the user's own factories only, whether or not it names a factory.
pub factory_scope_sound :
    (ids : List ℕ) (f : Option ℕ) (g : ℕ)
    → ids ≢ []
    → assert_factory_access ids f ≡ ok tt
    → admits (factory_scope_filter ids f) g ≡ true
    → includes g ids ≡ true
unfolding assert_factory_access factory_scope_filter
factory_scope_sound [] f g h a p = absurd (h refl)
factory_scope_sound (i ∷ ids) none g h a p = p
factory_scope_sound (i ∷ ids) (some ℕ.zero) g h a p = p
factory_scope_sound (i ∷ ids) (some (suc f)) g h a p =
    elim (Bool-cases (includes (suc f) (i ∷ ids))) [
      | inl e ↦ subst (λ x. includes x (i ∷ ids) ≡ true) (sym (==→≡ g (suc f) p)) e
      | inr e ↦ cc (rw e at a)
    ]
