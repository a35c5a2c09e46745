-- ===== src/Database/Creation.antt =====
-- What is found in a table after a row that fits was added to one without any.
use abyte_tex.Base.{
  ◌≡◌, refl, ap, Bool, true, false, none, some, List, [], ◌∷◌, ◌++◌, any, inl, inr, arith,
  Option-cases, Memᴰ, ◌∙◌, ◌⊎◌, not_any-mem,
}
use abyte_tex.Database.Client.{Prisma}

abbrev pub true-not_false : {b : Bool} {X : Type 0} → b ≡ true → b ≡ false → X
true-not_false p q = ground arith

in_last : {A : Type 0} (x : A) (l : List A) → Memᴰ x (l ++ x ∷ [])
in_last x [] = Memᴰ.head refl
in_last x (y ∷ l) = Memᴰ.tail (in_last x l)

-- What is in a list with one more element at the end.
in_snoc : {A : Type 0} (x s : A) (l : List A) → Memᴰ s (l ++ x ∷ []) → Memᴰ s l ⊎ (s ≡ x)
in_snoc x s [] (Memᴰ.head e) = inr e
in_snoc x s [] (Memᴰ.tail m) = elim m [ ]
in_snoc x s (y ∷ l) (Memᴰ.head e) = inl (Memᴰ.head e)
in_snoc x s (y ∷ l) (Memᴰ.tail m) = elim (in_snoc x s l m) [
  | inl k ↦ inl (Memᴰ.tail k)
  | inr e ↦ inr e
]

any-false :
    {A : Type 0} (p : A → Bool) (l : List A) → ((x : A) → Memᴰ x l → p x ≡ false) → any p l ≡ false
any-false p [] h = refl
any-false p (x ∷ l) h = rw (h x (Memᴰ.head refl)) (any-false p l (λ y m. h y (Memᴰ.tail m)))

module _ ⦃P : Prisma⦄ where
  pub find_first-create :
      {R : Type 0} (p : R → Bool) (r : R) (l : List R)
      → any p l ≡ false
      → p r ≡ true
      → P.find_first p (P.create r l) ≡ some r
  find_first-create p r l h e =
      rw P.create_lem (elim (Option-cases (P.find_first p (l ++ r ∷ []))) [
        | inl n ↦ true-not_false e (P.find_first-none p (l ++ r ∷ []) r n (in_last r l))
        | inr (s, f) ↦
            let (m, q) = P.find_first-some p (l ++ r ∷ []) s f in
            elim (in_snoc r s l m) [
              | inl in_l ↦ true-not_false q (not_any-mem p l h in_l)
              | inr last ↦ f ∙ ap some last
            ]
      ])

  -- A search that found nothing fits no row.
  pub none-any :
      {R : Type 0} (p : R → Bool) (l : List R) → P.find_first p l ≡ none → any p l ≡ false
  none-any p l h = any-false p l (λ x. P.find_first-none p l x h)
