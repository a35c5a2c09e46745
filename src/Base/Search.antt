-- ===== src/Base/Search.antt =====
-- `some` and `flatMap` of JavaScript's arrays: where a search of a list that was built finds.
use mathlib.Core.Path.{◌≡◌, refl, ap, ◌∙◌}
use mathlib.Core.Bool.{Bool, true, ◌||◌}
use mathlib.Core.List.{List, [], ◌∷◌, ◌++◌, map, Memᴰ}
use native.Mathlib.Omega.{arith}
use abyte_tex.Base.Lists.{any, flat_map}

pub any_append :
    {A : Type 0} (p : A → Bool) (xs ys : List A) → any p (xs ++ ys) ≡ any p xs || any p ys
any_append p [] ys = refl
any_append p (x ∷ xs) ys = ground (arith, any_append p xs ys)

pub any-flat_map :
    {A B : Type 0} (p : B → Bool) (f : A → List B) (xs : List A)
    → any p (flat_map f xs) ≡ any (λ x. any p (f x)) xs
unfolding flat_map
any-flat_map p f [] = refl
any-flat_map p f (x ∷ xs) = any_append p (f x) (flat_map f xs) ∙ ground (arith, any-flat_map p f xs)

pub any-map :
    {A B : Type 0} (p : B → Bool) (f : A → B) (xs : List A)
    → any p (map f xs) ≡ any (λ x. p (f x)) xs
any-map p f [] = refl
any-map p f (x ∷ xs) = ground (arith, any-map p f xs)

pub any_cong :
    {A : Type 0} (p q : A → Bool) (xs : List A) → ((x : A) → p x ≡ q x) → any p xs ≡ any q xs
any_cong p q [] h = refl
any_cong p q (x ∷ xs) h = ground (arith, any_cong p q xs h, h x)

pub any-mem :
    {A : Type 0} (p : A → Bool) (xs : List A) {x : A} → Memᴰ x xs → p x ≡ true → any p xs ≡ true
any-mem p [] m h = elim m [ ]
any-mem p (y ∷ xs) {x} (Memᴰ.head e) h = ground (arith, ap p e)
any-mem p (y ∷ xs) (Memᴰ.tail m) h = ground (arith, any-mem p xs m h)
