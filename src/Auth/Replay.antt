-- ===== src/Auth/Replay.antt =====
-- Sessions: a refresh token that was used is of no use again, whatever happens in between.
use abyte_tex.Base.{
  ℕ, ◌≡◌, refl, sym, ap, subst, Bool, true, false, none, some, List, [], ◌∷◌, ◌==◌, ◌||◌, ◌∙◌,
  if◌then◌else◌, any, All, All-mem, All-image, HasUniqueKeys, unique_mem, any_key-map, any_append,
  arith, Bool-cases, Option-cases, inl, inr, Memᴰ, ==→≡, ==_refl, any-mem,
}
use abyte_tex.Http.{Result, ok, err, unauthorized}
use abyte_tex.Context.{TenantRequestContext}
use abyte_tex.Schema.{RefreshToken}
use abyte_tex.Auth.Libraries.{Crypto, Jwt}
use abyte_tex.Auth.{
  AuthTokens, is_live, revoke, usable_refresh, login, refresh, rotate, logout, change_password,
  forgot_password, reset_password,
}
use abyte_tex.Auth.Tokens.{Evolves, tokens, rotate_revokes, refresh-kept, login-kept, logout-kept}
use abyte_tex.Auth.Revocation.{forgot_password-kept, change_password-kept, reset_password-kept}
use abyte_tex.Database.{Prisma, Db}
use abyte_tex.Database.Laws.{All-update, All-create, HasUniqueKeys-update, HasUniqueKeys-create}

abbrev pub hash_of : RefreshToken → ℕ
hash_of t = t.token_hash

or_true : {a : Bool} (b : Bool) → a ≡ true → (a || b) ≡ true
or_true b e = ground arith

true-not_false : {b : Bool} → b ≡ true → b ≡ false → ⊥
true-not_false p q = ground arith

pub revoked_unusable :
    (now : ℕ) (t : RefreshToken) → is_live t ≡ false → usable_refresh now (some t) ≡ none
revoked_unusable now t h = ground arith

usable_same : (now : ℕ) (t s : RefreshToken) → usable_refresh now (some t) ≡ some s → t ≡ s
usable_same now t s h = ground arith

-- There is a token with the hash, and every one is revoked.
abbrev pub IsRevoked : ℕ → RefreshToken → Type 0
IsRevoked h t = t.token_hash ≡ h → is_live t ≡ false

abbrev pub IsSpent : ℕ → List RefreshToken → Type 0
IsSpent h l = (any (λ t. t.token_hash == h) l ≡ true) × All (IsRevoked h) l

module _ ⦃P : Prisma⦄ where
  Evolves-IsSpent : (h : ℕ) {l l' : List RefreshToken} → Evolves l l' → IsSpent h l → IsSpent h l'
  Evolves-IsSpent h Evolves.same s = s
  Evolves-IsSpent h (Evolves.revoked {l} p now) s = (
    rw P.update_lem (
        any_key-map hash_of (λ r. if p r then revoke now r else r) h l
          (λ r. elim (Bool-cases (p r)) [ inl e ↦ rw e | inr e ↦ rw e ])
        ∙ s.0),
    All-update (IsRevoked h) p (revoke now) l (λ r m e q f. refl) s.1,
  )
  Evolves-IsSpent h (Evolves.issued {l} t new) s = (
    rw P.create_lem (any_append (λ r. r.token_hash == h) l (t ∷ []) ∙ or_true _ s.0),
    All-create (IsRevoked h) t l s.1 (λ e.
        absurd (true-not_false (s.0) (subst (λ n. any (λ r. r.token_hash == n) l ≡ false) e new))),
  )
  Evolves-IsSpent h (Evolves.then_ e e') s = Evolves-IsSpent h e' (Evolves-IsSpent h e s)

  -- The hashes of the refresh tokens stay distinct.
  pub Evolves-HasUniqueKeys :
      {l l' : List RefreshToken} → Evolves l l' → HasUniqueKeys hash_of l → HasUniqueKeys hash_of l'
  Evolves-HasUniqueKeys Evolves.same u = u
  Evolves-HasUniqueKeys (Evolves.revoked {l} p now) u =
      HasUniqueKeys-update hash_of p (revoke now) l (λ r. refl) u
  Evolves-HasUniqueKeys (Evolves.issued {l} t new) u = HasUniqueKeys-create hash_of t l u new
  Evolves-HasUniqueKeys (Evolves.then_ e e') u =
      Evolves-HasUniqueKeys e' (Evolves-HasUniqueKeys e u)

module _ ⦃P : Prisma⦄ ⦃C : Crypto⦄ ⦃J : Jwt⦄ where
  -- A later request: one of the operations of the service, or another, which at most revokes
  -- tokens, as deactivating a user does.
  pub data Step : Db → Db → Type 0 where
    login_step : (now email password : ℕ) {db : Db} → Step db (login now email password db).1
    refresh_step : (now token : ℕ) {db : Db} → Step db (refresh now token db).1
    logout_step :
        (ctx : TenantRequestContext) (token : ℕ) {db : Db} → Step db (logout ctx token db).1
    change_step :
        (ctx : TenantRequestContext) (user_id current_password new_password : ℕ) {db : Db}
        → Step db (change_password ctx user_id current_password new_password db).1
    forgot_step : (now email : ℕ) {db : Db} → Step db (forgot_password now email db).1
    reset_step :
        (now token new_password : ℕ) {db : Db}
        → Step db (reset_password now token new_password db).1
    revoking_step :
        (p : RefreshToken → Bool) (now : ℕ) {db db' : Db}
        → tokens db' ≡ P.update p (revoke now) (tokens db)
        → Step db db'
    other_step : {db db' : Db} → tokens db' ≡ tokens db → Step db db'

  pub data Steps : Db → Db → Type 0 where
    done : {db : Db} → Steps db db
    next : {db db' db'' : Db} → Step db db' → Steps db' db'' → Steps db db''

  Step-Evolves : {db db' : Db} → Step db db' → Evolves (tokens db) (tokens db')
  Step-Evolves (Step.login_step now email password {db}) = login-kept now email password db
  Step-Evolves (Step.refresh_step now token {db}) = refresh-kept now token db
  Step-Evolves (Step.logout_step ctx token {db}) = logout-kept ctx token db
  Step-Evolves (Step.change_step ctx user_id current_password new_password {db}) =
      change_password-kept ctx user_id current_password new_password db
  Step-Evolves (Step.forgot_step now email {db}) = forgot_password-kept now email db
  Step-Evolves (Step.reset_step now token new_password {db}) =
      reset_password-kept now token new_password db
  Step-Evolves (Step.revoking_step p now {db} e) =
      subst (λ l. Evolves (tokens db) l) (sym e) (Evolves.revoked p now)
  Step-Evolves (Step.other_step {db} e) = subst (λ l. Evolves (tokens db) l) (sym e) Evolves.same

  Steps-Evolves : {db db' : Db} → Steps db db' → Evolves (tokens db) (tokens db')
  Steps-Evolves Steps.done = Evolves.same
  Steps-Evolves (Steps.next s ss) = Evolves.then_ (Step-Evolves s) (Steps-Evolves ss)

  -- Whatever requests follow, the hashes of the refresh tokens stay distinct if they were so.
  pub Steps-HasUniqueKeys :
      {db db' : Db}
      → Steps db db'
      → HasUniqueKeys hash_of db.access.refresh_tokens
      → HasUniqueKeys hash_of db'.access.refresh_tokens
  Steps-HasUniqueKeys s u = Evolves-HasUniqueKeys (Steps-Evolves s) u

  refresh-IsSpent :
      (now token : ℕ) (db : Db)
      → IsSpent (C.hash_token token) (tokens db)
      → refresh now token db ≡ (err unauthorized, db)
  unfolding refresh
  refresh-IsSpent now token db s =
      elim (Option-cases (P.find_first (λ t. t.token_hash == C.hash_token token) (tokens db))) [
        | inl e ↦ rw e refl
        | inr (r, e) ↦
            let (m, h) =
              P.find_first-some (λ t. t.token_hash == C.hash_token token) (tokens db) r e in
            rw e (
              rw
                (revoked_unusable now r (
                  All-mem (IsRevoked (C.hash_token token)) (tokens db) s.1 m
                    (==→≡ r.token_hash (C.hash_token token) h)))
                refl)
      ]

  -- Once the stored token is revoked, none with its hash is live.
  update-IsSpent :
      (h now : ℕ) (stored : RefreshToken) (l : List RefreshToken)
      → HasUniqueKeys hash_of l
      → Memᴰ stored l
      → (stored.token_hash == h) ≡ true
      → IsSpent h (P.update (λ t. t.id == stored.id) (revoke now) l)
  update-IsSpent h now stored l u m e = rw P.update_lem (
    any_key-map hash_of (λ r. if r.id == stored.id then revoke now r else r) h l
          (λ r. elim (Bool-cases (r.id == stored.id)) [ inl b ↦ rw b | inr b ↦ rw b ])
        ∙ any-mem (λ r. r.token_hash == h) l m e,
    All-image (IsRevoked h) (λ r. if r.id == stored.id then revoke now r else r) l
        (λ r n. elim (Bool-cases (r.id == stored.id)) [
          | inl b ↦ rw b (λ f. refl)
          | inr b ↦ rw b (λ f. absurd (other_row r n f b))
        ]),
  )
    where
      other_row : (r : RefreshToken) → Memᴰ r l → r.token_hash ≡ h → (r.id == stored.id) ≡ false → ⊥
      other_row r n f b =
          let same = unique_mem hash_of l r stored u n m (f ∙ sym (==→≡ stored.token_hash h e)) in
          true-not_false (ap (λ t. t.id == stored.id) same ∙ ==_refl stored.id) b

  refresh_found :
      (now token : ℕ) (db : Db) (s : RefreshToken)
      → P.find_first (λ t. t.token_hash == C.hash_token token) (tokens db) ≡ some s
      → usable_refresh now (some s) ≡ some s
      → refresh now token db ≡ rotate now s db
  unfolding refresh
  refresh_found now token db s e n = rw e (rw n refl)

  refresh_spends :
      (now token : ℕ) (db db' : Db) (r : ℕ × AuthTokens)
      → HasUniqueKeys hash_of (tokens db)
      → refresh now token db ≡ (ok r, db')
      → IsSpent (C.hash_token token) (tokens db')
  unfolding refresh
  refresh_spends now token db db' r u ran =
      elim (Option-cases (P.find_first (λ t. t.token_hash == C.hash_token token) (tokens db))) [
        | inl e ↦ absurd (ground arith)
        | inr (s, e) ↦
            let (m, h) =
              P.find_first-some (λ t. t.token_hash == C.hash_token token) (tokens db) s e in
            elim (Option-cases (usable_refresh now (some s))) [
              | inl n ↦ absurd (ground arith)
              | inr (s', n) ↦ rotated s m h (
                  sym (refresh_found now token db s e (n ∙ ap some (sym (usable_same now s s' n))))
                  ∙ ran)
            ]
      ]
    where
      rotated :
          (s : RefreshToken)
          → Memᴰ s (tokens db)
          → (s.token_hash == C.hash_token token) ≡ true
          → rotate now s db ≡ (ok r, db')
          → IsSpent (C.hash_token token) (tokens db')
      rotated s m h ran_ =
          subst (λ (x : Result (ℕ × AuthTokens) × Db). IsSpent (C.hash_token token) (tokens x.1))
            ran_
            (Evolves-IsSpent (C.hash_token token) (rotate_revokes now s db m)
              (update-IsSpent (C.hash_token token) now s (tokens db) u m h))

  -- A refresh token that was used once is refused for ever: from a database whose token hashes are
  -- distinct, after a refresh with the token that returned and any sequence of further requests, a
  -- refresh with the same token is a 401 at whatever time, and changes nothing.
  pub refresh_twice :
      (now later token : ℕ) (db db' db'' : Db) (r : ℕ × AuthTokens)
      → HasUniqueKeys hash_of db.access.refresh_tokens
      → refresh now token db ≡ (ok r, db')
      → Steps db' db''
      → refresh later token db'' ≡ (err unauthorized, db'')
  refresh_twice now later token db db' db'' r u ran steps = refresh-IsSpent later token db'' (
      Evolves-IsSpent (C.hash_token token) (Steps-Evolves steps)
        (refresh_spends now token db db' r u ran))
