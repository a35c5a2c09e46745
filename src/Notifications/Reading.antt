-- ===== src/Notifications/Reading.antt =====
-- Reading notifications: what is unread after `markAllRead`, and whose rows it leaves alone.
use abyte_tex.Base.{
  ℕ, Bool, ◌&&◌, zero, suc, ◌-◌, ◌*◌, ◌≡◌, refl, sym, ◌∙◌, ap, true, false, List, [], ◌∷◌, ◌==◌,
  not, ◌||◌, if◌then◌else◌, every, filter, filter-map, filter-map_mem, HasUniqueKeys, unique_mem,
  Option-cases, Bool-cases, inl, inr, ◌⊎◌, none, some, length, map, arith,
}
use abyte_tex.Http.{ok}
use abyte_tex.Schema.{Notification}
use abyte_tex.Database.{Prisma, Db}
use abyte_tex.Pagination.{PaginationQueryDto, build_pagination_meta, drop_rows, take_rows, page_of}
use abyte_tex.Notifications.{
  ListNotificationsQueryDto, is_unread, mark, list_for_user, mark_read, mark_all_read,
}

abbrev marked : ℕ → ℕ → List Notification → List Notification
marked now user_id l = map (λ n. if is_unread user_id n then mark now n else n) l

none_unread :
    (now user_id : ℕ) (l : List Notification)
    → every (λ n. not (is_unread user_id n) || false) (marked now user_id l) ≡ true
none_unread now user_id [] = refl
none_unread now user_id (n ∷ l) = ground (arith, none_unread now user_id l)

none_counted :
    (now user_id : ℕ) (l : List Notification)
    → filter (is_unread user_id) (marked now user_id l) ≡ []
none_counted now user_id [] = refl
none_counted now user_id (n ∷ l) = ground (arith, none_counted now user_id l)

marked_twice :
    (now later user_id : ℕ) (l : List Notification)
    → marked later user_id (marked now user_id l) ≡ marked now user_id l
marked_twice now later user_id [] = refl
marked_twice now later user_id (n ∷ l) = ground (arith, marked_twice now later user_id l)

-- Only the empty list has rows that all fail.
every-false : {R : Type 0} (l : List R) → every (λ r. false) l ≡ true → l ≡ []
every-false [] h = refl
every-false (r ∷ l) h = ground arith

drop_rows_none : {R : Type 0} (n : ℕ) → drop_rows {A = R} n [] ≡ []
unfolding drop_rows
drop_rows_none zero = refl
drop_rows_none (suc n) = refl

take_rows_none : {R : Type 0} (n : ℕ) → take_rows {A = R} n [] ≡ []
unfolding take_rows
take_rows_none zero = refl
take_rows_none (suc n) = refl

page_of_none :
    {R : Type 0} (query : PaginationQueryDto) (l : List R) → l ≡ [] → page_of query l ≡ []
page_of_none query l e =
    ap (page_of query) e
    ∙ ap (take_rows query.page_size) (drop_rows_none ((query.page - 1) * query.page_size))
    ∙ take_rows_none query.page_size

module _ ⦃P : Prisma⦄ (now user_id : ℕ) (db : Db) where
  abbrev unread : PaginationQueryDto → ListNotificationsQueryDto
  unread query = record { pagination = query; unread_only = true }

  abbrev after : Db
  after = (mark_all_read now user_id db).1

  after_lem : after.site.notifications ≡ marked now user_id db.site.notifications
  unfolding mark_all_read
  after_lem = P.update_lem (is_unread user_id) (mark now) db.site.notifications

  no_rows : P.find_latest (λ n. n.created_at) (is_unread user_id) after.site.notifications ≡ []
  no_rows =
      every-false (P.find_latest (λ n. n.created_at) (is_unread user_id) after.site.notifications) (
        P.find_latest-every (λ n. n.created_at) (is_unread user_id) (λ n. false)
          after.site.notifications
        ∙ ap (every (λ n. not (is_unread user_id n) || false)) after_lem
        ∙ none_unread now user_id db.site.notifications)

  no_count : P.count (is_unread user_id) after.site.notifications ≡ 0
  no_count =
      P.count_lem (is_unread user_id) after.site.notifications
      ∙ ap (λ l. length (filter (is_unread user_id) l)) after_lem
      ∙ ap length (none_counted now user_id db.site.notifications)

  list_unread :
      (query : PaginationQueryDto)
      → list_for_user user_id (unread query) after ≡ (
        ok (record { data_ = []; meta = build_pagination_meta 0 query.page query.page_size }),
        after,
      )
  unfolding list_for_user
  list_unread query = rw (page_of_none query _ no_rows, no_count) refl

  again : (later : ℕ) → mark_all_read later user_id after ≡ (ok tt, after)
  unfolding mark_all_read
  again later =
      ap (λ l. (ok tt, record db { site = record db.site { notifications = l } }))
        (P.update_lem (is_unread user_id) (mark later) after.site.notifications
          ∙ ap (marked later user_id) after_lem
          ∙ marked_twice now later user_id db.site.notifications
          ∙ sym after_lem)

  others :
      filter (λ n. not (n.user_id == user_id)) after.site.notifications
      ≡ filter (λ n. not (n.user_id == user_id)) db.site.notifications
  others =
      ap (filter (λ n. not (n.user_id == user_id))) after_lem
      ∙ filter-map (λ n. not (n.user_id == user_id))
          (λ n. if is_unread user_id n then mark now n else n) db.site.notifications
          (λ n o. ground arith) (λ n. ground arith)

  -- After a user has marked everything as read, every page of their unread notifications is empty
  -- and counts none, to mark everything again changes nothing, the times of reading included, and
  -- the notifications of all other users are as they were.
  pub mark_all_read_lem :
      (later : ℕ) (query : PaginationQueryDto)
      → (list_for_user user_id (unread query) after ≡ (
        ok (record { data_ = []; meta = build_pagination_meta 0 query.page query.page_size }),
        after,
      ))
        × (mark_all_read later user_id after ≡ (ok tt, after))
        × (filter (λ n. not (n.user_id == user_id)) after.site.notifications
            ≡ filter (λ n. not (n.user_id == user_id)) db.site.notifications)
  mark_all_read_lem later query = (list_unread query, again later, others)

module _ ⦃P : Prisma⦄ (now user_id id : ℕ) (db : Db) where
  abbrev own : Notification → Bool
  own n = (n.id == id) && (n.user_id == user_id)

  marks_none :
      P.find_first own db.site.notifications ≡ none
      → (mark_read now user_id id db).1.site.notifications ≡ db.site.notifications
  unfolding mark_read
  marks_none e = ground arith

  marks_some :
      (n : Notification)
      → P.find_first own db.site.notifications ≡ some n
      → ((mark_read now user_id id db).1.site.notifications ≡ db.site.notifications)
        ⊎ ((mark_read now user_id id db).1.site.notifications
            ≡ P.update (λ r. r.id == id) (mark now) db.site.notifications)
  unfolding mark_read
  marks_some n e = elim (Option-cases (P.find_first (λ r. r.id == id) db.site.notifications)) [
    | inl f ↦ inl (ground arith)
    | inr (m, f) ↦ inr (ground arith)
  ]

  -- Where the identifiers of the notifications are distinct, whoever asks to mark a notification as
  -- read, whosever it is and whether it exists, leaves the notifications of all other users alone.
  pub mark_read-others :
      HasUniqueKeys (λ n. n.id) db.site.notifications
      → filter (λ n. not (n.user_id == user_id)) (mark_read now user_id id db).1.site.notifications
        ≡ filter (λ n. not (n.user_id == user_id)) db.site.notifications
  mark_read-others u = elim (Option-cases (P.find_first own db.site.notifications)) [
    | inl e ↦ ap (filter (λ n. not (n.user_id == user_id))) (marks_none e)
    | inr (n, e) ↦ elim (marks_some n e) [
      | inl q ↦ ap (filter (λ n. not (n.user_id == user_id))) q
      | inr q ↦
          let (m, o) = P.find_first-some own db.site.notifications n e in
          ap (filter (λ n. not (n.user_id == user_id))) (q ∙ P.update_lem _ _ _)
          ∙ filter-map_mem (λ n. not (n.user_id == user_id))
              (λ r. if r.id == id then mark now r else r) db.site.notifications
              (λ r k s. elim (Bool-cases (r.id == id)) [
                | inl c ↦
                    let same =
                      unique_mem (λ x. x.id) db.site.notifications r n u k m (ground arith) in
                    absurd (ground (arith, ap (λ (x : Notification). x.user_id) same))
                | inr c ↦ rw c refl
              ])
              (λ r. ground arith)
    ]
  ]
