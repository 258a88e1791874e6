-- ===== src/Notification/Once.antt =====
-- Each order is mailed about each kind of event once, however often and in whatever order the events
-- are delivered.
use mathlib.Core.List.{append-nil, append_assoc}
use shop_microservices.Prelude.{
  subst, ℕ, String, ◌==◌, eq_iff, eq_refl, ◌≡◌, sym, ◌∙◌, ap, true, false, none, some, List, [],
  ◌∷◌, ◌++◌, map, inl, inr, Bool-cases, Option-cases, arith,
}
use shop_microservices.Notification.{NotificationLogEntity, Tables, State, Notice, log_row}
use shop_microservices.Notification.Deliveries.{
  EventKey, key_of, mail_of, same_key, has_key, NoticeDelivery, taken, failed, firsts,
  same_key_self, eq_of_same_key, deliver_all, entry_key, IsLogOf, attempted,
}
use shop_microservices.Notification.Effects.{notify_fails, notify_duplicate, notify_first}

module _ (T : Tables) where
  module _ (now : ℕ) (notice : Notice) (s : State T) (seen : List EventKey)
      (is_log : IsLogOf T seen s.log) where
    abbrev key : EventKey
    key = key_of notice

    insert_seen :
        has_key key seen ≡ true → T.unique_event.insert s.log (attempted T now notice s) ≡ none
    unfolding log_row
    insert_seen h =
        let (r, found, same) = is_log.seen_rows key h in
        T.unique_event.insert_clash s.log (attempted T now notice s) r found
          (subst (λ k. same_key key k ≡ true) (sym same) (same_key_self key))

    insert_new :
        has_key key seen ≡ false
        → (log : T.logs.Table) × (T.unique_event.insert s.log (attempted T now notice s) ≡ some log)
    unfolding log_row
    insert_new h = elim (Option-cases (T.unique_event.insert s.log (attempted T now notice s))) [
      | inr found ↦ found
      | inl refused ↦
          let (r, found, same) =
            T.unique_event.insert_none s.log (attempted T now notice s) refused in
          let known = is_log.rows_seen r.id r found in
          absurd (cc (h, known, ap (λ k. has_key k seen) (eq_of_same_key key (entry_key T r) same)))
    ]

    abbrev saved : T.logs.Table
    saved = T.logs.save s.log (attempted T now notice s)

    rows_seen-saved :
        (k : String) (r : NotificationLogEntity)
        → T.logs.find_one saved k ≡ some r
        → has_key (entry_key T r) (key ∷ seen) ≡ true
    unfolding log_row
    rows_seen-saved k r e = elim (Bool-cases ((attempted T now notice s).id == k)) [
      | inl mine ↦
          ground (
            arith,
            T.logs.find_one-save s.log (attempted T now notice s) k,
            mine,
            same_key_self key,
          )
      | inr other ↦ ground (
        arith,
        T.logs.find_one-save s.log (attempted T now notice s) k,
        other,
        is_log.rows_seen k r,
      )
    ]

    kept :
        (r : NotificationLogEntity)
        → T.logs.find_one s.log r.id ≡ some r
        → T.logs.find_one saved r.id ≡ some r
    unfolding log_row
    kept r found = elim (Bool-cases ((attempted T now notice s).id == r.id)) [
      | inl clash ↦ absurd (
          cc (
            found,
            T.logs.find_one-generate s.log,
            ap (T.logs.find_one s.log) ((eq_iff (T.logs.generate s.log) r.id).0 clash),
          ))
      | inr other ↦ T.logs.find_one-save s.log (attempted T now notice s) r.id ∙ rw other found
    ]

    seen_rows-saved :
        (j : EventKey)
        → has_key j (key ∷ seen) ≡ true
        → (r : NotificationLogEntity) × (T.logs.find_one saved r.id ≡ some r) × (entry_key T r ≡ j)
    unfolding log_row
    seen_rows-saved j h = elim (Bool-cases (same_key j key)) [
      | inl mine ↦ (
        attempted T now notice s,
        rw (T.logs.find_one-save, eq_refl),
        sym (eq_of_same_key j key mine),
      )
      | inr other ↦
          let (r, found, same) = is_log.seen_rows j (ground (arith, other)) in
          (r, kept r found, same)
    ]

    IsLogOf-first :
        (log : T.logs.Table)
        → T.unique_event.insert s.log (attempted T now notice s) ≡ some log
        → IsLogOf T (key ∷ seen) log
    IsLogOf-first log e =
        subst (λ l. IsLogOf T (key ∷ seen) l)
          (sym (T.unique_event.insert_some s.log log (attempted T now notice s) e))
          (record { rows_seen = rows_seen-saved; seen_rows = seen_rows-saved })

  -- Handled one after the other, in any order and with any repetitions, the deliveries give exactly
  -- the mails of those events that are the first of their order and kind in the log and that the
  -- database took: none is mailed twice, and none is lost to an earlier failure.
  pub mails-deliver_all :
      (ds : List NoticeDelivery) (s : State T) (seen : List EventKey)
      → IsLogOf T seen s.log
      → (deliver_all T ds s).mails ≡ s.mails ++ map mail_of (firsts seen ds)
  unfolding deliver_all firsts
  mails-deliver_all [] s seen l = sym (append-nil s.mails)
  mails-deliver_all (failed message now notice ∷ ds) s seen l =
      rw (deliver_all, notify_fails T message now notice s) (mails-deliver_all ds s seen l)
  mails-deliver_all (taken now notice ∷ ds) s seen l =
      elim (Bool-cases (has_key (key_of notice) seen)) [
        | inl old ↦
            rw
              (
                firsts,
                old,
                deliver_all,
                notify_duplicate T now notice s (insert_seen now notice s seen l old),
              )
              (mails-deliver_all ds s seen l)
        | inr new ↦
            let (log, inserted) = insert_new now notice s seen l new in
            rw (firsts, new, deliver_all, notify_first T now notice s log inserted)
              (mails-deliver_all ds (record { log = log; mails = s.mails ++ (mail_of notice ∷ []) })
                  (key_of notice ∷ seen) (IsLogOf-first now notice s seen l log inserted)
                ∙ append_assoc s.mails (mail_of notice ∷ [])
                    (map mail_of (firsts (key_of notice ∷ seen) ds)))
      ]
