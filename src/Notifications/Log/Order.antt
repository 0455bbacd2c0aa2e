-- ===== src/Notifications/Log/Order.antt =====
-- `ORDER BY sent_at DESC LIMIT n` over notification_log (internal/storage/notifications.go).
use container_census.Base.{◌≤◌, ◌≡◌, refl, Bool, List, [], ◌∷◌, count_if, arith}
use container_census.Notifications.Log.{LogEntry, place, newest_first}

module _ {F : Type 0} where
  -- A list of rows that never rises.
  abbrev pub IsNewestFirst : List (LogEntry F) → Type 0
  IsNewestFirst [] = Unit
  IsNewestFirst (e ∷ []) = Unit
  IsNewestFirst (e ∷ f ∷ es) = (f.sent_at ≤ e.sent_at) × IsNewestFirst (f ∷ es)

  place-IsNewestFirst :
      (e : LogEntry F) (es : List (LogEntry F)) → IsNewestFirst es → IsNewestFirst (place e es)
  unfolding place
  place-IsNewestFirst e [] h = tt
  place-IsNewestFirst e (f ∷ []) h = ground arith
  place-IsNewestFirst e (f ∷ g ∷ es) h = ground (arith, place-IsNewestFirst e (g ∷ es) h.1)

  pub newest_first-IsNewestFirst : (es : List (LogEntry F)) → IsNewestFirst (newest_first es)
  unfolding newest_first
  newest_first-IsNewestFirst [] = tt
  newest_first-IsNewestFirst (e ∷ es) =
      place-IsNewestFirst e (newest_first es) (newest_first-IsNewestFirst es)

  count_if-place :
      (p : LogEntry F → Bool) (e : LogEntry F) (es : List (LogEntry F))
      → count_if p (place e es) ≡ count_if p (e ∷ es)
  unfolding place
  count_if-place p e [] = refl
  count_if-place p e (f ∷ es) = ground (arith, count_if-place p e es)

  -- Sorting keeps every row, as often as it stands in the table.
  pub count_if-newest_first :
      (p : LogEntry F → Bool) (es : List (LogEntry F))
      → count_if p (newest_first es) ≡ count_if p es
  unfolding newest_first
  count_if-newest_first p [] = refl
  count_if-newest_first p (e ∷ es) =
      ground (arith, count_if-place p e (newest_first es), count_if-newest_first p es)
