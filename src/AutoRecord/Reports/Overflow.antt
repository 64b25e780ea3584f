-- ===== src/AutoRecord/Reports/Overflow.antt =====
-- autoRecord.ts: a flush that finds more points than the storage may hold.
use pathmemos.Base.{
  ℕ, ◌+◌, ◌-◌, ◌<◌, ◌≤◌, ◌≡◌, refl, sym, ◌∙◌, ap, Bool, true, false, List, [], ◌∷◌, ◌++◌,
  append-nil, drop-append, drop-drop, arith, ltb, length, drop, length-append, is_empty,
}
use pathmemos.AutoRecord.Floats.{StayPoint}
use pathmemos.AutoRecord.State.{State, storage_max_size}
use pathmemos.AutoRecord.Reports.{
  flush_combine, flush_store, flush_rest, flush_to_storage, put_back,
}
use pathmemos.AutoRecord.Reports.Flush.{unsent, IsStored}

module _ {Num : Type 0} where
  abbrev pub combined : State Num → List (StayPoint Num)
  combined s = s.stored_stay_points ++ s.stay_point_queue

  -- How many points are too many.
  abbrev pub excess : State Num → ℕ
  excess s = length (combined s) - storage_max_size

  unsent-combined :
      (s : State Num) → IsStored s → unsent s ≡ drop s.reported_leading_count (combined s)
  unsent-combined s h =
      sym (drop-append s.reported_leading_count s.stored_stay_points s.stay_point_queue h.prefix)

  not_empty :
      (points : List (StayPoint Num)) (n : ℕ)
      → n ≤ storage_max_size
      → storage_max_size < n + length points
      → is_empty points ≡ false
  not_empty [] n p q = absurd (omega arith)
  not_empty (x ∷ points) n p q = refl

  -- What a flush with too many points does.
  flush_excess :
      (writes : Bool) (s : State Num)
      → IsStored s
      → storage_max_size < length (combined s)
      → flush_to_storage true writes s
        ≡ flush_store writes (drop (excess s) (combined s)) s.stay_point_queue (record s {
          stay_point_queue = [];
          reported_leading_count = s.reported_leading_count - excess s;
        })
  unfolding flush_to_storage flush_rest flush_combine
  flush_excess writes s h over =
      let some_queued : is_empty s.stay_point_queue ≡ false =
        not_empty s.stay_point_queue (length s.stored_stay_points) h.limit
          (omega (arith, over, length-append s.stored_stay_points s.stay_point_queue)) in
      let too_many : ltb storage_max_size (length (combined s)) ≡ true = ground (arith, over) in
      simp (some_queued, too_many) refl

  -- A flush into a storage that is too small drops the oldest points over the limit, first those
  -- already uploaded: a point not yet uploaded is lost only when the excess is larger than the
  -- number of those. The storage is within its limit before, and answers.
  pub unsent-flush_excess :
      (s : State Num)
      → IsStored s
      → storage_max_size < length (combined s)
      → unsent (flush_to_storage true true s)
        ≡ drop (excess s - s.reported_leading_count) (unsent s)
  unfolding flush_store
  unsent-flush_excess s h over =
      ap unsent (flush_excess true s h over)
      ∙ append-nil (drop (s.reported_leading_count - excess s) (drop (excess s) (combined s)))
      ∙ drop-drop (excess s) (s.reported_leading_count - excess s) (combined s)
      ∙ ap (λ (n : ℕ). drop n (combined s)) (omega arith)
      ∙ sym (drop-drop s.reported_leading_count (excess s - s.reported_leading_count) (combined s))
      ∙ ap (drop (excess s - s.reported_leading_count)) (sym (unsent-combined s h))

  -- When such a flush cannot write, nothing is dropped, and yet the reported prefix is shorter by
  -- the excess: as many points that were uploaded, or all of them, are to be uploaded again.
  pub unsent-flush_excess_failed :
      (s : State Num)
      → IsStored s
      → storage_max_size < length (combined s)
      → unsent (flush_to_storage true false s)
        ≡ drop (s.reported_leading_count - excess s) s.stored_stay_points ++ s.stay_point_queue
  unfolding flush_store put_back
  unsent-flush_excess_failed s h over =
      ap unsent (flush_excess false s h over)
      ∙ ap (λ l. drop (s.reported_leading_count - excess s) s.stored_stay_points ++ l)
          (append-nil s.stay_point_queue)
