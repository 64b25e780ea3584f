-- ===== src/AutoRecord/Reports/Flush.antt =====
-- autoRecord.ts: a flush loses no stay point, whatever the storage answers.
use pathmemos.Base.{
  ◌+◌, ◌-◌, ◌≤◌, ◌≡◌, refl, ◌∙◌, ap, inl, inr, Bool, true, false, Bool-cases, List, [], ◌++◌,
  append_assoc, append-nil, drop-append, ◌⊎◌, arith, ltb, length, drop, length-append, length-drop,
  is_empty,
}
use pathmemos.AutoRecord.Floats.{StayPoint}
use pathmemos.AutoRecord.State.{State, storage_max_size}
use pathmemos.AutoRecord.Reports.{flush_store, flush_rest, flush_to_storage}

module _ {Num : Type 0} where
  -- The points not yet uploaded, oldest first: those stored behind the reported prefix, and those
  -- queued.
  abbrev pub unsent : State Num → List (StayPoint Num)
  unsent s = drop s.reported_leading_count s.stored_stay_points ++ s.stay_point_queue

  -- The storage keeps to its limit, and the reported prefix is within it.
  pub record IsStored (s : State Num) : Type 0 where
    pub limit : length s.stored_stay_points ≤ storage_max_size
    pub prefix : s.reported_leading_count ≤ length s.stored_stay_points

  flush_rest-IsStored :
      (reads writes : Bool) (points : List (StayPoint Num)) (s : State Num)
      → IsStored s
      → IsStored (flush_rest reads writes points s)
  unfolding flush_rest
  flush_rest-IsStored reads writes points s h =
      let combined : List (StayPoint Num) = s.stored_stay_points ++ points in
      ground (
        arith,
        length-append s.stored_stay_points points,
        length-drop (length combined - storage_max_size) combined,
      )

  -- A flush keeps the storage within its limit and the reported prefix within the storage, if both
  -- were so, whatever the storage answers.
  pub flush_to_storage-IsStored :
      (reads writes : Bool) (s : State Num)
      → IsStored s
      → IsStored (flush_to_storage reads writes s)
  unfolding flush_to_storage
  flush_to_storage-IsStored reads writes s h =
      let taken : State Num = record s { stay_point_queue = [] } in
      ground (
        arith,
        flush_rest-IsStored reads writes s.stay_point_queue taken
            (record { limit = h.limit; prefix = h.prefix }),
      )

  -- From the load on, with points that were queued since: while the storage has room, the points to
  -- upload are those before, then those taken, then those queued since.
  pub unsent-flush_rest :
      (reads writes : Bool) (points : List (StayPoint Num)) (s : State Num)
      → IsStored s
      → reads ≡ false ⊎ (length s.stored_stay_points + length points ≤ storage_max_size)
      → unsent (flush_rest reads writes points s)
        ≡ drop s.reported_leading_count s.stored_stay_points ++ (points ++ s.stay_point_queue)
  unfolding flush_rest
  unsent-flush_rest false writes points s h room = refl
  unsent-flush_rest true writes points s h (inl e) = cc
  unsent-flush_rest true writes points s h (inr room) =
      let fits : ltb storage_max_size (length (s.stored_stay_points ++ points)) ≡ false =
        ground (arith, length-append s.stored_stay_points points) in
      rw fits (stored writes)
    where
      stored :
          (writes : Bool)
          → unsent (flush_store writes (s.stored_stay_points ++ points) points s)
            ≡ drop s.reported_leading_count s.stored_stay_points ++ (points ++ s.stay_point_queue)
      stored true =
          ap (λ l. l ++ s.stay_point_queue)
            (drop-append s.reported_leading_count s.stored_stay_points points h.prefix)
          ∙ append_assoc (drop s.reported_leading_count s.stored_stay_points) points
              s.stay_point_queue
      stored false = refl

  -- While the storage has room and the reported prefix lies within it, a flush keeps the points to
  -- upload and their order, also when the storage cannot be read or written.
  pub unsent-flush_to_storage :
      (reads writes : Bool) (s : State Num)
      → IsStored s
      → length s.stored_stay_points + length s.stay_point_queue ≤ storage_max_size
      → unsent (flush_to_storage reads writes s) ≡ unsent s
  unfolding flush_to_storage
  unsent-flush_to_storage reads writes s h room = elim (Bool-cases (is_empty s.stay_point_queue)) [
    | inl e ↦ rw e
    | inr e ↦ rw e (
        unsent-flush_rest reads writes s.stay_point_queue (record s { stay_point_queue = [] })
          (record { limit = h.limit; prefix = h.prefix }) (inr room)
        ∙ ap (λ l. drop s.reported_leading_count s.stored_stay_points ++ l)
            (append-nil s.stay_point_queue))
  ]
