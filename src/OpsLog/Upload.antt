-- ===== src/OpsLog/Upload.antt =====
-- opslog.ts: what the log keeps, and what an upload takes from it.
use pathmemos.Base.{
  ℕ, zero, suc, Bool-cases, inl, inr, ◌-◌, ◌≤◌, ◌≡◌, refl, ◌∙◌, ap, Bool, true, false, List, [],
  ◌∷◌, ◌++◌, Option, none, some, ltb, arith, if◌then◌else◌, is_empty, length, take, drop,
  length-append, length-take, length-drop, take-append-drop, drop-append,
}
use pathmemos.OpsLog.{
  max_queue, max_batch, Storage, last_events, ops_log, flush_begin, flush_answered,
}

module _ {E : Type 0} where
  last_events-push :
      (e : E) (stored : List E)
      → length stored ≤ max_queue
      → last_events (stored ++ e ∷ [])
        ≡ (if ltb (length stored) max_queue then stored else drop 1 stored) ++ e ∷ []
  unfolding last_events
  last_events-push e stored h = elim (Bool-cases (ltb (length stored) max_queue)) [
    | inl room ↦
        let none_over : length (stored ++ e ∷ []) - max_queue ≡ 0 =
          ground (arith, length-append stored (e ∷ []), room) in
        simp (none_over, room) refl
    | inr full ↦
        let one_over : length (stored ++ e ∷ []) - max_queue ≡ 1 =
          ground (arith, length-append stored (e ∷ []), full) in
        simp (one_over, full) (drop-append 1 stored (e ∷ []) (ground (arith, full)))
  ]

  length-last_events : (q : List E) → length (last_events q) ≤ max_queue
  unfolding last_events
  length-last_events q = omega (arith, length-drop (length q - max_queue) q)

  drop-length-take : (n : ℕ) (xs : List E) → drop (length (take n xs)) xs ≡ drop n xs
  drop-length-take zero xs = refl
  drop-length-take (suc n) [] = refl
  drop-length-take (suc n) (x ∷ xs) = drop-length-take n xs

  -- An event that is logged while the storage answers is the newest one; it pushes the oldest one out
  -- of a full log, and the log stays within MAX_QUEUE events.
  pub ops_log_newest :
      (st : Storage) (e : E) (stored : List E)
      → st.reads ≡ true
      → st.writes ≡ true
      → length stored ≤ max_queue
      → (ops_log st e stored
          ≡ (if ltb (length stored) max_queue then stored else drop 1 stored) ++ e ∷ [])
        × (length (ops_log st e stored) ≤ max_queue)
  unfolding ops_log
  ops_log_newest st e stored r w h =
      simp (r, w) (last_events-push e stored h, length-last_events (stored ++ e ∷ []))

  abbrev pub log_all : Storage → List E → List E → List E
  log_all st [] stored = stored
  log_all st (e ∷ events) stored = log_all st events (ops_log st e stored)

  batch-rest :
      (n : ℕ) (xs : List E)
      → (take n xs ++ drop (length (take n xs)) xs ≡ xs) × (length (take n xs) ≤ n)
  batch-rest n xs = (
    ap (◌++◌ (take n xs)) (drop-length-take n xs) ∙ take-append-drop n xs,
    omega (arith, length-take n xs),
  )

  begun :
      (reads : Bool) (stored q batch : List E)
      → (let q' : List E = if reads then stored else [] in
          let begins : Option (List E × List E) = some (q', take max_batch q') in
          if is_empty q' then none else begins)
        ≡ some (q, batch)
      → (q ≡ stored) × (batch ≡ take max_batch stored)
  begun true [] q batch h = cc
  begun true (e ∷ stored) q batch h = (cc, cc)
  begun false stored q batch h = cc

  flush_begin-some :
      (st : Storage) (stored q batch : List E)
      → flush_begin st stored ≡ some (q, batch)
      → (q ≡ stored) × (batch ≡ take max_batch stored)
  unfolding flush_begin
  flush_begin-some st stored q batch h = begun st.reads stored q batch h

  -- An accepted upload leaves the stored log less the batch, whatever was logged while it was under
  -- way: those events are lost.
  pub flush_drops_batch :
      (st : Storage) (q batch stored events : List E)
      → flush_begin st stored ≡ some (q, batch)
      → st.writes ≡ true
      → (batch ++ flush_answered st true q batch (log_all st events stored) ≡ stored)
        × (length batch ≤ max_batch)
  unfolding flush_begin flush_answered
  flush_drops_batch st q batch stored events h w =
      let (same, taken) = flush_begin-some st stored q batch h in
      simp (w, same, taken) (batch-rest max_batch stored)
