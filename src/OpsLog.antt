-- ===== src/OpsLog.antt =====
-- frontend/miniapp/miniprogram/utils/opslog.ts: the log of operations, kept in the storage of the
-- device until it is uploaded. What an event holds is a parameter; an event is what `opsLog` pushes.
pub mod Upload
mod Tests
use pathmemos.Base.{
  ℕ, ◌+◌, ◌-◌, Bool, true, false, List, [], ◌∷◌, ◌++◌, Option, none, some, ltb, if◌then◌else◌,
  is_empty, length, take, drop,
}

abbrev pub max_queue : ℕ
max_queue = 200

abbrev pub max_batch : ℕ
max_batch = 50

abbrev max_message : ℕ
max_message = 200

-- `_safeMsg`; none is what is no text.
pub safe_msg : Option (List ℕ) → Option (List ℕ)
safe_msg none = none
safe_msg (some []) = none
safe_msg (some (c ∷ text)) = some (take max_message (c ∷ text))

-- The detail that `opsLogFail` logs of an error, before what `extra` adds.
pub record ErrorDetail : Type 0 where
  pub code : Option (List ℕ)
  pub msg : Option (List ℕ)

pub detail_of : Option (List ℕ) → Option (List ℕ) → ErrorDetail
unfolding safe_msg
detail_of code text = record { code = code; msg = safe_msg text }

-- Whether the storage answers a read and a write.
pub record Storage : Type 0 where
  pub reads : Bool
  pub writes : Bool

module _ {E : Type 0} where
  -- `_readQueue` and `_writeQueue`, on the stored queue.
  abbrev pub read_queue : Storage → List E → List E
  read_queue st stored = if st.reads then stored else []

  abbrev pub write_queue : Storage → List E → List E → List E
  write_queue st q stored = if st.writes then q else stored

  -- `q.slice(-MAX_QUEUE)`
  unfoldable pub last_events : List E → List E
  last_events q = drop (length q - max_queue) q

  -- `opsLog`
  unfoldable pub ops_log : Storage → E → List E → List E
  ops_log st e stored = write_queue st (last_events (read_queue st stored ++ e ∷ [])) stored

  -- `flushOpsLog` to its post: the queue that it read, and the batch.
  unfoldable pub flush_begin : Storage → List E → Option (List E × List E)
  flush_begin st stored =
      let q = read_queue st stored in if is_empty q then none else some (q, take max_batch q)

  -- The answer of the post: the queue read before it, less the batch, is written.
  unfoldable pub flush_answered : Storage → Bool → (q batch : List E) → List E → List E
  flush_answered st true q batch stored = write_queue st (drop (length batch) q) stored
  flush_answered st false q batch stored = stored
