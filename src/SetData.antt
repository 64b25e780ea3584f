-- ===== src/SetData.antt =====
-- frontend/miniapp/miniprogram/behaviors/safeSetData.ts: how a page or component writes its view data
-- while it is hidden. A key of `setData` is a data path such as `list[0].name`, given as its
-- segments, so that one key may lie below another; view data and the values written are trees, given
-- as what they hold at each path. An object is the list of its entries in order.
pub mod Keys
pub mod Objects
pub mod Keeping
pub mod Deferred
mod Tests
use pathmemos.Base.{
  ℕ, Bool, true, false, not, ◌&&◌, Option, none, some, List, [], ◌∷◌, ◌==◌, if◌then◌else◌,
}

abbrev pub DataPath : Type 0
DataPath = List ℕ

-- What a tree holds at a path below its root; a primitive value is held at the empty path.
abbrev pub Tree : Type 0 → Type 0
Tree V = DataPath → Option V

-- The object that `setData` takes.
abbrev pub Entries : Type 0 → Type 0
Entries V = List (DataPath × Tree V)

-- The segments of `path` after `prefix`, if it begins with it.
abbrev pub below : (prefix path : DataPath) → Option DataPath
below [] path = some path
below (a ∷ prefix) [] = none
below (a ∷ prefix) (b ∷ path) = if a == b then below prefix path else none

abbrev pub same_path : DataPath → DataPath → Bool
same_path [] [] = true
same_path (a ∷ j) (b ∷ k) = a == b && same_path j k
same_path _ _ = false

-- `_isDestroyed` is undefined until it is set, `view_data` what the view shows.
pub record View (V : Type 0) : Type 0 where
  pub view_data : Tree V
  pub pending_set_data : Option (Entries V)
  pub is_destroyed : Option Bool
  pub is_detached : Bool
  pub is_hidden : Bool

-- `setData` with one key: all that was at the path and below it gives way to the value.
abbrev pub update : {V : Type 0} → Tree V → DataPath → Tree V → Tree V
update f k x path = elim (below k path) [ none ↦ f path | some rest ↦ x rest ]

module _ {V : Type 0} where
  -- `setData`: the entries, one after the other.
  abbrev pub write : Entries V → Tree V → Tree V
  write [] f = f
  write ((k, x) ∷ entries) f = write entries (update f k x)

  -- `Object.assign`: a key that is there, the whole path, keeps its place.
  abbrev pub assign_entry : DataPath → Tree V → Entries V → Entries V
  assign_entry k x [] = (k, x) ∷ []
  assign_entry k x ((j, y) ∷ entries) =
      if same_path j k then (j, x) ∷ entries else (j, y) ∷ assign_entry k x entries

  abbrev pub assign : Entries V → Entries V → Entries V
  assign target [] = target
  assign target ((k, x) ∷ source) = assign (assign_entry k x target) source

  unfoldable pub set_data : Entries V → View V → View V
  set_data entries v = record v { view_data = write entries v.view_data }

  -- `_isAlive`
  unfoldable pub is_alive : View V → Bool
  is_alive v = elim v.is_destroyed [
    | none ↦ false
    | some destroyed ↦ not destroyed && (not v.is_detached && not v.is_hidden)
  ]

  abbrev pub entries_of : Option (Entries V) → Entries V
  entries_of none = []
  entries_of (some entries) = entries

  -- `_applyPendingSetData`
  unfoldable pub apply_pending_set_data : View V → View V
  unfolding set_data
  apply_pending_set_data v = elim v.pending_set_data [
    | none ↦ v
    | some pending ↦ set_data pending (record v { pending_set_data = none })
  ]

  abbrev destroyed : View V → Bool
  destroyed v = elim v.is_destroyed [ none ↦ false | some d ↦ d ]

  -- `_safeSetData`
  unfoldable pub safe_set_data : Entries V → View V → View V
  unfolding is_alive set_data
  safe_set_data entries v =
      if destroyed v
      then v
      else if not (is_alive v)
      then if v.is_detached
        then v
        else record v { pending_set_data = some (assign (entries_of v.pending_set_data) entries) }
      else set_data entries v

  -- `_forceSetData`
  unfoldable pub force_set_data : Entries V → View V → View V
  unfolding set_data
  force_set_data entries v =
      if destroyed v then v else if v.is_detached then v else set_data entries v

  -- The lifetimes of the behaviour.
  unfoldable pub attached : View V → View V
  unfolding apply_pending_set_data
  attached v =
      apply_pending_set_data
        (record v { is_destroyed = some false; is_detached = false; is_hidden = false })

  unfoldable pub detached : View V → View V
  detached v = record v { is_detached = true; pending_set_data = none }

  unfoldable pub hide : View V → View V
  hide v = record v { is_hidden = true }

  unfoldable pub show : View V → View V
  unfolding apply_pending_set_data
  show v = apply_pending_set_data (record v { is_hidden = false })
