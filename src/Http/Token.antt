-- ===== src/Http/Token.antt =====
-- http.ts: `createCancelToken`. A function that is called on cancelling is the number of its request.
use pathmemos.Base.{ℕ, Bool, true, false, List, [], ◌∷◌, ◌++◌, ◌==◌, if◌then◌else◌}

pub record Token : Type 0 where
  pub cancelled : Bool
  pub abort_fns : List ℕ

abbrev pub create_cancel_token : Token
create_cancel_token = record { cancelled = false; abort_fns = [] }

-- `cancel`, with the functions that it calls.
unfoldable pub cancel : Token → Token × List ℕ
cancel t =
    let called : List ℕ = t.abort_fns in
    if t.cancelled then (t, []) else (record { cancelled = true; abort_fns = [] }, called)

-- `_addAbort`; true if the function is called at once.
unfoldable pub add_abort : ℕ → Token → Token × Bool
add_abort i t =
    if t.cancelled then (t, true) else (record t { abort_fns = t.abort_fns ++ i ∷ [] }, false)

-- `indexOf` and `splice`
abbrev pub remove_first : ℕ → List ℕ → List ℕ
remove_first i [] = []
remove_first i (j ∷ js) = if i == j then js else j ∷ remove_first i js

-- What `_addAbort` returns; a token that was cancelled has nothing to remove.
unfoldable pub remove_abort : ℕ → Token → Token
remove_abort i t = record t { abort_fns = remove_first i t.abort_fns }

abbrev pub mem : ℕ → List ℕ → Bool
mem i [] = false
mem i (j ∷ js) = if i == j then true else mem i js
