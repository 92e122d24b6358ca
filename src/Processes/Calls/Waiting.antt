-- ===== src/Processes/Calls/Waiting.antt =====
-- The for loop of `sys_wait`, against the list of the children of the process.
use lilac_os.Base.{ℕ, List, [], ◌∷◌, Option, none, some, if◌then◌else◌}
use lilac_os.Kernel.{Kernel, sibling_of}
use lilac_os.Processes.{is_exited}

-- The nodes of children.
abbrev pub siblings : List ℕ → List ℕ
siblings [] = []
siblings (c ∷ cs) = sibling_of c ∷ siblings cs

-- The first child that has exited.
pub first_exited : Kernel → List ℕ → Option ℕ
first_exited k [] = none
first_exited k (c ∷ cs) = if is_exited (k.procs c).state then some c else first_exited k cs

-- The child, or 0 where there is none.
abbrev pub child_or_null : Option ℕ → ℕ
child_or_null none = 0
child_or_null (some c) = c
