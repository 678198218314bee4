-- ===== src/Queue/Invariant.antt =====
-- What `t_queue` keeps true: the indices lie in the block, and no index computation wraps.
use why.Base.{◌^◌, ◌≤◌, ◌<◌, ◌≡◌, length}
use why.Queue.{Queue}

pub record IsValid {ℓ} {A : Type ℓ} (q : Queue A) : Type 0 where
  pub storage : length q.cells ≡ q.capacity
  pub small : q.capacity ≤ 2 ^ 31
  pub pointer_in : q.pointer < q.capacity
  pub len_in : q.len ≤ q.capacity
