-- ===== src/Buffer/Grow.antt =====
-- The doubling loop of `Buffer::EnsureWritableBytes` (src/common/buffer/buffer.hpp).
use ardb.Prelude.{ℕ, zero, suc, ◌+◌, ◌*◌, ◌^◌, ◌≤◌, ◌<◌, ◌≡◌, refl, arith}
use ardb.Buffer.{grow_capacity, grow_size_t}

-- Enough rounds for the loop without wrap-around.
pub grow_capacity_enough :
    (fuel capacity least : ℕ)
    → 1 ≤ capacity
    → least ≤ capacity + fuel
    → (least ≤ grow_capacity fuel capacity least) × (capacity ≤ grow_capacity fuel capacity least)
unfolding grow_capacity
grow_capacity_enough zero capacity least h k = omega arith
grow_capacity_enough (suc fuel) capacity least h k =
    ground (arith, grow_capacity_enough fuel (capacity * 2) least)

grow_size_t-eq :
    (fuel capacity least : ℕ)
    → least ≤ 2 ^ 63
    → capacity < 2 ^ 64
    → (grow_size_t fuel capacity least ≡ grow_capacity fuel capacity least)
      × (grow_size_t fuel capacity least < 2 ^ 64)
unfolding grow_capacity grow_size_t
grow_size_t-eq zero capacity least h k = (refl, k)
grow_size_t-eq (suc fuel) capacity least h k =
    ground (arith, grow_size_t-eq fuel (capacity * 2) least h)

-- From a capacity of at least 1 and below 2 ^ 64, for a request of at most 2 ^ 63, the doubling
-- loop on a `size_t`, given as many rounds as the distance to the request, ends at a capacity that
-- is no smaller than either and below 2 ^ 64, the one of the loop without wrap-around that
-- `ensure_writable_bytes` takes.
pub grow_size_t_enough :
    (fuel capacity least : ℕ)
    → 1 ≤ capacity
    → capacity < 2 ^ 64
    → least ≤ 2 ^ 63
    → least ≤ capacity + fuel
    → (least ≤ grow_size_t fuel capacity least)
      × (capacity ≤ grow_size_t fuel capacity least)
      × (grow_size_t fuel capacity least < 2 ^ 64)
      × (grow_size_t fuel capacity least ≡ grow_capacity fuel capacity least)
grow_size_t_enough fuel capacity least some_bytes small request enough =
    let same = grow_size_t-eq fuel capacity least request small in
    let reached = grow_capacity_enough fuel capacity least some_bytes enough in
    (omega (arith, same.0, reached.0), omega (arith, same.0, reached.1), same.1, same.0)
