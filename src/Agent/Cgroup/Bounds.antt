-- ===== src/Agent/Cgroup/Bounds.antt =====
-- The numbers that are written as limits fit an `i64`, and the kernel takes the quota.
use barenetes.Base.{ℕ, ◌≡◌, ◌≤◌, ◌<◌, ◌*◌, arith}
use barenetes.Agent.Cgroup.{cpu_quota, memory_bytes}

-- For a limit below 2^31, the CPU quota is at least 1000, which the kernel asks for, it is 100
-- times the limit from 10 milli-CPU on, and the quota and the bytes of memory fit an i64.
pub cpu_quota_lem :
    (n : ℕ)
    → n < 2147483648
    → ((1000 ≤ cpu_quota n) × (cpu_quota n < 9223372036854775808))
      × ((10 ≤ n → cpu_quota n ≡ n * 100) × (memory_bytes n < 9223372036854775808))
cpu_quota_lem n h = ground arith
