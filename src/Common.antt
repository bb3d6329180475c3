-- ===== src/Common.antt =====
-- include/taskr/common.hpp: the capacities that the queues are created with.
use task_r.Base.{ℕ}

abbrev pub default_max_common_active_tasks : ℕ
default_max_common_active_tasks = 4194304

abbrev pub default_max_worker_active_tasks : ℕ
default_max_worker_active_tasks = 32768

abbrev pub default_max_services : ℕ
default_max_services = 256
