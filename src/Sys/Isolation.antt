-- ===== src/Sys/Isolation.antt =====
-- What a system call can change.
use chef_os.Video.Fb.Bounded.{Bounded}
use chef_os.Sys.Isolated.{Isolated}
