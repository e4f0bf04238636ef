-- ===== src/Tests.antt =====
-- The theorems and the operations at concrete inputs.
pub mod PageAlloc
pub mod ListHead
pub mod Sched
pub mod Kernel
pub mod Mmu
pub mod Kallsyms
pub mod Sbi
pub mod Printk
pub mod Trap
pub mod Memory
pub mod LockFree
pub mod Walk
pub mod Start
pub mod Uart
pub mod Exercises
