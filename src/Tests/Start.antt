-- ===== src/Tests/Start.antt =====
-- Examples for the start of threads, the serial port and the interrupt controllers.
use objective_hail_os.Prelude.{ℕ, ◌≡◌, refl, true, false, Option, none, some, [], ◌∷◌, arith}
use objective_hail_os.Scheduler.{Sched}
use objective_hail_os.Scheduler.View.{Represents}
use objective_hail_os.Scheduler.Rotation.{view}
use objective_hail_os.Bit.{bit, set_bit_range, set_bits, set_array_bit, set_bit}
use objective_hail_os.PageAllocator.{
  allocate_page, allocate_page_sized, page_count_of, find_available_address,
}
use objective_hail_os.Context.{create_kernel}
use objective_hail_os.Startup.{
  Kernel, new_thread, create_at, create, create_and_enqueue, init_threads, kernel_start_threads,
  constructed,
}
use objective_hail_os.Startup.Run.{kernel_start_threads_lem}
use objective_hail_os.Serial.{Serial, write}
use objective_hail_os.Serial.Write.{Sent, with_returns, write-Sent}
use objective_hail_os.Controller.{Controllers}
use objective_hail_os.Tests.Heap.{page_zero_used}

-- The kernel before it has threads.
abbrev empty_kernel : Kernel
empty_kernel = record {
  sched = record {
    threads = λ t. constructed;
    run_queue = record { head = 0; tail = 0 };
    bootstrap = 0;
    idle = 0;
    need_reschedule = false;
    current = 0;
    rsp = 0;
  };
  bitmap = page_zero_used;
  words = λ a. 0;
}

kernel_of : Option Kernel → Kernel
kernel_of none = empty_kernel
kernel_of (some k) = k

created_of : Option (ℕ × Kernel) → ℕ × Kernel
created_of none = (0, empty_kernel)
created_of (some r) = r

-- A Thread of 96 bytes and a bitmap of three bytes, where 23 pages are free.
abbrev after_init : Kernel
unfolding kernel_of
after_init = kernel_of (init_threads 3 96 0x4000 0 empty_kernel 0 0 0x5000)

abbrev first_thread : ℕ × Kernel
unfolding created_of kernel_of
first_thread = created_of (create_and_enqueue 3 96 0x4000 0 after_init 0 0x6000 0 0)

abbrev second_thread : ℕ × Kernel
unfolding created_of kernel_of
second_thread = created_of (create_and_enqueue 3 96 0x4000 0 first_thread.1 0 0x7000 0 0)

init_made : init_threads 3 96 0x4000 0 empty_kernel 0 0 0x5000 ≡ some after_init
unfolding init_threads new_thread create_at create create_kernel allocate_page_sized page_count_of
    find_available_address bit set_bit_range set_bits set_array_bit set_bit kernel_of created_of
    allocate_page
init_made = refl

first_made : create_and_enqueue 3 96 0x4000 0 after_init 0 0x6000 0 0 ≡ some first_thread
unfolding init_threads create_and_enqueue new_thread create_at create create_kernel
    allocate_page_sized page_count_of find_available_address bit set_bit_range set_bits
    set_array_bit set_bit kernel_of created_of allocate_page
first_made = refl

second_made : create_and_enqueue 3 96 0x4000 0 first_thread.1 0 0x7000 0 0 ≡ some second_thread
unfolding init_threads create_and_enqueue new_thread create_at create create_kernel
    allocate_page_sized page_count_of find_available_address bit set_bit_range set_bits
    set_array_bit set_bit kernel_of created_of allocate_page
second_made = refl

-- The pages 1, 2, 7 and 12.
addresses :
    (after_init.sched.bootstrap ≡ 0x1000)
    × (after_init.sched.idle ≡ 0x2000)
    × (first_thread.0 ≡ 0x7000)
    × (second_thread.0 ≡ 0xc000)
unfolding init_threads create_and_enqueue new_thread create_at create create_kernel
    allocate_page_sized page_count_of find_available_address bit set_bit_range set_bits
    set_array_bit set_bit kernel_of created_of allocate_page
addresses = (refl, refl, refl, refl)

start_threads_example :
    (s : Sched) × (kernel_start_threads 3 96 0x4000 0 empty_kernel 0 0 0x5000 0 0x6000 0 0x7000
      ≡ some s)
    × Represents s (view first_thread.0 true (second_thread.0 ∷ []))
start_threads_example =
    kernel_start_threads_lem 3 96 0x4000 0 empty_kernel after_init first_thread second_thread 0 0
      0x5000 0 0x6000 0 0x7000 refl init_made first_made second_made
      (omega (arith, addresses.1), omega (arith, addresses.2), omega (arith, addresses.3))
      (
        omega (arith, addresses.0, addresses.1),
        omega (arith, addresses.0, addresses.2),
        omega (arith, addresses.0, addresses.3),
        omega (arith, addresses.1, addresses.2),
        omega (arith, addresses.1, addresses.3),
        omega (arith, addresses.2, addresses.3),
      )

-- A transmitter that is always ready.
abbrev status : ℕ → ℕ
status read = 0x20

abbrev serial : Serial
serial = record { base = 0x3f8; is_ready = true; reads = 0; sent = [] }

write_example :
    (s' : Serial) × (write status 1 serial (b'a' ∷ 10 ∷ []) ≡ some s')
    × Sent serial (with_returns (b'a' ∷ 10 ∷ [])) s'
write_example = write-Sent status 1 (λ read. (0, omega arith, refl)) serial (b'a' ∷ 10 ∷ []) refl

abbrev controllers : Controllers
controllers = record {
  lapic = record { mmio = 0; is_ready = false; apic_base = 0xfee00000; words = λ a. 0 };
  ports = λ p. 0;
  tables = record { handlers = λ v. 0; vector_counts = λ v. 0; eoi = 0; logger = 0 };
  is_initialized = false;
}
