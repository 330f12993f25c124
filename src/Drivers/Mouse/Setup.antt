-- ===== src/Drivers/Mouse/Setup.antt =====
-- The set-up of the mouse through its controller, `ps2_mouse_init` of
-- kernel/src/drivers/ps2_mouse.c. `status` gives what each read of the controller's status answers, and
-- `data_port` what each read of its data port does. A wait gives up after 100000 reads.
pub mod Traffic
use chef_os.Prelude.{
  ℕ, zero, suc, ◌+◌, ◌*◌, ◌≤◌, ◌==◌, ◌≡◌, refl, ap, ◌∙◌, sym, Bool, true, false, List, [], ◌∷◌,
  ◌++◌, bit_and, bit_or, arith, ◌<◌, Bool-cases, inl, inr,
}
use chef_os.Drivers.Timer.{PortWrite}
use chef_os.Drivers.Polling.{Ports, status_read, write_all}

-- `while (timeout--) { if (...) return; }`
unfoldable pub wait_loop : (timeout : ℕ) → (done : ℕ → Bool) → (status : ℕ → ℕ) → Ports → Ports
wait_loop zero done status p = p
wait_loop (suc timeout) done status p = elim (done (status p.status_reads)) [
  | true ↦ status_read p
  | false ↦ wait_loop timeout done status (status_read p)
]

abbrev pub timeout_reads : ℕ
timeout_reads = 100000

abbrev pub output_full : (status : ℕ) → Bool
output_full status = bit_and status 1 == 1

abbrev pub input_empty : (status : ℕ) → Bool
input_empty status = bit_and status 2 == 0

-- `mouse_wait`: type 0 waits for data to read, any other for room to write.
abbrev pub mouse_wait : (kind : ℕ) → (status : ℕ → ℕ) → Ports → Ports
mouse_wait zero status p = wait_loop timeout_reads output_full status p
mouse_wait (suc kind) status p = wait_loop timeout_reads input_empty status p

abbrev pub outb : (port value : ℕ) → Ports → Ports
outb port value p = write_all (record { port = port; value = value } ∷ []) p

-- A wait and the write after it.
unfoldable pub wait_outb : (status : ℕ → ℕ) → (port value : ℕ) → Ports → Ports
wait_outb status port value p = outb port value (mouse_wait 1 status p)

-- A wait and the read of the data port after it: the byte, and the ports.
unfoldable pub mouse_read : (status data_port : ℕ → ℕ) → Ports → ℕ × Ports
mouse_read status data_port p =
    let q = mouse_wait 0 status p in
    (data_port q.data_reads, record q { data_reads = q.data_reads + 1 })

unfoldable pub mouse_write : (status : ℕ → ℕ) → (byte : ℕ) → Ports → Ports
mouse_write status byte p = wait_outb status 0x60 byte (wait_outb status 0x64 0xD4 p)

-- The controller's configuration, with the interrupt of the mouse enabled.
unfoldable pub set_config : (status data_port : ℕ → ℕ) → Ports → Ports
set_config status data_port p =
    let asked = mouse_read status data_port (wait_outb status 0x64 0x20 p) in
    wait_outb status 0x60 (bit_or asked.0 2) (wait_outb status 0x64 0x60 asked.1)

-- A command to the mouse, and the read of its answer.
unfoldable pub command : (status data_port : ℕ → ℕ) → (byte : ℕ) → Ports → Ports
command status data_port byte p = (mouse_read status data_port (mouse_write status byte p)).1

-- The port traffic of `ps2_mouse_init`.
unfoldable pub set_up : (status data_port : ℕ → ℕ) → Ports → Ports
set_up status data_port p =
    command status data_port 0xF4
      (command status data_port 0xF6 (set_config status data_port (wait_outb status 0x64 0xA8 p)))
