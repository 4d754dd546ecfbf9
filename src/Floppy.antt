-- ===== src/Floppy.antt =====
-- The floppy driver, src/kernel/drivers/Devices/Disk/Floppy.c. Messages are left out.
pub mod Geometry
pub mod Transfer
use chud_os.Base.{
  ℕ, zero, suc, ◌+◌, ◌-◌, ◌*◌, ◌/◌, ◌%◌, ◌^◌, ◌==◌, ltb, if◌then◌else◌, ◌&&◌, not, update, Bool,
  true, false, Option, none, some, List, [], ◌∷◌,
}
use chud_os.Base.Words.{sub64}
use chud_os.Base.Run.{Run, ◌>>=◌, ◌>>◌, pure, gets, modify, fail}
use chud_os.Dma.{PortWrite}

-- The controller as the driver sees it: its ports, interrupt 6 after a command, in which a transfer may fill the
-- bounce buffer, and `TimerWindow` as it passes. `interrupt` is `none` where the interrupt never comes.
pub record Controller : Type 1 where
  pub State : Type 0
  pub out : ℕ → ℕ → State → State
  pub read_port : ℕ → State → ℕ × State
  pub interrupt : (ℕ → ℕ) → State → Option ((ℕ → ℕ) × State)
  pub ticks : State → ℕ

-- `memory` is the caller's buffer; `results` is what the array `Results` holds, at first what the stack held.
pub record Driver (c : Controller) : Type 0 where
  pub controller : c.State
  pub bounce : ℕ → ℕ
  pub bounce_physical : ℕ
  pub bounce_low : ℕ
  pub memory : ℕ → ℕ
  pub results : ℕ → ℕ
  pub sector_max : ℕ
  pub head_count : ℕ

abbrev pub digital_output_register : ℕ
digital_output_register = 0x3F2

abbrev pub main_status_register : ℕ
main_status_register = 0x3F4

abbrev pub data_fifo : ℕ
data_fifo = 0x3F5

abbrev pub bit : ℕ → ℕ → Bool
bit k x = x / 2 ^ k % 2 == 1

abbrev pub flag : Bool → ℕ
flag b = if b then 1 else 0

module _ {c : Controller} where
  abbrev pub inb : ℕ → Run (Driver c) ℕ
  inb port s =
      let (value, after) = c.read_port port s.controller in
      some (value, record s { controller = after })

  abbrev pub outb : ℕ → ℕ → Run (Driver c) (Unit {0})
  outb port value = modify (λ s. record s { controller = c.out port (value % 0x100) s.controller })

  abbrev pub send_fifo : ℕ → Run (Driver c) (Unit {0})
  send_fifo byte = outb data_fifo byte

  pub terminated : Run (Driver c) Bool
  terminated = do status ← inb main_status_register; pure (bit 4 status && not (bit 6 status))

  pub can_send_fifo : ℕ → Run (Driver c) Bool
  can_send_fifo drive = do
    status ← inb main_status_register
    pure (bit 7 status && not (bit drive status) && not (bit 6 status))

  -- The loop into `Results`, `rest` rounds from `i` on.
  unfoldable pub read_results_from : ℕ → ℕ → Run (Driver c) Bool
  read_results_from zero i = pure true
  read_results_from (suc rest) i = do
    status ← inb main_status_register
    if bit 7 status && bit 6 status
        then (do
          byte ← inb data_fifo
          modify (λ s. record s { results = update s.results i byte })
          read_results_from rest (suc i))
        else pure false

  abbrev pub read_result_bytes : ℕ → Run (Driver c) Bool
  read_result_bytes count = read_results_from count 0

  -- The condition is `inb & (0x80 != 0x80) || inb & (0x40 == 0x40) && ...`: a first read that does not matter,
  -- then bit 0 of a second.
  unfoldable pub wait_ready : ℕ → ℕ → Run (Driver c) (Unit {0})
  wait_ready zero timestamp = fail
  wait_ready (suc fuel) timestamp = do
    inb main_status_register
    status ← inb main_status_register
    now ← gets (λ s. c.ticks s.controller)
    if bit 0 status && ltb (sub64 timestamp now) 1000 then wait_ready fuel timestamp else pure tt

  unfoldable pub send_parameters : ℕ → List ℕ → Run (Driver c) (Unit {0})
  send_parameters fuel [] = pure tt
  send_parameters fuel (p ∷ ps) = do
    timestamp ← gets (λ s. c.ticks s.controller)
    wait_ready fuel timestamp
    send_fifo p
    send_parameters fuel ps

  abbrev pub send_command : ℕ → ℕ → List ℕ → Run (Driver c) (Unit {0})
  send_command fuel command parameters = do send_fifo command; send_parameters fuel parameters

  -- `DOR_Status & ~3 | Drive & 3`.
  abbrev pub set_drive : ℕ → Run (Driver c) (Unit {0})
  set_drive drive = do
    status ← inb digital_output_register
    outb digital_output_register (status / 4 * 4 + drive % 4)

  pub configure : ℕ → ℕ → Bool → Bool → Bool → Run (Driver c) (Unit {0})
  configure fuel drive use_implied_seek disable_fifo disable_pio = do
    set_drive drive
    send_command fuel 0x13 (
        0
        ∷ (flag use_implied_seek * 2 ^ 6 + flag disable_fifo * 2 ^ 5 + flag disable_pio * 2 ^ 4 + 7)
        ∷ 0
        ∷ [])

  pub get_version : ℕ → ℕ → Run (Driver c) ℕ
  get_version fuel drive = do
    set_drive drive
    send_command fuel 0x10 []
    read_result_bytes 1
    gets (λ s. s.results 0)

  unfoldable pub program_dma : List PortWrite → Run (Driver c) (Unit {0})
  program_dma [] = pure tt
  program_dma ((port, value) ∷ ws) = do outb port value; program_dma ws

  -- `while(!floppy_result_ready){}`, which has no bound: `none` is the wait that never ends.
  unfoldable pub wait_result : Run (Driver c) (Unit {0})
  wait_result s = elim (c.interrupt s.bounce s.controller) [
    | none ↦ none
    | some (bounce, after) ↦ some (tt, record s { bounce = bounce; controller = after })
  ]

  -- `floppy_result_ready = false`, the command, and the wait for its interrupt.
  abbrev pub command_and_wait : ℕ → ℕ → List ℕ → Run (Driver c) (Unit {0})
  command_and_wait fuel command parameters = do
    send_command fuel command parameters
    wait_result
    read_result_bytes 7
    pure tt
