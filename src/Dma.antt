-- ===== src/Dma.antt =====
-- The ISA DMA controller's programming, src/include/Devices/ISA_DMA.h: each function as the list of its `outb`
-- calls, a port and a byte each, with its result. The fields of a mode byte are disjoint, so `|` is `+` there.
pub mod Programmed
use chud_os.Base.{ℕ, ◌+◌, ◌-◌, ◌*◌, ◌/◌, ◌%◌, ◌^◌, ◌==◌, if◌then◌else◌, ◌||◌, Bool, List, [], ◌∷◌}

-- `outb(port, value)`; the value is cut to a byte.
abbrev pub PortWrite : Type 0
PortWrite = ℕ × ℕ

abbrev pub outb : ℕ → ℕ → PortWrite
outb port value = (port, value % 0x100)

-- `enum ISA_DMA_REGISTERS`.
abbrev pub c1_start : ℕ
c1_start = 0x02

abbrev pub c1_start_upper : ℕ
c1_start_upper = 0x83

abbrev pub c1_count : ℕ
c1_count = 0x03

abbrev pub c2_start : ℕ
c2_start = 0x04

abbrev pub c2_start_upper : ℕ
c2_start_upper = 0x81

abbrev pub c2_count : ℕ
c2_count = 0x05

abbrev pub c3_start : ℕ
c3_start = 0x06

abbrev pub c3_start_upper : ℕ
c3_start_upper = 0x82

abbrev pub c3_count : ℕ
c3_count = 0x07

abbrev pub mode_master : ℕ
mode_master = 0x0B

abbrev pub flip_flop_master : ℕ
flip_flop_master = 0x0C

abbrev pub mask_master : ℕ
mask_master = 0x0A

abbrev pub mode_byte : ℕ → ℕ → Bool → ℕ → ℕ
mode_byte channel direction auto mode =
    channel + direction * 4 + (if auto then 1 else 0) * 16 + mode * 64

-- `Count-=1` of a `uint32_t`.
abbrev pub decrement : ℕ → ℕ
decrement count = (count + 2 ^ 32 - 1) % 2 ^ 32

-- The calls of one channel of ISA_DMA_Transfer_To, which are the same for the three channels but for the ports.
abbrev pub program_to : ℕ → ℕ → ℕ → ℕ → ℕ → ℕ → Bool → ℕ → List PortWrite
program_to channel start start_upper count_port buffer count auto mode =
    outb flip_flop_master 0
    ∷ outb mask_master (4 + channel)
    ∷ outb flip_flop_master 0
    ∷ outb start buffer
    ∷ outb start (buffer / 2 ^ 8)
    ∷ outb flip_flop_master 0
    ∷ outb count_port count
    ∷ outb count_port (count / 2 ^ 8)
    ∷ outb start_upper (buffer / 2 ^ 16)
    ∷ outb flip_flop_master 0
    ∷ outb mode_master (mode_byte channel 1 auto mode)
    ∷ outb flip_flop_master 0
    ∷ outb mask_master channel
    ∷ []

unfoldable pub transfer_to : ℕ → ℕ → ℕ → Bool → ℕ → ℕ × List PortWrite
transfer_to channel buffer count auto mode =
    let count = decrement count in
    if (channel == 0) || (channel == 4)
    then (1, [])
    else if channel == 1
    then (0, program_to 1 c1_start c1_start_upper c1_count buffer count auto mode)
    else if channel == 2
    then (0, program_to 2 c2_start c2_start_upper c2_count buffer count auto mode)
    else if channel == 3
    then (0, program_to 3 c3_start c3_start_upper c3_count buffer count auto mode)
    else (0, [])

-- The channels of ISA_DMA_Transfer_From differ in where the flip-flop is reset.
abbrev pub program_from_1 : ℕ → ℕ → Bool → ℕ → List PortWrite
program_from_1 buffer count auto mode =
    outb mask_master 5
    ∷ outb flip_flop_master 0
    ∷ outb c1_start buffer
    ∷ outb c1_start (buffer / 2 ^ 8)
    ∷ outb flip_flop_master 0
    ∷ outb c1_count count
    ∷ outb c1_count (count / 2 ^ 8)
    ∷ outb c1_start_upper (buffer / 2 ^ 16)
    ∷ outb flip_flop_master 0
    ∷ outb mode_master (mode_byte 1 2 auto mode)
    ∷ outb mask_master 1
    ∷ []

abbrev pub program_from_2 : ℕ → ℕ → Bool → ℕ → List PortWrite
program_from_2 buffer count auto mode =
    outb mask_master 6
    ∷ outb flip_flop_master 0
    ∷ outb c2_start buffer
    ∷ outb c2_start (buffer / 2 ^ 8)
    ∷ outb flip_flop_master 0
    ∷ outb c2_count count
    ∷ outb c2_count (count / 2 ^ 8)
    ∷ outb c2_start_upper (buffer / 2 ^ 16)
    ∷ outb mode_master (mode_byte 2 2 auto mode)
    ∷ outb flip_flop_master 0
    ∷ outb mask_master 2
    ∷ []

abbrev pub program_from_3 : ℕ → ℕ → Bool → ℕ → List PortWrite
program_from_3 buffer count auto mode =
    outb mask_master 7
    ∷ outb flip_flop_master 0
    ∷ outb c3_start buffer
    ∷ outb c3_start (buffer / 2 ^ 8)
    ∷ outb flip_flop_master 0
    ∷ outb c3_count count
    ∷ outb c3_count (count / 2 ^ 8)
    ∷ outb c3_start_upper (buffer / 2 ^ 16)
    ∷ outb flip_flop_master 0
    ∷ outb mode_master (mode_byte 3 2 auto mode)
    ∷ outb flip_flop_master 0
    ∷ outb mask_master 3
    ∷ []

unfoldable pub transfer_from : ℕ → ℕ → ℕ → Bool → ℕ → ℕ × List PortWrite
transfer_from channel buffer count auto mode =
    let count = decrement count in
    if (channel == 0) || (channel == 4)
    then (1, [])
    else if channel == 1
    then (0, program_from_1 buffer count auto mode)
    else if channel == 2
    then (0, program_from_2 buffer count auto mode)
    else if channel == 3
    then (0, program_from_3 buffer count auto mode)
    else (0, [])
