-- ===== src/Dma/Programmed.antt =====
-- What the calls of ISA_DMA.h leave in the controller, an Intel 8237 with a page register for each channel.
use chud_os.Base.{
  ℕ, zero, suc, ◌+◌, ◌*◌, ◌/◌, ◌%◌, ◌^◌, ◌≤◌, ◌<◌, ◌==◌, ◌≡◌, refl, arith, if◌then◌else◌, Bool,
  true, false, List, [], ◌∷◌,
}
use chud_os.Dma.{
  PortWrite, c1_start, c1_start_upper, c1_count, c2_start, c2_start_upper, c2_count, c3_start,
  c3_start_upper, c3_count, mode_master, flip_flop_master, mask_master, mode_byte, transfer_to,
  transfer_from,
}

-- One channel's registers, by the data sheet: an address and a count are written low byte first, and the
-- flip-flop says which byte is next.
pub record Channel : Type 0 where
  pub high_next : Bool
  pub low_address : ℕ
  pub high_address : ℕ
  pub page : ℕ
  pub low_count : ℕ
  pub high_count : ℕ
  pub masked : Bool
  pub mode : ℕ

-- The ports of a channel.
pub record Ports : Type 0 where
  pub number : ℕ
  pub start : ℕ
  pub upper : ℕ
  pub count : ℕ

abbrev pub receive : Ports → PortWrite → Channel → Channel
receive p (port, v) c =
    if port == flip_flop_master
    then record c { high_next = false }
    else if port == p.start
    then (if c.high_next
        then record c { high_address = v; high_next = false }
        else record c { low_address = v; high_next = true })
    else if port == p.count
    then (if c.high_next
        then record c { high_count = v; high_next = false }
        else record c { low_count = v; high_next = true })
    else if port == p.upper
    then record c { page = v }
    else if port == mask_master
    then (if v % 4 == p.number then record c { masked = v / 4 % 2 == 1 } else c)
    else if port == mode_master
    then (if v % 4 == p.number then record c { mode = v } else c)
    else c

abbrev pub receive_all : Ports → List PortWrite → Channel → Channel
receive_all p [] c = c
receive_all p (w ∷ ws) c = receive_all p ws (receive p w c)

abbrev pub address_of : Channel → ℕ
address_of c = c.low_address + 2 ^ 8 * c.high_address + 2 ^ 16 * c.page

abbrev pub count_of : Channel → ℕ
count_of c = c.low_count + 2 ^ 8 * c.high_count

-- A channel that is ready for a transfer of `count` bytes at `buffer`.
pub record IsProgrammed (buffer count direction : ℕ) (auto : Bool) (mode : ℕ) (p : Ports)
    (c : Channel) : Type 0 where
  pub address : address_of c ≡ buffer % 2 ^ 24
  pub bytes : count_of c + 1 ≡ count
  pub open_channel : c.masked ≡ false
  pub mode_bits : c.mode ≡ p.number + direction * 4 + (if auto then 1 else 0) * 16 + mode * 64

abbrev pub channel_ports : ℕ → Ports
channel_ports zero = record { number = 0; start = 0; upper = 0; count = 0 }
channel_ports (suc zero) = record {
  number = 1;
  start = c1_start;
  upper = c1_start_upper;
  count = c1_count;
}
channel_ports (suc (suc zero)) = record {
  number = 2;
  start = c2_start;
  upper = c2_start_upper;
  count = c2_count;
}
channel_ports (suc (suc (suc n))) = record {
  number = 3;
  start = c3_start;
  upper = c3_start_upper;
  count = c3_count;
}

mode_byte-small :
    (channel direction : ℕ) (auto : Bool) (mode : ℕ)
    → channel < 4
    → direction < 4
    → mode < 4
    → mode_byte channel direction auto mode < 256
mode_byte-small channel direction true mode hc hd hm = omega arith
mode_byte-small channel direction false mode hc hd hm = omega arith

mode_byte-channel :
    (channel direction : ℕ) (auto : Bool) (mode : ℕ)
    → channel < 4
    → direction < 4
    → mode < 4
    → (mode_byte channel direction auto mode % 256 % 4 == channel) ≡ true
mode_byte-channel channel direction true mode hc hd hm = ground arith
mode_byte-channel channel direction false mode hc hd hm = ground arith

module _ (buffer count : ℕ) (auto : Bool) (mode : ℕ) (before : Channel) (low : 1 ≤ count)
    (high : count ≤ 2 ^ 16) (hm : mode < 4) where
  abbrev Done : ℕ → ℕ → ℕ × List PortWrite → Type 0
  Done direction channel out =
      (out.0 ≡ 0)
      × IsProgrammed buffer count direction auto mode (channel_ports channel)
          (receive_all (channel_ports channel) out.1 before)

  transfer_to_1 : Done 1 1 (transfer_to 1 buffer count auto mode)
  unfolding transfer_to
  transfer_to_1 =
      let small = mode_byte-small 1 1 auto mode (omega arith) (omega arith) hm in
      rw (mode_byte-channel 1 1 auto mode (omega arith) (omega arith) hm) (
        refl,
        record {
          address = omega arith;
          bytes = omega arith;
          open_channel = refl;
          mode_bits = omega (arith, small);
        },
      )

  transfer_to_2 : Done 1 2 (transfer_to 2 buffer count auto mode)
  unfolding transfer_to
  transfer_to_2 =
      let small = mode_byte-small 2 1 auto mode (omega arith) (omega arith) hm in
      rw (mode_byte-channel 2 1 auto mode (omega arith) (omega arith) hm) (
        refl,
        record {
          address = omega arith;
          bytes = omega arith;
          open_channel = refl;
          mode_bits = omega (arith, small);
        },
      )

  transfer_to_3 : Done 1 3 (transfer_to 3 buffer count auto mode)
  unfolding transfer_to
  transfer_to_3 =
      let small = mode_byte-small 3 1 auto mode (omega arith) (omega arith) hm in
      rw (mode_byte-channel 3 1 auto mode (omega arith) (omega arith) hm) (
        refl,
        record {
          address = omega arith;
          bytes = omega arith;
          open_channel = refl;
          mode_bits = omega (arith, small);
        },
      )

  transfer_from_1 : Done 2 1 (transfer_from 1 buffer count auto mode)
  unfolding transfer_from
  transfer_from_1 =
      let small = mode_byte-small 1 2 auto mode (omega arith) (omega arith) hm in
      rw (mode_byte-channel 1 2 auto mode (omega arith) (omega arith) hm) (
        refl,
        record {
          address = omega arith;
          bytes = omega arith;
          open_channel = refl;
          mode_bits = omega (arith, small);
        },
      )

  transfer_from_2 : Done 2 2 (transfer_from 2 buffer count auto mode)
  unfolding transfer_from
  transfer_from_2 =
      let small = mode_byte-small 2 2 auto mode (omega arith) (omega arith) hm in
      rw (mode_byte-channel 2 2 auto mode (omega arith) (omega arith) hm) (
        refl,
        record {
          address = omega arith;
          bytes = omega arith;
          open_channel = refl;
          mode_bits = omega (arith, small);
        },
      )

  transfer_from_3 : Done 2 3 (transfer_from 3 buffer count auto mode)
  unfolding transfer_from
  transfer_from_3 =
      let small = mode_byte-small 3 2 auto mode (omega arith) (omega arith) hm in
      rw (mode_byte-channel 3 2 auto mode (omega arith) (omega arith) hm) (
        refl,
        record {
          address = omega arith;
          bytes = omega arith;
          open_channel = refl;
          mode_bits = omega (arith, small);
        },
      )

  -- ISA_DMA_Transfer_To and ISA_DMA_Transfer_From on channels 1 to 3 return 0 and leave the channel
  -- ready, whatever its registers and its flip-flop were, for a `Count` of 1 to 65536 and a `Mode`
  -- below 4: the channel is not masked, its address is the low 24 bits of `Buffer`, it moves `Count`
  -- bytes, and its mode has the direction of the function, `Auto` and `Mode`.
  pub transfer-IsProgrammed :
      (channel : ℕ)
      → 1 ≤ channel
      → channel ≤ 3
      → Done 1 channel (transfer_to channel buffer count auto mode)
        × Done 2 channel (transfer_from channel buffer count auto mode)
  transfer-IsProgrammed zero h1 h3 = absurd (omega arith)
  transfer-IsProgrammed (suc zero) h1 h3 = (transfer_to_1, transfer_from_1)
  transfer-IsProgrammed (suc (suc zero)) h1 h3 = (transfer_to_2, transfer_from_2)
  transfer-IsProgrammed (suc (suc (suc zero))) h1 h3 = (transfer_to_3, transfer_from_3)
  transfer-IsProgrammed (suc (suc (suc (suc n)))) h1 h3 = absurd (omega arith)
