-- ===== src/Firmware/Simulated/Start.antt =====
-- The start of the focuser: its constructor against `setPosition`, which makes the same product in 64 bits.
use zwo_eaf_proxy.Base.{Bool, ◌&&◌}
use zwo_eaf_proxy.Base.Int.{ℤ, pos, negsuc, leb_ℤ}
use zwo_eaf_proxy.Firmware.Simulated.{SimulatedFocuser, times}

-- A focuser that stands at `z` with nothing left to do
abbrev pub standing : ℤ → SimulatedFocuser → SimulatedFocuser
standing z s = record s { position = times 1000 z; target = z }

-- The starts whose product with 1000 an `int32_t` holds
abbrev pub is_constructible : ℤ → Bool
is_constructible z = leb_ℤ (negsuc 2147482) z && leb_ℤ z (pos 2147483)
