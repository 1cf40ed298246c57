-- ===== src/Dmac/Trigger.antt =====
-- DMAC_trigger of sh4/dmac.c, whose transfers are not implemented there.
use lxdream.Base.{ℕ, ◌≡◌, arith}
use lxdream.Machine.{Machine}
use lxdream.Dmac.{Resource, trigger_channel, dmac_trigger}

trigger_channel_lem : (r : Resource) (i : ℕ) (m : Machine) → trigger_channel r i m ≡ m
unfolding trigger_channel
trigger_channel_lem r i m = ground arith

pub dmac_trigger_lem : (r : Resource) (m : Machine) → dmac_trigger r m ≡ m
unfolding dmac_trigger
dmac_trigger_lem r m = grind (arith, trigger_channel_lem)
