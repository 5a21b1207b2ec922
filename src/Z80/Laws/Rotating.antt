-- ===== src/Z80/Laws/Rotating.antt =====
-- The rotates and shifts of the CB prefix, as arithmetic and as inverses.
use debug.Base.{ℕ, ◌<◌, ◌≡◌, arith, ◌+◌, ◌*◌}
use debug.Z80.State.{Flags}
use debug.Z80.Rotate.{
  set_rotate_flags, do_rlc, do_rrc, do_rl, do_rr, do_sla, do_sra, do_sll, do_srl,
}
use debug.Z80.Laws.Adding.{offset}

-- On a byte and a carry of 0 or 1 each rotate undoes its opposite, through the carry for RL and RR.
pub rotates_undone :
    (n : ℕ) (f : Flags)
    → n < 256
    → f.c < 2
    → let (left_circular, f1) = do_rlc n f in
      let (right_circular, f2) = do_rrc n f in
      let (left, f3) = do_rl n f in
      let (right, f4) = do_rr n f in
      ((do_rrc left_circular f1).0 ≡ n)
      × ((do_rlc right_circular f2).0 ≡ n)
      × ((do_rr left f3).0 ≡ n)
      × ((do_rr left f3).1.c ≡ f.c)
      × ((do_rl right f4).0 ≡ n)
      × ((do_rl right f4).1.c ≡ f.c)
unfolding do_rlc do_rrc do_rl do_rr set_rotate_flags
rotates_undone n f h v = ground arith

-- On a byte the shifts are arithmetic, and the bit that falls out is the carry: SLA doubles, SLL
-- doubles and adds one, SRL halves, and SRA halves the byte as a signed number, rounding down.
pub shifts_lem :
    (n : ℕ) (f : Flags)
    → n < 256
    → let (sla, f1) = do_sla n f in
      let (sll, f2) = do_sll n f in
      let (srl, f3) = do_srl n f in
      let (sra, f4) = do_sra n f in
      (sla + 256 * f1.c ≡ 2 * n)
      × (sll + 256 * f2.c ≡ 2 * n + 1)
      × (2 * srl + f3.c ≡ n)
      × (2 * offset sra + f4.c ≡ offset n + 128)
unfolding do_sla do_sll do_srl do_sra set_rotate_flags
shifts_lem n f h = ground arith
